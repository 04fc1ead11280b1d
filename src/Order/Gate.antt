-- ===== src/Order/Gate.antt =====
-- What backend/internal/api and backend/internal/chain make of a request for an order: the decoding of
-- its body, the order that it stands for, and the gate in front of the relayer. Numbers are from 0 up
-- and below 2 ^ 63, as an int64 is. The database and `uuid.Parse` are parameters.
use thassa.Base.{ℕ, ltb, Bool, true, false, Text, codes, List, [], ◌∷◌, Option, none, some}
use thassa.Json.{Json, null, num, str, obj, Fields, field, known}

-- A member that is missing or null keeps the zero value; one of another type is an error.
unfoldable pub text_value : Json → Option Text
text_value null = some []
text_value (num n) = none
text_value (str t) = some t
text_value (obj fs) = none

unfoldable pub number_value : Json → Option ℕ
number_value null = some 0
number_value (num n) = some n
number_value (str t) = none
number_value (obj fs) = none

-- A pointer, nil where the member is missing or null.
unfoldable pub pointer_value : Json → Option (Option Text)
pointer_value null = some none
pointer_value (num n) = none
pointer_value (str t) = some (some t)
pointer_value (obj fs) = none

unfoldable pub object_value : Json → Option (Option Fields)
object_value null = some none
object_value (num n) = none
object_value (str t) = none
object_value (obj fs) = some (some fs)

abbrev pub text_member : Text → Fields → Option Text
text_member name fs = elim (field name fs) [ none ↦ some [] | some j ↦ text_value j ]

abbrev pub number_member : Text → Fields → Option ℕ
number_member name fs = elim (field name fs) [ none ↦ some 0 | some j ↦ number_value j ]

abbrev pub pointer_member : Text → Fields → Option (Option Text)
pointer_member name fs = elim (field name fs) [ none ↦ some none | some j ↦ pointer_value j ]

abbrev pub object_member : Text → Fields → Option (Option Fields)
object_member name fs = elim (field name fs) [ none ↦ some none | some j ↦ object_value j ]

pub record AuthPayload : Type 0 where
  pub from : Text
  pub to : Text
  pub value : ℕ
  pub valid_after : ℕ
  pub valid_before : ℕ
  pub nonce : Text
  pub v : ℕ
  pub r : Text
  pub s : Text

pub record OrderPayload : Type 0 where
  pub market_id : Text
  pub side : Text
  pub price_cents : ℕ
  pub shares : ℕ
  pub max_cost : ℕ
  pub affiliate_post_id : Option Text
  pub affiliate_id : Option Text
  pub expiry : ℕ
  pub nonce : ℕ
  pub auth : Option AuthPayload

infixl 5 ◌>>=◌ ◌>>◌
abbrev ◌>>=◌ : {A B : Type 0} → Option A → (A → Option B) → Option B
none >>= f = none
some a >>= f = f a

abbrev ◌>>◌ : {B : Type 0} → Option (Unit {0}) → Option B → Option B
m >> k = m >>= λ _. k

abbrev pub guard : Bool → Option (Unit {0})
guard true = some tt
guard false = none

abbrev pub auth_members : List Text
auth_members =
    codes "from"
    ∷ codes "to"
    ∷ codes "value"
    ∷ codes "valid_after"
    ∷ codes "valid_before"
    ∷ codes "nonce"
    ∷ codes "v"
    ∷ codes "r"
    ∷ codes "s"
    ∷ []

-- `V` is a byte.
unfoldable pub decode_auth : Fields → Option AuthPayload
decode_auth fs = do
  guard (known auth_members fs)
  from ← text_member (codes "from") fs
  to ← text_member (codes "to") fs
  value ← number_member (codes "value") fs
  valid_after ← number_member (codes "valid_after") fs
  valid_before ← number_member (codes "valid_before") fs
  nonce ← text_member (codes "nonce") fs
  v ← number_member (codes "v") fs
  guard (ltb v 256)
  r ← text_member (codes "r") fs
  s ← text_member (codes "s") fs
  some (record {
    from = from;
    to = to;
    value = value;
    valid_after = valid_after;
    valid_before = valid_before;
    nonce = nonce;
    v = v;
    r = r;
    s = s;
  })

unfoldable pub decode_pointer : Option Fields → Option (Option AuthPayload)
decode_pointer none = some none
decode_pointer (some fs) = do auth ← decode_auth fs; some (some auth)

abbrev pub order_members : List Text
order_members =
    codes "market_id"
    ∷ codes "side"
    ∷ codes "price_cents"
    ∷ codes "shares"
    ∷ codes "max_cost"
    ∷ codes "affiliate_post_id"
    ∷ codes "affiliate_id"
    ∷ codes "expiry"
    ∷ codes "nonce"
    ∷ codes "auth"
    ∷ []

unfoldable pub decode_order : Fields → Option OrderPayload
decode_order fs = do
  guard (known order_members fs)
  market_id ← text_member (codes "market_id") fs
  side ← text_member (codes "side") fs
  price_cents ← number_member (codes "price_cents") fs
  shares ← number_member (codes "shares") fs
  max_cost ← number_member (codes "max_cost") fs
  affiliate_post_id ← pointer_member (codes "affiliate_post_id") fs
  affiliate_id ← pointer_member (codes "affiliate_id") fs
  expiry ← number_member (codes "expiry") fs
  nonce ← number_member (codes "nonce") fs
  fields ← object_member (codes "auth") fs
  auth ← decode_pointer fields
  some (record {
    market_id = market_id;
    side = side;
    price_cents = price_cents;
    shares = shares;
    max_cost = max_cost;
    affiliate_post_id = affiliate_post_id;
    affiliate_id = affiliate_id;
    expiry = expiry;
    nonce = nonce;
    auth = auth;
  })

-- `decoded` is the body of `POST /v1/orders`.
abbrev pub decode_body : Json → Option OrderPayload
decode_body null = none
decode_body (num n) = none
decode_body (str t) = none
decode_body (obj fs) = decode_order fs
