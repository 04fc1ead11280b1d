-- ===== src/Order/Check.antt =====
-- `validateOrder` and the gate's `CheckOrder`: which requests the backend passes on to the relayer.
-- Addresses are compared without regard to case.
use thassa.Base.{
  ℕ, ◌≡◌, ◌+◌, ◌%◌, ◌^◌, ◌==◌, ltb, leb, not, ◌&&◌, ◌||◌, if◌then◌else◌, lower, map, Bool, true,
  false, Text, codes, text_eq, [], ◌∷◌, Option, none, some, length, take, drop,
}
use thassa.Json.{Json}
use thassa.Pricing.{escrow_units, taker_fee_units}
use thassa.Order.{OrderFields, TypedOrder, Config}
use thassa.Order.Hex.{prefix, digit_of}
use thassa.Order.Gate.{OrderPayload, AuthPayload, decode_body, guard}
use thassa.Order.Mobile.{number_from}
use thassa.Order.Web.{markets_domain, order_types}

-- What stands behind the request: the linked wallet of its user, the configuration, `uuid.Parse` with
-- the number that the bytes make, the markets and the posts that there are, the limits, the clock in
-- seconds, and whether the chain is configured. A market is its number on the chain, once it has one,
-- and its status; `none` stands for one that is not there or could not be read.
pub record Backend : Type 0 where
  pub linked : Text
  pub config : Config
  pub uuid_number : Text → Option ℕ
  pub chain_ready : Bool
  pub market_chain_id : ℕ → Option (Option ℕ × Text)
  pub post_exists : ℕ → Bool
  pub within_rate : Bool
  pub max_order_cost : ℕ
  pub now : ℕ

abbrev pub same_address : Text → Text → Bool
same_address a b = text_eq (map lower a) (map lower b)

abbrev all_digits : Text → Bool
all_digits [] = true
all_digits (c ∷ s) = leb 48 c && leb c 57 && all_digits s

-- `SetString(text, 10)`: the decimal numbers, without a sign.
unfoldable pub parse_decimal : Text → Option ℕ
parse_decimal [] = none
parse_decimal (c ∷ s) = if all_digits (c ∷ s) then some (number_from 0 (c ∷ s)) else none

unfoldable pub is_digit : ℕ → Bool
is_digit c = elim (digit_of c) [ none ↦ false | some d ↦ true ]

abbrev pub all_hex : Text → Bool
all_hex [] = true
all_hex (c ∷ s) = is_digit c && all_hex s

-- `ParseHash32`.
unfoldable pub is_hash32 : Text → Bool
is_hash32 t = text_eq (take 2 t) prefix && length t == 66 && all_hex (drop 2 t)

infixl 5 ◌>>=◌ ◌>>◌
abbrev ◌>>=◌ : {A B : Type 0} → Option A → (A → Option B) → Option B
none >>= f = none
some a >>= f = f a

abbrev ◌>>◌ : {B : Type 0} → Option (Unit {0}) → Option B → Option B
m >> k = m >>= λ _. k

unfoldable pub side_of : Text → Option ℕ
side_of t =
    if text_eq t (codes "yes") then some 0 else if text_eq t (codes "no") then some 1 else none

unfoldable pub post_number : Backend → ℕ → Option ℕ
post_number backend n = if backend.post_exists n then some n else none

-- By the id of the text, or else by the number.
unfoldable pub affiliate_of : Backend → Option Text → Option Text → Option ℕ
affiliate_of backend (some (c ∷ t)) a = do n ← backend.uuid_number (c ∷ t); post_number backend n
affiliate_of backend none (some (c ∷ t)) = do
  n ← parse_decimal (c ∷ t)
  guard (ltb n (2 ^ 128))
  post_number backend n
affiliate_of backend (some []) (some (c ∷ t)) = do
  n ← parse_decimal (c ∷ t)
  guard (ltb n (2 ^ 128))
  post_number backend n
affiliate_of backend none none = some 0
affiliate_of backend none (some []) = some 0
affiliate_of backend (some []) none = some 0
affiliate_of backend (some []) (some []) = some 0

-- `toAuth`: the three hashes have to parse.
unfoldable pub to_auth : AuthPayload → Option AuthPayload
to_auth a = do guard (is_hash32 a.nonce); guard (is_hash32 a.r); guard (is_hash32 a.s); some a

-- The order that a request stands for, in the market of that number on the chain.
unfoldable pub validate_order : Backend → ℕ → OrderPayload → Option (OrderFields × AuthPayload)
validate_order backend chain_market_id p = do
  guard (not (text_eq backend.linked []))
  side ← side_of p.side
  given ← p.auth
  auth ← to_auth given
  guard backend.within_rate
  affiliate ← affiliate_of backend p.affiliate_post_id p.affiliate_id
  guard (leb 1 p.price_cents && leb p.price_cents 99)
  some (
    record {
      market_id = chain_market_id;
      side = side;
      price = p.price_cents % 256;
      shares = p.shares;
      max_cost = p.max_cost;
      affiliate_post_id = affiliate;
      expiry = p.expiry;
      nonce = p.nonce;
      maker = backend.linked;
    },
    auth,
  )

unfoldable pub estimate_max_cost : ℕ → ℕ → ℕ → ℕ
estimate_max_cost decimals shares price_cents =
    escrow_units decimals shares price_cents + taker_fee_units decimals shares price_cents

-- The purpose of an order: the funds go to the markets contract, from the maker.
unfoldable pub check_auth : Backend → AuthPayload → Text → Bool
check_auth backend a maker =
    same_address a.to backend.config.markets_contract
    && same_address a.from maker
    && not (leb a.value 0)
    && not (ltb 0 backend.max_order_cost && ltb backend.max_order_cost a.value)
    && not (ltb backend.now a.valid_after)
    && not (not (a.valid_before == 0) && leb a.valid_before backend.now)

unfoldable pub check_order : (TypedOrder → Text) → Backend → OrderFields → AuthPayload → Bool
check_order hash_typed_data backend o a =
    let need = estimate_max_cost backend.config.decimals o.shares o.price in
    leb 1 o.price
    && leb o.price 99
    && ltb 0 o.shares
    && not (not (o.expiry == 0) && leb o.expiry backend.now)
    && not (ltb o.max_cost need)
    && not (ltb 0 backend.max_order_cost && ltb backend.max_order_cost o.max_cost)
    && check_auth backend a o.maker
    && not (ltb a.value need)
    && same_address a.nonce (
        hash_typed_data (record {
          domain = markets_domain backend.config;
          types = order_types;
          primary_type = codes "Order";
          message = o;
        }))

-- SETTLING stays open for trading.
unfoldable pub accepts_orders : Text → Bool
accepts_orders status =
    text_eq status (codes "OPEN")
    || text_eq status (codes "MATCHED")
    || text_eq status (codes "SETTLING")

-- The number on the chain of the market that a request names, if it takes orders.
unfoldable pub market_number : Backend → Text → Option ℕ
market_number backend t = do
  id ← backend.uuid_number t
  market ← backend.market_chain_id id
  chain_market_id ← market.0
  guard (accepts_orders market.1)
  some chain_market_id

-- The order that enters the queue, for a request with an authorization. One without is `none`: the
-- backend may sign it for its user, which is left aside.
unfoldable pub handle_create_order : (TypedOrder → Text) → Backend → Json → Option OrderFields
handle_create_order hash_typed_data backend body = do
  guard backend.chain_ready
  p ← decode_body body
  chain_market_id ← market_number backend p.market_id
  checked ← validate_order backend chain_market_id p
  guard (check_order hash_typed_data backend checked.0 checked.1)
  some checked.0

module _ (hash_typed_data : TypedOrder → Text) (backend : Backend) (body : Json) where
  -- A request that passes every step enters the queue.
  pub handle_create_order-queued :
      (p : OrderPayload) (n : ℕ) (checked : OrderFields × AuthPayload)
      → backend.chain_ready ≡ true
      → decode_body body ≡ some p
      → market_number backend p.market_id ≡ some n
      → validate_order backend n p ≡ some checked
      → check_order hash_typed_data backend checked.0 checked.1 ≡ true
      → handle_create_order hash_typed_data backend body ≡ some checked.0
  unfolding handle_create_order
  handle_create_order-queued p n checked r d m v c = simp (r, d, m, v, c)
