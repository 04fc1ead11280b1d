-- ===== src/Create/Attached.antt =====
-- The market that a post carries, and what posting does: a list, the latest first. A call that throws
-- leaves what was done before. An amount is a whole count of cents, as in Pricing.
use thassa.Base.{ℕ, or_else, Text, List, [], ◌∷◌, Option}
use thassa.Api.{Outcome, returns, throws}
use thassa.Pricing.{shares_for_spend}
use thassa.Mention.{MentionInput}
use thassa.Order.{Side, yes_side, no_side}
use thassa.Order.Mobile.{WalletHandle, Auth3009Payload}
use thassa.Order.Submit.{Market}
use thassa.Create.{Kind}

pub data Stage : Type 0 where
  idle : Stage
  finishing : Stage
  signing : Stage
  posting : Stage
  error : Option Text → Stage

pub record Candidate : Type 0 where
  pub title : Option Text
  pub question : Text
  pub settlement_query : Option Text
  pub settlement_query_camel : Option Text

unfoldable pub candidate_settlement_query : Candidate → Text
candidate_settlement_query c = or_else c.settlement_query (or_else c.settlement_query_camel [])

pub data Attachment : Type 0 where
  existing : Market → Side → ℕ → Option ℕ → Attachment
  new_market : Candidate → Side → ℕ → ℕ → Attachment

abbrev pub market_price : Market → Side → Option ℕ
market_price m yes_side = m.yes_price_cents
market_price m no_side = m.no_price_cents

unfoldable pub side_of : Attachment → Side
side_of (existing m side spend limit) = side
side_of (new_market c side spend price) = side

unfoldable pub spend_of : Attachment → ℕ
spend_of (existing m side spend limit) = spend
spend_of (new_market c side spend price) = spend

unfoldable pub price_of : Attachment → ℕ
price_of (existing m side spend limit) = or_else limit (or_else (market_price m side) 50)
price_of (new_market c side spend price) = price

unfoldable pub shares_of : Attachment → ℕ
shares_of a = shares_for_spend (spend_of a) (price_of a)

-- What `signOrderPayload` returns.
pub record OrderPayload : Type 0 where
  pub side : Side
  pub price_cents : ℕ
  pub shares : ℕ
  pub max_cost : ℕ
  pub expiry : ℕ
  pub nonce : ℕ
  pub auth : Auth3009Payload

pub record PostBody : Type 0 where
  pub caption : Option Text
  pub kind : Kind
  pub media_ids : List Text
  pub market_id : Option Text
  pub mentions : List MentionInput

-- The post as the backend answers.
pub record Made : Type 0 where
  pub id : Text
  pub affiliate_id : Option ℕ

pub record OrderBody : Type 0 where
  pub market_id : Text
  pub order : OrderPayload
  pub affiliate_post_id : Text
  pub affiliate_id : Option ℕ

pub data Effect : Type 0 where
  stage : Stage → Effect
  link_wallet : Text → Effect
  ask_nonce : Effect
  prompt : Effect
  create_market : Text → Text → Text → OrderPayload → Effect
  publish : PostBody → Effect
  place_order : OrderBody → Effect
  buzz_success : Effect
  buzz_warn : Effect
  toast : Text → Effect
  refresh_feed : Effect
  reset : Effect
  go_home : Effect

abbrev pub Action : Type 0 → Type 0
Action A = List Effect → Outcome A × List Effect

abbrev pub pure : {A : Type 0} → A → Action A
pure a log = (returns a, log)

abbrev pub tell : Effect → Action (Unit {0})
tell e log = (returns tt, e ∷ log)

abbrev pub await : {A : Type 0} → Outcome A → Action A
await o log = (o, log)

infixl 5 ◌>>=◌ ◌>>◌
abbrev pub ◌>>=◌ : {A B : Type 0} → Action A → (A → Action B) → Action B
◌>>=◌ m f log =
    let (o, log') = m log in elim o [ throws e ↦ (throws e, log') | returns a ↦ f a log' ]

abbrev pub ◌>>◌ : {A B : Type 0} → Action A → Action B → Action B
m >> k = m >>= λ _. k

-- What the calls answer; `link` is caught and its answer ignored. `now` is the clock at `buildOrder`,
-- `signed_at` that at the signature.
pub record World : Type 0 where
  pub wallet : Outcome WalletHandle
  pub order_nonce : Outcome ℕ
  pub now : ℕ
  pub signed_at : ℕ
  pub random : List ℕ
  pub market : Outcome Text
  pub made : Outcome Made
  pub placed : Outcome (Unit {0})
