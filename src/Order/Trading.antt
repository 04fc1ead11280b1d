-- ===== src/Order/Trading.antt =====
-- web/lib/trading.ts: orders and settlements of the web client. `now` is the clock in seconds.
use thassa.Base.{ℕ, ◌+◌, ◌*◌, ◌/◌, Text, codes, List, [], ◌∷◌, Option, none, some}
use thassa.Json.{Json, str, obj, Fields, fields, spread, nullable}
use thassa.Api.{Outcome, returns, throws, other_error}
use thassa.Pricing.{unit}
use thassa.Pricing.Web.{max_cost_units}
use thassa.Order.{Side, side_num, OrderFields, TypedOrder, Config}
use thassa.Order.Hex.{random_bytes}
use thassa.Order.Web.{
  Auth3009Fields, TypedAuth, order_digest, build_receive_auth_typed_data, serialize_order,
  serialize_auth,
}

infixl 5 ◌>>=◌
abbrev pub ◌>>=◌ {ℓ κ} : {A : Type ℓ} {B : Type κ} → Outcome A → (A → Outcome B) → Outcome B
returns a >>= f = f a
throws e >>= f = throws e

abbrev pub hour : ℕ
hour = 3600

-- The wallet that signs, `null` until it is ready.
pub record Signer : Type 0 where
  pub address : Option Text
  pub sign_typed_data : TypedAuth → Outcome Text

abbrev address_of : Signer → Outcome Text
address_of signer = elim signer.address [
  | none ↦ throws (other_error (codes "wallet not ready"))
  | some a ↦ returns a
]

pub record OrderTerms : Type 0 where
  pub chain_market_id : ℕ
  pub side : Side
  pub price_cents : ℕ
  pub shares : ℕ
  pub affiliate_id : ℕ

pub record Signed : Type 0 where
  pub order : Fields
  pub auth : Fields

-- The members that both objects add to a larger body.
abbrev pub signed_fields : Signed → Fields
signed_fields s = fields ((codes "order", obj s.order) ∷ (codes "auth", obj s.auth) ∷ [])

module _ (hash_typed_data : TypedOrder → Text) (config : Config) where
  abbrev pub order_of : ℕ → Text → ℕ → OrderTerms → OrderFields
  order_of now address order_nonce params = record {
    market_id = params.chain_market_id;
    side = side_num params.side;
    price = params.price_cents;
    shares = params.shares;
    max_cost = max_cost_units config.decimals params.shares params.price_cents;
    affiliate_post_id = params.affiliate_id;
    expiry = now + 24 * hour;
    nonce = order_nonce;
    maker = address;
  }

  abbrev pub funding_of : ℕ → OrderFields → Auth3009Fields
  funding_of now order = record {
    from = order.maker;
    to = config.markets_contract;
    value = order.max_cost;
    valid_after = 0;
    valid_before = now + 24 * hour;
    nonce = order_digest hash_typed_data config order;
  }

  -- `order_nonce` is what `GET /v1/wallet` answers.
  unfoldable pub sign_order_and_funding : Signer → Outcome ℕ → ℕ → OrderTerms → Outcome Signed
  sign_order_and_funding signer order_nonce now params = do
    address ← address_of signer
    nonce ← order_nonce
    let order = order_of now address nonce params
    let auth = funding_of now order
    signature ← signer.sign_typed_data (build_receive_auth_typed_data config auth)
    returns (record {
      order = serialize_order hash_typed_data config order;
      auth = serialize_auth auth signature;
    })

  -- The body of `POST /v1/orders`.
  unfoldable pub place_order_body :
      Signer → Outcome ℕ → ℕ → OrderTerms → Text → Option Text → Outcome Json
  place_order_body signer order_nonce now params market_id affiliate_post_id = do
    signed ← sign_order_and_funding signer order_nonce now params
    returns (
        obj (
          spread
            (fields (
              (codes "market_id", str market_id)
              ∷ (codes "affiliate_post_id", nullable affiliate_post_id)
              ∷ []))
            (signed_fields signed)))

  unfoldable pub sign_attach_order : Signer → Outcome ℕ → ℕ → OrderTerms → Text → Outcome Fields
  sign_attach_order signer order_nonce now params market_id = do
    signed ← sign_order_and_funding signer order_nonce now params
    returns (spread (fields ((codes "market_id", str market_id) ∷ [])) (signed_fields signed))

  -- The three texts are the candidate's; the market has no number on the chain yet.
  unfoldable pub sign_create_market :
      Signer → Outcome ℕ → ℕ → Side → ℕ → ℕ → Text → Text → Text → Outcome Fields
  sign_create_market signer order_nonce now side price_cents shares question settlement_query
        title =
      do
        signed ← sign_order_and_funding signer order_nonce now (record {
          chain_market_id = 0;
          side = side;
          price_cents = price_cents;
          shares = shares;
          affiliate_id = 0;
        })
        returns (
            fields (
              (codes "question", str question)
              ∷ (codes "settlement_query", str settlement_query)
              ∷ (codes "title", str title)
              ∷ (codes "initial_order", obj signed.order)
              ∷ (codes "auth", obj signed.auth)
              ∷ []))

  -- Five cents.
  unfoldable pub settle_market_body : Signer → ℕ → List ℕ → Outcome Json
  settle_market_body signer now random = do
    address ← address_of signer
    let auth : Auth3009Fields = record {
      from = address;
      to = config.markets_contract;
      value = unit config.decimals / 20;
      valid_after = 0;
      valid_before = now + hour;
      nonce = random_bytes random;
    }
    signature ← signer.sign_typed_data (build_receive_auth_typed_data config auth)
    returns (obj (fields ((codes "auth", obj (serialize_auth auth signature)) ∷ [])))
