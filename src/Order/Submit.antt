-- ===== src/Order/Submit.antt =====
-- The order ticket: mobile/components/TradeSheet.tsx, whose submission MarketCard.tsx repeats. An amount
-- is a whole count of cents, as in Pricing.
use thassa.Base.{
  ℕ, ◌+◌, ◌-◌, min, max, ltb, not, ◌&&◌, if◌then◌else◌, or_else, Bool, true, false, Text, codes,
  List, [], ◌∷◌, Option, none, some,
}
use thassa.Json.{Json, null, num, str, obj, Fields, fields, nullable}
use thassa.Api.{Thrown, Outcome}
use thassa.Api.Errors.{error_message}
use thassa.Flow.{
  Action, stage, failed, request, prompt, buzz_success, buzz_warn, toast, placed, closed, await,
  tell, ignore, ◌>>=◌, ◌>>◌, try_catch,
}
use thassa.Format.Money.{decimal}
use thassa.Pricing.{shares_for_spend}
use thassa.Pricing.Mobile.{max_cost_units}
use thassa.Order.{Side, yes_side, no_side, side_name, TypedOrder, Config}
use thassa.Order.Mobile.{WalletHandle, Auth3009Payload, build_order, sign_receive_authorization}

pub data Stage : Type 0 where
  idle : Stage
  signing : Stage
  queued : Stage

-- The parts of a market that a ticket reads.
pub record Market : Type 0 where
  pub id : Text
  pub chain_market_id : ℕ
  pub yes_price_cents : Option ℕ
  pub no_price_cents : Option ℕ

pub record Ticket : Type 0 where
  pub market : Market
  pub affiliate_post_id : Option Text
  pub affiliate_id : Option ℕ
  pub side : Side
  pub amount : ℕ
  pub limit_override : Option ℕ
  pub stage : Stage

abbrev pub best_price : Ticket → Option ℕ
best_price t = elim t.side [
  | yes_side ↦ t.market.yes_price_cents
  | no_side ↦ t.market.no_price_cents
]

abbrev pub price_of : Ticket → ℕ
price_of t = or_else t.limit_override (or_else (best_price t) 50)

abbrev pub shares_of : Ticket → ℕ
shares_of t = shares_for_spend t.amount (price_of t)

abbrev is_busy : Stage → Bool
is_busy idle = false
is_busy signing = true
is_busy queued = true

unfoldable pub can_submit : Ticket → Bool
can_submit t = ltb 0 (shares_of t) && not (is_busy t.stage)

-- `PriceStepper`: `up` is its button.
unfoldable pub step_price : Bool → ℕ → ℕ
step_price up value = max 1 (min 99 (if up then value + 1 else value - 1))

-- What the calls of one submission answer. `now` is the clock at `buildOrder`, `signed_at` that at the
-- signature.
pub record World : Type 0 where
  pub wallet : Outcome WalletHandle
  pub link : Outcome (Unit {0})
  pub order_nonce : Outcome ℕ
  pub now : ℕ
  pub signed_at : ℕ
  pub random : List ℕ
  pub answer : Outcome (Unit {0})

-- `v` is NaN where the signature is none, and NaN is written as null.
abbrev pub auth_fields : Auth3009Payload → Fields
auth_fields auth = fields (
    (codes "from", str auth.from)
    ∷ (codes "to", str auth.to)
    ∷ (codes "value", num auth.value)
    ∷ (codes "valid_after", num auth.valid_after)
    ∷ (codes "valid_before", num auth.valid_before)
    ∷ (codes "nonce", str auth.nonce)
    ∷ (codes "v", elim auth.v [ none ↦ null | some v ↦ num v ])
    ∷ (codes "r", str auth.r)
    ∷ (codes "s", str auth.s)
    ∷ [])

unfoldable pub order_payload : Ticket → ℕ → ℕ → ℕ → Auth3009Payload → Json
order_payload t max_cost expiry nonce auth = obj (
    fields (
      (codes "market_id", str t.market.id)
      ∷ (codes "side", str (side_name t.side))
      ∷ (codes "price_cents", num (price_of t))
      ∷ (codes "shares", num (shares_of t))
      ∷ (codes "max_cost", num max_cost)
      ∷ (codes "expiry", num expiry)
      ∷ (codes "nonce", num nonce)
      ∷ (codes "auth", obj (auth_fields auth))
      ∷ (codes "affiliate_post_id", nullable t.affiliate_post_id)
      ∷ (codes "affiliate_id", elim t.affiliate_id [ none ↦ null | some a ↦ str (decimal a) ])
      ∷ []))

-- `place` from the signature on.
abbrev pub send_order : World → Ticket → ℕ → ℕ → ℕ → Auth3009Payload → Action Stage (Unit {0})
send_order world t max_cost expiry nonce auth = do
  tell (stage queued)
  tell (
      request (codes "POST") (codes "/v1/orders")
        (some (order_payload t max_cost expiry nonce auth)))
  await world.answer
  tell buzz_success
  tell (toast (codes "Order placed"))
  tell placed
  tell closed
  tell (stage idle)

-- `submit` from an error on.
abbrev pub give_up : Thrown → Action Stage (Unit {0})
give_up e = do tell buzz_warn; tell (failed (some (error_message e))); tell (stage idle)

module _ (hash_typed_data : TypedOrder → Text) (config : Config) where
  -- The body of the `try`.
  unfoldable pub place : World → Ticket → Action Stage (Unit {0})
  place world t = do
    wallet ← await world.wallet
    tell (
        request (codes "POST") (codes "/v1/me/wallet")
          (some (obj (fields ((codes "address", str wallet.address) ∷ [])))))
    ignore world.link
    tell (request (codes "GET") (codes "/v1/wallet") none)
    order_nonce ← await world.order_nonce
    let max_cost = max_cost_units config.decimals (shares_of t) (price_of t)
    let order = build_order hash_typed_data config world.now wallet.address (record {
      chain_market_id = t.market.chain_market_id;
      side = t.side;
      price_cents = price_of t;
      shares = shares_of t;
      max_cost = max_cost;
      affiliate_post_id = some (or_else t.affiliate_id 0);
      expiry = none;
      nonce = order_nonce;
    })
    tell prompt
    auth ← await (
        sign_receive_authorization config world.signed_at world.random wallet (record {
          to = none;
          value = max_cost;
          valid_seconds = none;
          token_name = none;
          token_version = none;
          token_address = none;
          nonce = some order.digest;
        }))
    send_order world t max_cost order.message.expiry order_nonce auth

  unfoldable pub submit : World → Ticket → Action Stage (Unit {0})
  submit world t = do tell (failed none); tell (stage signing); try_catch (place world t) give_up
