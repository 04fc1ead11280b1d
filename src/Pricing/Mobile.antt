-- ===== src/Pricing/Mobile.antt =====
-- What mobile/lib/signing.ts computes in its own way.
use thassa.Base.{ℕ, ◌+◌, ◌*◌, ◌/◌, min}
use thassa.Pricing.{unit, taker_fee_units, escrow_units}

-- The fee is taken at the price up to the limit where it is highest.
unfoldable pub max_cost_units : ℕ → ℕ → ℕ → ℕ
max_cost_units decimals shares price_cents =
    let worst_fee_price = min price_cents 50 in
    escrow_units decimals shares price_cents + taker_fee_units decimals shares worst_fee_price

-- The nearest unit, halves up.
unfoldable pub dollars_to_units : ℕ → ℕ → ℕ
dollars_to_units decimals cents = (2 * cents * unit decimals + 100) / 200

-- In cents: what is paid, and what the shares pay out.
pub record Payout : Type 0 where
  pub pay : ℕ
  pub win : ℕ

unfoldable pub pay_to_win : ℕ → ℕ → Payout
pay_to_win shares price_cents = record { pay = shares * price_cents; win = shares * 100 }
