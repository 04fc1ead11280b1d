-- ===== src/Pricing/Web.antt =====
-- What web/lib/signing.ts computes in its own way.
use thassa.Base.{ℕ, ◌+◌, ◌*◌, ◌/◌}
use thassa.Pricing.{unit, taker_fee_units, escrow_units}

-- The fee is taken at the limit price.
unfoldable pub max_cost_units : ℕ → ℕ → ℕ → ℕ
max_cost_units decimals shares price_cents =
    escrow_units decimals shares price_cents + taker_fee_units decimals shares price_cents

unfoldable pub dollars_to_units : ℕ → ℕ → ℕ
dollars_to_units decimals cents = cents * (unit decimals / 100)
