-- ===== src/Pricing.antt =====
-- The fee and escrow arithmetic of mobile/lib/signing.ts and web/lib/signing.ts, and the bound that
-- contracts/src/markets/ThassaMarkets.sol asks of a signed order.
--
-- Token amounts are bigints in the source and numbers here. A price is a count of cents from 0 to
-- 100, so that `100 - p` is the source's. Amounts in dollars are floats in the source; they are
-- whole counts of cents here, as the screens produce them.
pub mod Mobile
pub mod Web
pub mod Exchange
pub mod Bounds
pub mod Fills
pub mod Acceptance
pub mod Spend
use thassa.Base.{ℕ, ◌+◌, ◌-◌, ◌*◌, ◌/◌, ◌^◌, Bool, leb, if◌then◌else◌}

-- One dollar in token units.
unfoldable pub unit : ℕ → ℕ
unit decimals = 10 ^ decimals

unfoldable pub ceil_div : ℕ → ℕ → ℕ
ceil_div a b = (a + b - 1) / b

abbrev pub taker_fee_bps : ℕ
taker_fee_bps = 700

unfoldable pub taker_fee_units : ℕ → ℕ → ℕ → ℕ
taker_fee_units decimals shares price_cents =
    ceil_div (taker_fee_bps * shares * price_cents * (100 - price_cents) * unit decimals) (10 ^ 8)

unfoldable pub escrow_units : ℕ → ℕ → ℕ → ℕ
escrow_units decimals shares price_cents = (shares * price_cents * unit decimals) / 100

-- Whole shares that `spend_cents` buys: `Math.floor((dollars * 100) / priceCents)`.
unfoldable pub shares_for_spend : ℕ → ℕ → ℕ
shares_for_spend spend_cents price_cents =
    if leb price_cents 0 then 0 else spend_cents / price_cents
