-- ===== src/Pricing/Exchange.antt =====
-- The side of contracts/src/markets/ThassaMarkets.sol that an order's `maxCost` has to satisfy:
-- what fills cost, the bound that is required of a signed order, and the guard that asks for it.
-- `_cent` is the unit over 100, and the fee rate is the contract's initial one.
use thassa.Base.{ℕ, ◌+◌, ◌*◌, ◌/◌, Bool, ltb, ◌||◌, not, List, [], ◌∷◌}
use thassa.Pricing.{unit, taker_fee_units}

pub record Fill : Type 0 where
  pub shares : ℕ
  pub exec_price : ℕ

unfoldable pub cent : ℕ → ℕ
cent decimals = unit decimals / 100

-- Escrow at the execution price, and the fee, rounded up for each fill.
unfoldable pub fill_cost : ℕ → Fill → ℕ
fill_cost decimals f =
    f.shares * f.exec_price * cent decimals + taker_fee_units decimals f.shares f.exec_price

unfoldable pub total_cost : ℕ → List Fill → ℕ
total_cost decimals [] = 0
total_cost decimals (f ∷ fs) = fill_cost decimals f + total_cost decimals fs

unfoldable pub worst_case_cost : ℕ → ℕ → ℕ → ℕ
worst_case_cost decimals price shares =
    price * shares * cent decimals + taker_fee_units decimals shares price + shares

-- The `MAX_COST` guard of `_processSignedOrder`: whether the order passes it.
unfoldable pub passes_max_cost : ℕ → ℕ → ℕ → ℕ → ℕ → Bool
passes_max_cost decimals price shares max_cost auth_value =
    not (ltb max_cost (worst_case_cost decimals price shares) || ltb max_cost auth_value)
