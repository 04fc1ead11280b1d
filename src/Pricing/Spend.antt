-- ===== src/Pricing/Spend.antt =====
-- What an amount of money buys, and amounts in token units.
use thassa.Base.{ℕ, ◌+◌, ◌*◌, ◌≤◌, ◌<◌, ◌≡◌, ap, arith}
use thassa.Pricing.{unit, shares_for_spend}
use thassa.Pricing.Bounds.{unit_cents}
use thassa.Pricing.Mobile
use thassa.Pricing.Mobile.{pay_to_win}
use thassa.Pricing.Web

-- At a positive price the shares that a spend buys cost no more than the spend, and one more share
-- would cost more than it.
pub shares_for_spend-affordable :
    (spend p : ℕ)
    → 0 < p
    → ((pay_to_win (shares_for_spend spend p) p).pay ≤ spend)
      × (spend < (pay_to_win (shares_for_spend spend p + 1) p).pay)
unfolding shares_for_spend pay_to_win
shares_for_spend-affordable spend p h = ground arith

-- With two decimals or more the two clients turn an amount of whole cents into the same units, a
-- hundredth of the dollar for each cent.
pub dollars_to_units-agree :
    (d c : ℕ)
    → 2 ≤ d
    → (Mobile.dollars_to_units d c ≡ Web.dollars_to_units d c)
      × (100 * Mobile.dollars_to_units d c ≡ c * unit d)
unfolding Mobile.dollars_to_units Web.dollars_to_units
dollars_to_units-agree d c h =
    let e = ap (λ (t : ℕ). c * t) (unit_cents d h) in (omega (arith, e), omega (arith, e))
