-- ===== src/Pricing/Acceptance.antt =====
-- Whether the contract takes the `maxCost` that the clients compute.
use native.Mathlib.Nat.{mul-le-mul_left, one-le-pow}
use native.Mathlib.Decide.{dec_le}
use thassa.Base.{
  ℕ, ◌+◌, ◌-◌, ◌*◌, ◌/◌, ◌^◌, ◌≤◌, ◌<◌, min, ◌≡◌, ap, true, false, ◌↔◌, lt→ltb, arith,
}
use thassa.Pricing.{unit, taker_fee_units}
use thassa.Pricing.Bounds.{escrow_exact}
use thassa.Pricing.Exchange.{cent, worst_case_cost, passes_max_cost}
use thassa.Pricing.Fills.{web_max_cost_lem, fee_six, unit_six}
use thassa.Pricing.Mobile
use thassa.Pricing.Web

-- The web client's amount falls short of the contract's bound by one unit a share.
pub worst_case_cost-web : (d s p : ℕ) → 2 ≤ d → worst_case_cost d p s ≡ Web.max_cost_units d s p + s
unfolding worst_case_cost
worst_case_cost-web d s p h = omega (arith, web_max_cost_lem d s p h)

-- Whatever is authorised with it, an order for a share or more that carries the web client's
-- `maxCost` fails the contract's `MAX_COST` guard, with two decimals or more.
pub passes_max_cost-web :
    (d s p v : ℕ) → 2 ≤ d → 0 < s → passes_max_cost d p s (Web.max_cost_units d s p) v ≡ false
unfolding passes_max_cost
passes_max_cost-web d s p v two pos = rw (
    lt→ltb (Web.max_cost_units d s p) (worst_case_cost d p s)
      (omega (arith, worst_case_cost-web d s p two)))

past_fifty : (r a : ℕ) → a + r ≡ 50 → 0 < r → (50 + r) * a + 1 ≤ 2500
past_fifty r a h pos = grind arith

-- Past 50 cents the fee at 50 exceeds the fee at the price by a unit a share.
fee_gap :
    (d s p : ℕ) → 6 ≤ d → 50 < p → p ≤ 100 → taker_fee_units d s p + s ≤ taker_fee_units d s 50
unfolding unit
fee_gap d s p six high l = omega (arith, fee_six d s p six, fee_six d s 50 six, scaled, whole)
  where
    whole : s ≤ s * (unit d / 10 ^ 6)
    whole =
        let one : 1 ≤ unit d / 10 ^ 6 =
          omega (arith, unit_six d six, one-le-pow d 10 (omega arith)) in
        omega (arith, mul-le-mul_left s one)

    product : p * (100 - p) + 1 ≤ 2500
    product =
        let f : p ≡ 50 + (p - 50) = omega arith in
        omega (
          arith,
          past_fifty (p - 50) (100 - p) (omega arith) (omega arith),
          ap (λ (t : ℕ). t * (100 - p)) f,
        )

    scaled : 7 * s * (unit d / 10 ^ 6) * (p * (100 - p) + 1) ≤ 7 * s * (unit d / 10 ^ 6) * 2500
    scaled = mul-le-mul_left (7 * s * (unit d / 10 ^ 6)) product

mobile_short :
    (d s p : ℕ) → 2 ≤ d → 0 < s → p ≤ 50 → Mobile.max_cost_units d s p < worst_case_cost d p s
unfolding Mobile.max_cost_units worst_case_cost cent
mobile_short d s p two pos h =
    let e : min p 50 ≡ p = omega arith in rw e (omega (arith, escrow_exact d s p two))

mobile_enough :
    (d s p : ℕ) → 6 ≤ d → 50 < p → p ≤ 100 → worst_case_cost d p s ≤ Mobile.max_cost_units d s p
unfolding Mobile.max_cost_units worst_case_cost cent
mobile_enough d s p six h l =
    let e : min p 50 ≡ 50 = omega arith in
    rw e (omega (arith, escrow_exact d s p (omega arith), fee_gap d s p six h l))

-- With six decimals or more, an order for a share or more that carries the mobile client's `maxCost`
-- and authorises exactly that passes the guard if and only if its price is above 50 cents.
pub passes_max_cost-mobile :
    (d s p : ℕ)
    → 6 ≤ d
    → 0 < s
    → p ≤ 100
    → (passes_max_cost d p s (Mobile.max_cost_units d s p) (Mobile.max_cost_units d s p) ≡ true)
      ↔ (50 < p)
unfolding passes_max_cost
passes_max_cost-mobile d s p six pos l = elim (dec_le p 50) [
  | yes low ↦ let short = mobile_short d s p (omega arith) pos low in ground arith
  | no high ↦ let enough = mobile_enough d s p six (omega arith) l in ground arith
]
