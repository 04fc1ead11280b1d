-- ===== src/Pricing/Bounds.antt =====
-- What the amounts of an order bound.
use native.Mathlib.Nat.{le_refl, pow-suc, mul-le-mul_left}
use thassa.Base.{ℕ, zero, suc, ◌+◌, ◌-◌, ◌*◌, ◌/◌, ◌^◌, ◌≤◌, min, ◌≡◌, sym, ap, arith}
use thassa.Pricing.{unit, ceil_div, taker_fee_units, escrow_units}
use mathlib.Core.Path.{subst}
use native.Mathlib.Decide.{dec_le}
use thassa.Pricing.Mobile
use thassa.Pricing.Web

-- With two decimals or more a cent is a whole number of units.
pub unit_cents : (decimals : ℕ) → 2 ≤ decimals → unit decimals ≡ 100 * (unit decimals / 100)
unfolding unit
unit_cents zero h = absurd (omega arith)
unit_cents (suc zero) h = absurd (omega arith)
unit_cents (suc (suc d)) h = simp pow-suc (omega arith)

pub ceil_div-add : (a m : ℕ) → ceil_div (a + m * 10 ^ 8) (10 ^ 8) ≡ ceil_div a (10 ^ 8) + m
unfolding ceil_div
ceil_div-add a m = omega arith

pub ceil_div_mono : (a b : ℕ) → a ≤ b → ceil_div a (10 ^ 8) ≤ ceil_div b (10 ^ 8)
unfolding ceil_div
ceil_div_mono a b h = omega arith

pub ceil_div-sub :
    (a b : ℕ) → ceil_div a (10 ^ 8) + ceil_div b (10 ^ 8) ≤ ceil_div (a + b) (10 ^ 8) + 1
unfolding ceil_div
ceil_div-sub a b = omega arith

pub escrow_exact : (d s p : ℕ) → 2 ≤ d → escrow_units d s p ≡ s * p * (unit d / 100)
unfolding escrow_units
escrow_exact d s p h = omega (arith, ap (λ (t : ℕ). s * p * t) (unit_cents d h))

-- With the price split at the lower one, `p = q + r`, and `a` left to 100.
price_product : (q r a : ℕ) → q + r + a ≡ 100 → q * (a + r) ≤ (q + r) * a + 1000 * r
price_product q r a h = grind arith

-- Lowering the price from `q + r` to `q` saves more escrow than it can add to the fee.
numerator-split :
    (k s q r a : ℕ)
    → q + r + a ≡ 100
    → 700 * s * q * (a + r) * (100 * k) ≤ 700 * s * (q + r) * a * (100 * k) + s * r * k * 10 ^ 8
numerator-split k s q r a h = omega (arith, mul-le-mul_left (s * k) (price_product q r a h))

numerator-le :
    (k s q p : ℕ)
    → q ≤ p
    → p ≤ 100
    → 700 * s * q * (100 - q) * (100 * k)
      ≤ 700 * s * p * (100 - p) * (100 * k) + s * (p - q) * k * 10 ^ 8
numerator-le k s q p h l =
    let e : 100 - q ≡ (100 - p) + (p - q) = omega arith in
    let f : p ≡ q + (p - q) = omega arith in
    rw e (
      subst
        (λ t.
          700 * s * q * (100 - p + (p - q)) * (100 * k)
          ≤ 700 * s * t * (100 - p) * (100 * k) + s * (p - q) * k * 10 ^ 8)
        (sym f) (numerator-split k s q (p - q) (100 - p) (omega arith)))

pub fee-split :
    (u k s q p : ℕ)
    → u ≡ 100 * k
    → q ≤ p
    → p ≤ 100
    → ceil_div (700 * s * q * (100 - q) * u) (10 ^ 8)
      ≤ ceil_div (700 * s * p * (100 - p) * u) (10 ^ 8) + s * (p - q) * k
fee-split u k s q p e h l = rw e (
    subst (λ t. ceil_div (700 * s * q * (100 - q) * (100 * k)) (10 ^ 8) ≤ t)
      (ceil_div-add (700 * s * p * (100 - p) * (100 * k)) (s * (p - q) * k))
      (ceil_div_mono _ _ (numerator-le k s q p h l)))

-- A lower price may raise the fee, but by no more than the escrow that it saves.
pub fee-le :
    (d s q p : ℕ)
    → 2 ≤ d
    → q ≤ p
    → p ≤ 100
    → taker_fee_units d s q ≤ taker_fee_units d s p + s * (p - q) * (unit d / 100)
unfolding taker_fee_units
fee-le d s q p two h l = fee-split (unit d) (unit d / 100) s q p (unit_cents d two) h l

-- What a client authorises at the limit price `p` pays for execution at any price `q` up to it,
-- fee included.
pub web-max_cost-covers :
    (d s q p : ℕ)
    → 2 ≤ d
    → q ≤ p
    → p ≤ 100
    → escrow_units d s q + taker_fee_units d s q ≤ Web.max_cost_units d s p
unfolding Web.max_cost_units
web-max_cost-covers d s q p two h l =
    let saved : s * q * (unit d / 100) + s * (p - q) * (unit d / 100) ≡ s * p * (unit d / 100) =
      let e : p ≡ q + (p - q) = omega arith in
      omega (arith, ap (λ (t : ℕ). s * t * (unit d / 100)) e) in
    omega (arith, escrow_exact d s q two, escrow_exact d s p two, fee-le d s q p two h l, saved)

above_fifty : (r a : ℕ) → a + r ≡ 50 → (50 + r) * a ≤ 2500
above_fifty r a h = grind arith

-- The product of a price and its complement is highest at 50.
peak_product : (p : ℕ) → p ≤ 100 → p * (100 - p) ≤ min p 50 * (100 - min p 50)
peak_product p h = elim (dec_le p 50) [
  | yes low ↦ let e : min p 50 ≡ p = omega arith in rw e (le_refl _)
  | no high ↦
      let e : min p 50 ≡ 50 = omega arith in
      let f : p ≡ 50 + (p - 50) = omega arith in
      let at_p = above_fifty (p - 50) (100 - p) (omega arith) in
      rw e (omega (arith, at_p, ap (λ (t : ℕ). t * (100 - p)) f))
]

pub fee_peak : (d s p : ℕ) → p ≤ 100 → taker_fee_units d s p ≤ taker_fee_units d s (min p 50)
unfolding taker_fee_units
fee_peak d s p h =
    ceil_div_mono _ _ (omega (arith, mul-le-mul_left (700 * s * unit d) (peak_product p h)))

-- The mobile client authorises at least as much as the web client.
pub max_cost-web-le-mobile :
    (d s p : ℕ) → p ≤ 100 → Web.max_cost_units d s p ≤ Mobile.max_cost_units d s p
unfolding Web.max_cost_units Mobile.max_cost_units
max_cost-web-le-mobile d s p h = omega (arith, fee_peak d s p h)
