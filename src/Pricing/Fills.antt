-- ===== src/Pricing/Fills.antt =====
-- What an order's fills cost together, against the bounds that its limit price gives.
use native.Mathlib.Nat.{pow-suc, mul-le-mul_right}
use thassa.Base.{
  ℕ, suc, ◌+◌, ◌-◌, ◌*◌, ◌/◌, ◌^◌, ◌≤◌, ◌<◌, ◌≡◌, ap, List, [], ◌∷◌, length, All, arith,
}
use thassa.Pricing.{unit, ceil_div, taker_fee_units}
use thassa.Pricing.Bounds.{
  ceil_div_mono, ceil_div-sub, escrow_exact, fee-le, max_cost-web-le-mobile,
}
use thassa.Pricing.Exchange.{Fill, cent, fill_cost, total_cost, worst_case_cost}
use thassa.Pricing.Mobile
use thassa.Pricing.Web

pub unit_six : (d : ℕ) → 6 ≤ d → unit d ≡ 10 ^ 6 * (unit d / 10 ^ 6)
unfolding unit
unit_six (suc (suc (suc (suc (suc (suc d)))))) h = simp pow-suc (omega arith)
unit_six _ h = absurd (omega arith)

pub web_max_cost_lem :
    (d s p : ℕ) → 2 ≤ d → Web.max_cost_units d s p ≡ s * p * cent d + taker_fee_units d s p
unfolding Web.max_cost_units cent
web_max_cost_lem d s p h = rw (escrow_exact d s p h)

abbrev pub total_shares : List Fill → ℕ
total_shares [] = 0
total_shares (f ∷ fs) = f.shares + total_shares fs

-- Every fill takes a share or more, at the limit price or better.
abbrev pub WithinLimit : ℕ → List Fill → Type 0
WithinLimit p = All (λ f. (0 < f.shares) × (f.exec_price ≤ p))

length-le-total_shares : (p : ℕ) (fs : List Fill) → WithinLimit p fs → length fs ≤ total_shares fs
length-le-total_shares p [] h = omega arith
length-le-total_shares p (f ∷ fs) h = omega (arith, length-le-total_shares p fs h.1)

fill_cost-le :
    (d p : ℕ) (f : Fill)
    → 2 ≤ d
    → p ≤ 100
    → f.exec_price ≤ p
    → fill_cost d f ≤ f.shares * p * cent d + taker_fee_units d f.shares p
unfolding fill_cost cent
fill_cost-le d p f two l h =
    let e : p ≡ f.exec_price + (p - f.exec_price) = omega arith in
    omega (
      arith,
      fee-le d f.shares f.exec_price p two h l,
      ap (λ (t : ℕ). f.shares * t * (unit d / 100)) e,
    )

fee-add :
    (d s t p : ℕ) → taker_fee_units d s p + taker_fee_units d t p ≤ taker_fee_units d (s + t) p + 1
unfolding taker_fee_units
fee-add d s t p = omega (
  arith,
  ceil_div-sub (700 * s * p * (100 - p) * unit d) (700 * t * p * (100 - p) * unit d),
  ap (λ (x : ℕ). ceil_div x (10 ^ 8)) (split s t),
)
  where
    split :
        (s t : ℕ)
        → 700 * s * p * (100 - p) * unit d + 700 * t * p * (100 - p) * unit d
          ≡ 700 * (s + t) * p * (100 - p) * unit d
    split s t = omega arith

fee_mono : (d s t p : ℕ) → s ≤ t → taker_fee_units d s p ≤ taker_fee_units d t p
unfolding taker_fee_units
fee_mono d s t p h =
    ceil_div_mono _ _ (omega (arith, mul-le-mul_right (700 * p * (100 - p) * unit d) h))

total_cost-le :
    (d p : ℕ) (fs : List Fill)
    → 2 ≤ d
    → p ≤ 100
    → WithinLimit p fs
    → total_cost d fs
      ≤ total_shares fs * p * cent d + taker_fee_units d (total_shares fs) p + length fs
unfolding total_cost
total_cost-le d p [] two l h = omega arith
total_cost-le d p (f ∷ fs) two l h = omega (
  arith,
  total_cost-le d p fs two l h.1,
  fill_cost-le d p f two l h.0.1,
  fee-add d f.shares (total_shares fs) p,
)

-- With two decimals or more, fills of an order for `s` shares at the limit `p`, each of a share or more
-- at the limit or better and together of `s` shares at most, cost no more than the contract's bound,
-- each fill's fee rounded up.
pub total_cost-le-worst_case_cost :
    (d p s : ℕ) (fs : List Fill)
    → 2 ≤ d
    → p ≤ 100
    → WithinLimit p fs
    → total_shares fs ≤ s
    → total_cost d fs ≤ worst_case_cost d p s
unfolding worst_case_cost
total_cost-le-worst_case_cost d p s fs two l h k = omega (
  arith,
  total_cost-le d p fs two l h,
  fee_mono d (total_shares fs) s p k,
  length-le-total_shares p fs h,
  mul-le-mul_right (p * cent d) k,
)

-- From six decimals on the fee is a whole number of units.
pub fee_six :
    (d s p : ℕ) → 6 ≤ d → taker_fee_units d s p ≡ 7 * s * p * (100 - p) * (unit d / 10 ^ 6)
unfolding taker_fee_units ceil_div
fee_six d s p h = omega (arith, ap (λ (t : ℕ). s * p * (100 - p) * t) (unit_six d h))

total_cost_six-le :
    (d p : ℕ) (fs : List Fill)
    → 6 ≤ d
    → p ≤ 100
    → WithinLimit p fs
    → total_cost d fs ≤ total_shares fs * p * cent d + taker_fee_units d (total_shares fs) p
unfolding total_cost
total_cost_six-le d p [] six l h = omega arith
total_cost_six-le d p (f ∷ fs) six l h = omega (
  arith,
  total_cost_six-le d p fs six l h.1,
  fill_cost-le d p f (omega arith) l h.0.1,
  fee_six d f.shares p six,
  fee_six d (total_shares fs) p six,
  fee_six d (f.shares + total_shares fs) p six,
)

-- With six decimals or more, fills within the limit and the shares of an order cost no more than what
-- either client authorises for it, each fill's fee rounded up.
pub total_cost-le-max_cost :
    (d p s : ℕ) (fs : List Fill)
    → 6 ≤ d
    → p ≤ 100
    → WithinLimit p fs
    → total_shares fs ≤ s
    → (total_cost d fs ≤ Web.max_cost_units d s p) × (total_cost d fs ≤ Mobile.max_cost_units d s p)
total_cost-le-max_cost d p s fs six l h k =
    (web, omega (arith, web, max_cost-web-le-mobile d s p l))
  where
    web : total_cost d fs ≤ Web.max_cost_units d s p
    web = omega (
      arith,
      total_cost_six-le d p fs six l h,
      fee_mono d (total_shares fs) s p k,
      mul-le-mul_right (p * cent d) k,
      web_max_cost_lem d s p (omega arith),
    )
