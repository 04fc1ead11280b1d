-- ===== src/Format/Money.antt =====
-- Token units as dollars and cents, `fmtUnits`. A number that is not there, or text that is none, is
-- shown as nothing; a bigint is its sign and its magnitude. `10n ** decimals` is the unit.
use thassa.Base.{
  ℕ, zero, suc, ◌+◌, ◌-◌, ◌*◌, ◌/◌, ◌%◌, ltb, Bool, if◌then◌else◌, Text, codes, [], ◌∷◌, ◌++◌,
  Option, none, some, length,
}
use thassa.Pricing.{unit}

-- `toString` on a number, with one digit for each unit of fuel and one more.
unfoldable pub digits : ℕ → ℕ → Text
digits zero n = (48 + n % 10) ∷ []
digits (suc fuel) n =
    let front = digits fuel (n / 10) in
    if ltb n 10 then (48 + n) ∷ [] else front ++ ((48 + n % 10) ∷ [])

-- A number is at least its number of digits.
abbrev pub decimal : ℕ → Text
decimal n = digits n n

abbrev pub zeros : ℕ → Text
zeros zero = []
zeros (suc n) = b'0' ∷ zeros n

-- `padStart(width, "0")`.
unfoldable pub pad_start : ℕ → Text → Text
pad_start width t = zeros (width - length t) ++ t

-- A bigint: whether it is below zero, and its magnitude.
pub record Units : Type 0 where
  pub negative : Bool
  pub magnitude : ℕ

unfoldable pub fmt_units : ℕ → Option Units → Text
fmt_units decimals none = codes "$0.00"
fmt_units decimals (some units) =
    let u = units.magnitude in
    let dollars = u / unit decimals in
    let cents = u % unit decimals * 100 / unit decimals in
    (if units.negative then b'-' ∷ [] else [])
    ++ (b'$' ∷ decimal dollars)
    ++ (b'.' ∷ pad_start 2 (decimal cents))
