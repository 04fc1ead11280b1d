-- ===== src/Format/MoneyLaws.antt =====
-- The digits that are shown are those of the amount in whole cents.
use native.Mathlib.Nat.{add-mul-div_right, div-add-mod, div-lt_iff_lt-mul, mod-lt, one-le-pow}
use thassa.Base.{
  ℕ, zero, suc, ◌+◌, ◌-◌, ◌*◌, ◌/◌, ◌%◌, ◌≤◌, ◌<◌, ◌≡◌, ◌∙◌, refl, sym, ap, ltb, Bool-cases, inl,
  inr, if_cases, if◌then◌else◌, Text, [], ◌∷◌, ◌++◌, some, length, arith,
}
use thassa.Pricing.{unit}
use thassa.Format.Money.{digits, decimal, zeros, pad_start, Units, fmt_units}

-- Digits read after a number.
abbrev pub value_from : ℕ → Text → ℕ
value_from n [] = n
value_from n (c ∷ s) = value_from (n * 10 + (c - 48)) s

value_from-append : (n : ℕ) (s t : Text) → value_from n (s ++ t) ≡ value_from (value_from n s) t
value_from-append n [] t = refl
value_from-append n (c ∷ s) t = value_from-append (n * 10 + (c - 48)) s t

pub value-digits : (fuel n : ℕ) → n ≤ fuel → value_from 0 (digits fuel n) ≡ n
unfolding digits
value-digits zero n l = omega arith
value-digits (suc fuel) n l =
    if_cases (λ s. value_from 0 s ≡ n) (ltb n 10) (λ _. omega arith)
      (λ big.
        value_from-append 0 (digits fuel (n / 10)) ((48 + n % 10) ∷ [])
        ∙ ap (λ k. k * 10 + (48 + n % 10 - 48)) (value-digits fuel (n / 10) (ground arith))
        ∙ omega arith)

digits_one : (fuel n : ℕ) → n < 10 → digits fuel n ≡ (48 + n) ∷ []
unfolding digits
digits_one zero n l = let e : n % 10 ≡ n = omega arith in rw e refl
digits_one (suc fuel) n l =
    if_cases (λ s. s ≡ (48 + n) ∷ []) (ltb n 10) (λ _. refl) (λ h. absurd (ground arith))

digits_two :
    (fuel n : ℕ) → 10 ≤ n → n < 100 → digits (suc fuel) n ≡ (48 + n / 10) ∷ (48 + n % 10) ∷ []
unfolding digits
digits_two fuel n l u =
    if_cases (λ s. s ≡ (48 + n / 10) ∷ (48 + n % 10) ∷ []) (ltb n 10) (λ h. absurd (ground arith))
      (λ _. ap (λ s. s ++ ((48 + n % 10) ∷ [])) (digits_one fuel (n / 10) (omega arith)))

-- Two digits for the cents.
value-pad_start : (n c : ℕ) → c < 100 → value_from n (pad_start 2 (decimal c)) ≡ n * 100 + c
unfolding pad_start
value-pad_start n zero l = rw (digits_one 0 0 (omega arith)) (omega arith)
value-pad_start n (suc c) l = elim (Bool-cases (ltb (suc c) 10)) [
  | inl h ↦ rw (digits_one (suc c) (suc c) (ground arith)) (omega arith)
  | inr h ↦ rw (digits_two c (suc c) (ground arith) l) (omega arith)
]

pub unit_positive : (decimals : ℕ) → 0 < unit decimals
unfolding unit
unit_positive d = omega (arith, one-le-pow d 10 (omega arith))

-- The cents of the fraction and the dollars before it are the amount in cents, rounded down.
whole_cents : (u k : ℕ) → 0 < k → u / k * 100 + u % k * 100 / k ≡ u * 100 / k
whole_cents u k l =
    let split : u * 100 ≡ u % k * 100 + u / k * 100 * k = omega (arith, div-add-mod u k) in
    sym (ap (λ t. t / k) split ∙ add-mul-div_right (u % k * 100) (u / k * 100) l ∙ omega arith)

fraction-lt : (u k : ℕ) → 0 < k → u % k * 100 / k < 100
fraction-lt u k l = (div-lt_iff_lt-mul l).1 (omega (arith, mod-lt u l))

-- Decimal digits, and nothing else.
abbrev pub AreDigits : Text → Type 0
AreDigits [] = Unit {0}
AreDigits (c ∷ s) = (48 ≤ c) × (c ≤ 57) × AreDigits s

AreDigits-append : (s t : Text) → AreDigits s → AreDigits t → AreDigits (s ++ t)
AreDigits-append [] t d e = e
AreDigits-append (c ∷ s) t d e = (d.0, d.1, AreDigits-append s t d.2 e)

digits-AreDigits : (fuel n : ℕ) → AreDigits (digits fuel n)
unfolding digits
digits-AreDigits zero n = (omega arith, omega arith, tt)
digits-AreDigits (suc fuel) n =
    if_cases AreDigits (ltb n 10) (λ small. (omega arith, ground arith, tt))
      (λ _.
        AreDigits-append (digits fuel (n / 10)) ((48 + n % 10) ∷ [])
          (digits-AreDigits fuel (n / 10)) (omega arith, omega arith, tt))

-- The first digit is not a zero.
abbrev Starts : Text → Type 0
Starts [] = ⊥
Starts (c ∷ s) = 49 ≤ c

Starts-append : (s t : Text) → Starts s → Starts (s ++ t)
Starts-append [] t h = absurd h
Starts-append (c ∷ s) t h = h

digits-Starts : (fuel n : ℕ) → 0 < n → n ≤ fuel → Starts (digits fuel n)
unfolding digits
digits-Starts zero n p l = absurd (omega (arith, p, l))
digits-Starts (suc fuel) n p l =
    if_cases Starts (ltb n 10) (λ _. omega (arith, p))
      (λ big.
        Starts-append (digits fuel (n / 10)) ((48 + n % 10) ∷ [])
          (digits-Starts fuel (n / 10) (ground arith) (ground arith)))

-- A zero stands alone, and no other number begins with one.
abbrev pub IsPlain : Text → Type 0
IsPlain [] = ⊥
IsPlain (c ∷ []) = Unit {0}
IsPlain (c ∷ d ∷ s) = 49 ≤ c

Starts-IsPlain : (s : Text) → Starts s → IsPlain s
Starts-IsPlain [] h = h
Starts-IsPlain (c ∷ []) h = tt
Starts-IsPlain (c ∷ d ∷ s) h = h

decimal-IsPlain : (n : ℕ) → IsPlain (decimal n)
decimal-IsPlain zero = rw (digits_one 0 0 (omega arith)) tt
decimal-IsPlain (suc n) =
    Starts-IsPlain (decimal (suc n)) (digits-Starts (suc n) (suc n) (omega arith) (omega arith))

zeros-AreDigits : (n : ℕ) → AreDigits (zeros n)
zeros-AreDigits zero = tt
zeros-AreDigits (suc n) = (omega arith, omega arith, zeros-AreDigits n)

pad_start-AreDigits : (c : ℕ) → AreDigits (pad_start 2 (decimal c))
unfolding pad_start
pad_start-AreDigits c =
    AreDigits-append (zeros (2 - length (decimal c))) (decimal c)
      (zeros-AreDigits (2 - length (decimal c))) (digits-AreDigits c c)

-- What is shown for an amount: the sign, a dollar sign, the dollars in digits without a zero in front
-- but for zero itself, a point and two digits; and all the digits, read as one number, are the amount
-- in cents, rounded towards zero.
pub record IsShown (decimals : ℕ) (units : Units) (shown : Text) : Type 0 where
  pub dollars : Text
  pub cents : Text
  pub form :
      shown ≡ (if units.negative then b'-' ∷ [] else []) ++ (b'$' ∷ dollars) ++ (b'.' ∷ cents)
  pub dollar_digits : AreDigits dollars
  pub plain : IsPlain dollars
  pub cent_digits : AreDigits cents
  pub width : length cents ≡ 2
  pub amount : value_from 0 (dollars ++ cents) ≡ units.magnitude * 100 / unit decimals

length-pad_start : (c : ℕ) → c < 100 → length (pad_start 2 (decimal c)) ≡ 2
unfolding pad_start
length-pad_start zero l = rw (digits_one 0 0 (omega arith)) refl
length-pad_start (suc c) l = elim (Bool-cases (ltb (suc c) 10)) [
  | inl h ↦ rw (digits_one (suc c) (suc c) (ground arith)) refl
  | inr h ↦ rw (digits_two c (suc c) (ground arith) l) refl
]

-- `fmtUnits` shows an amount of any number of decimals to the cent, rounded towards zero: the sign
-- if it is negative, a dollar sign, the dollars in decimal digits with no zero in front unless they
-- are zero, a point and two decimal digits.
pub fmt_units-IsShown :
    (decimals : ℕ) (units : Units) → IsShown decimals units (fmt_units decimals (some units))
unfolding fmt_units
fmt_units-IsShown d units = record {
  dollars = decimal dollars;
  cents = pad_start 2 (decimal cents);
  form = refl;
  dollar_digits = digits-AreDigits dollars dollars;
  plain = decimal-IsPlain dollars;
  cent_digits = pad_start-AreDigits cents;
  width = length-pad_start cents small;
  amount =
      value_from-append 0 (decimal dollars) (pad_start 2 (decimal cents))
      ∙ ap (λ n. value_from n (pad_start 2 (decimal cents)))
          (value-digits dollars dollars (omega arith))
      ∙ value-pad_start dollars cents small
      ∙ whole_cents units.magnitude (unit d) (unit_positive d);
}
  where
    dollars : ℕ
    dollars = units.magnitude / unit d

    cents : ℕ
    cents = units.magnitude % unit d * 100 / unit d

    small : cents < 100
    small = fraction-lt units.magnitude (unit d) (unit_positive d)
