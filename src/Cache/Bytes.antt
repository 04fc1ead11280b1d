-- ===== src/Cache/Bytes.antt =====
-- `utf8Bytes` against the encodings that it estimates, over Unicode scalar values.
use thassa.Base.{
  ℕ, ◌+◌, ◌-◌, ◌/◌, ◌%◌, ◌≤◌, ◌<◌, ◌≡◌, refl, ◌⊎◌, false, ◌&&◌, ltb, leb, if◌then◌else◌, if_cases,
  ltb→lt, Text, List, [], ◌∷◌, ◌++◌, All, arith,
}
use thassa.Cache.{utf8_bytes}

-- The code units of a scalar value: one, or a surrogate pair past 0xffff.
unfoldable pub utf16 : ℕ → Text
utf16 v =
    if ltb v 0x10000
    then v ∷ []
    else (0xd800 + (v - 0x10000) / 0x400) ∷ (0xdc00 + (v - 0x10000) % 0x400) ∷ []

unfoldable pub utf16_all : List ℕ → Text
utf16_all [] = []
utf16_all (v ∷ vs) = utf16 v ++ utf16_all vs

-- The bytes of a scalar value in UTF-8.
pub utf8_length : ℕ → ℕ
utf8_length v = if ltb v 0x80 then 1 else if ltb v 0x800 then 2 else if ltb v 0x10000 then 3 else 4

pub utf8_length_all : List ℕ → ℕ
utf8_length_all [] = 0
utf8_length_all (v ∷ vs) = utf8_length v + utf8_length_all vs

-- A code point that is no surrogate.
abbrev pub IsScalar : ℕ → Type 0
IsScalar v = (v < 0xd800) ⊎ ((0xe000 ≤ v) × (v < 0x110000))

choice :
    (v n p : ℕ)
    → IsScalar v
    → v < 0x10000
    → (if ltb v 0x80
        then 1 + n
        else if ltb v 0x800
        then 2 + n
        else if leb 0xd800 v && leb v 0xdbff
        then 4 + p
        else 3 + n)
      ≡ utf8_length v + n
unfolding utf8_length
choice v n p h l = ground arith

one_unit :
    (v : ℕ) (s : Text)
    → IsScalar v
    → v < 0x10000
    → utf8_bytes (v ∷ s) ≡ utf8_length v + utf8_bytes s
unfolding utf8_bytes
one_unit v [] h l = choice v 0 0 h l
one_unit v (d ∷ s) h l = choice v (utf8_bytes (d ∷ s)) (utf8_bytes s) h l

pair : (c d : ℕ) (s : Text) → 0xd800 ≤ c → c ≤ 0xdbff → utf8_bytes (c ∷ d ∷ s) ≡ 4 + utf8_bytes s
unfolding utf8_bytes
pair c d s h l = ground arith

pair_length : (v : ℕ) → ltb v 0x10000 ≡ false → utf8_length v ≡ 4
unfolding utf8_length
pair_length v h = ground arith

-- Of the UTF-16 text of any sequence of scalar values `utf8Bytes` is the length in UTF-8.
pub utf8_bytes-utf16 :
    (vs : List ℕ) → All IsScalar vs → utf8_bytes (utf16_all vs) ≡ utf8_length_all vs
unfolding utf16_all utf8_length_all utf16 utf8_bytes
utf8_bytes-utf16 [] h = refl
utf8_bytes-utf16 (v ∷ vs) h =
    if_cases (λ (t : Text). utf8_bytes (t ++ utf16_all vs) ≡ utf8_length v + utf8_length_all vs)
      (ltb v 0x10000)
      (λ low.
        omega
          (arith, one_unit v (utf16_all vs) h.0 (ltb→lt v 0x10000 low), utf8_bytes-utf16 vs h.1))
      (λ high. omega (
        arith,
        pair_length v high,
        pair (0xd800 + (v - 0x10000) / 0x400) (0xdc00 + (v - 0x10000) % 0x400) (utf16_all vs)
            (omega arith) (ground arith),
        utf8_bytes-utf16 vs h.1,
      ))
