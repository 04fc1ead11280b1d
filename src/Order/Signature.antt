-- ===== src/Order/Signature.antt =====
-- A signature and its parts.
use mathlib.Core.List.{append_assoc}
use thassa.Base.{
  Bool, true, false, ℕ, ◌+◌, ◌-◌, ◌*◌, ◌/◌, ◌%◌, ◌<◌, ◌≡◌, ◌∙◌, refl, sym, ap, ltb, if◌then◌else◌,
  Text, List, [], ◌∷◌, ◌++◌, none, some, length, length-append, take, drop, arith,
}
use thassa.Mention.Token.{slice}
use thassa.Order.Hex.{
  prefix, hex_digit, hex_byte, hex_bytes, digit_of, parse_from, parse_hex, split_signature,
}

pub length-hex_bytes : (bs : List ℕ) → length (hex_bytes bs) ≡ 2 * length bs
unfolding hex_bytes
length-hex_bytes [] = refl
length-hex_bytes (b ∷ bs) = omega (arith, length-hex_bytes bs)

hex_bytes-append : (xs bs : List ℕ) → hex_bytes (xs ++ bs) ≡ hex_bytes xs ++ hex_bytes bs
unfolding hex_bytes
hex_bytes-append [] bs = refl
hex_bytes-append (a ∷ xs) bs =
    ap (λ t. hex_digit (a / 16) ∷ hex_digit (a % 16) ∷ t) (hex_bytes-append xs bs)

drop-append : (s t : Text) → drop (length s) (s ++ t) ≡ t
drop-append [] t = refl
drop-append (c ∷ s) t = drop-append s t

take-append : (s t : Text) → take (length s) (s ++ t) ≡ s
take-append [] t = refl
take-append (c ∷ s) t = ap (◌∷◌ c) (take-append s t)

slice-append :
    (a b c : Text) (from to : ℕ)
    → from ≡ length a
    → to ≡ length a + length b
    → slice from to (a ++ (b ++ c)) ≡ b
slice-append a b c from to e f =
    let g : to - from ≡ length b = omega arith in
    rw (g, e, drop-append a (b ++ c)) (take-append b c)

pub digit_of-hex_digit : (d : ℕ) → d < 16 → digit_of (hex_digit d) ≡ some d
unfolding digit_of hex_digit
digit_of-hex_digit d l = ground arith

parse_hex-cons :
    (c d : ℕ) (s : Text) → digit_of c ≡ some d → parse_hex (c ∷ s) ≡ some (parse_from d s)
unfolding parse_hex
parse_hex-cons c d s h = ap (λ o. elim o [ none ↦ none | some e ↦ some (parse_from e s) ]) h

parse_from-cons :
    (n c d : ℕ) (s : Text) → digit_of c ≡ some d → parse_from n (c ∷ s) ≡ parse_from (n * 16 + d) s
unfolding parse_from
parse_from-cons n c d s h = ap (λ o. elim o [ none ↦ n | some e ↦ parse_from (n * 16 + e) s ]) h

parse_from-nil : (n : ℕ) → parse_from n [] ≡ n
unfolding parse_from
parse_from-nil n = refl

pub parse_hex-hex_byte : (v : ℕ) → v < 256 → parse_hex (hex_byte v) ≡ some v
parse_hex-hex_byte v l =
    parse_hex-cons _ (v / 16) _ (digit_of-hex_digit (v / 16) (omega arith))
    ∙ ap some (
        parse_from-cons (v / 16) _ (v % 16) [] (digit_of-hex_digit (v % 16) (omega arith))
        ∙ parse_from-nil (v / 16 * 16 + v % 16)
        ∙ omega arith)

-- A signature is the bytes of `r`, those of `s` and a recovery id.
abbrev pub signature_of : List ℕ → List ℕ → ℕ → Text
signature_of r s v = prefix ++ (hex_bytes r ++ (hex_bytes s ++ hex_byte v))

-- The parts that are sent are the signature's: `r` and `s` byte for byte, and the recovery id, to which
-- 27 is added when it is below 27.
pub split_signature-signature_of :
    (r s : List ℕ) (v : ℕ)
    → length r ≡ 32
    → length s ≡ 32
    → v < 256
    → split_signature (signature_of r s v) ≡ record {
      v = some (if ltb v 27 then v + 27 else v);
      r = prefix ++ hex_bytes r;
      s = prefix ++ hex_bytes s;
    }
unfolding split_signature
split_signature-signature_of r s v h k l =
    rw (e, f, g, parse_hex-hex_byte v l)
      (ap (λ o. record { v = o; r = prefix ++ hex_bytes r; s = prefix ++ hex_bytes s })
        (either (ltb v 27)))
  where
    either : (b : Bool) → (if b then some (v + 27) else some v) ≡ some (if b then v + 27 else v)
    either true = refl
    either false = refl

    m : length (hex_bytes r) ≡ 64
    m = omega (arith, length-hex_bytes r)

    n : length (hex_bytes s) ≡ 64
    n = omega (arith, length-hex_bytes s)

    e : slice 2 66 (signature_of r s v) ≡ hex_bytes r
    e = slice-append prefix (hex_bytes r) (hex_bytes s ++ hex_byte v) 2 66 refl (omega (arith, m))

    f : slice 66 130 (signature_of r s v) ≡ hex_bytes s
    f =
        ap (slice 66 130) (sym (append_assoc prefix (hex_bytes r) (hex_bytes s ++ hex_byte v)))
        ∙ slice-append (prefix ++ hex_bytes r) (hex_bytes s) (hex_byte v) 66 130 (omega (arith, m))
            (omega (arith, m, n))

    front : Text
    front = prefix ++ (hex_bytes r ++ hex_bytes s)

    whole : length front ≡ 130
    whole = omega (arith, length-append (hex_bytes r) (hex_bytes s), m, n)

    g : slice 130 132 (signature_of r s v) ≡ hex_byte v
    g =
        ap (λ t. slice 130 132 (prefix ++ t))
          (sym (append_assoc (hex_bytes r) (hex_bytes s) (hex_byte v)))
        ∙ slice-append front (hex_byte v) [] 130 132 (omega (arith, whole)) (omega (arith, whole))
