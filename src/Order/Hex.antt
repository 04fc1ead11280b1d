-- ===== src/Order/Hex.antt =====
-- Bytes as hex digits, and a signature of 65 bytes as its parts.
use thassa.Base.{
  ℕ, ◌+◌, ◌-◌, ◌*◌, ◌/◌, ◌%◌, ltb, leb, ◌&&◌, if◌then◌else◌, Text, codes, List, [], ◌∷◌, ◌++◌,
  Option, none, some,
}
use thassa.Mention.Token.{slice}

abbrev pub prefix : Text
prefix = codes "0x"

-- `b.toString(16).padStart(2, "0")` on a byte.
unfoldable pub hex_digit : ℕ → ℕ
hex_digit d = if ltb d 10 then d + 48 else d + 87

abbrev pub hex_byte : ℕ → Text
hex_byte b = hex_digit (b / 16) ∷ hex_digit (b % 16) ∷ []

unfoldable pub hex_bytes : List ℕ → Text
hex_bytes [] = []
hex_bytes (b ∷ bs) = hex_byte b ++ hex_bytes bs

-- `randomBytes32` and `randomAuthNonce`, with the bytes that are drawn.
unfoldable pub random_bytes : List ℕ → Text
random_bytes bytes = prefix ++ hex_bytes bytes

unfoldable pub digit_of : ℕ → Option ℕ
digit_of c =
    if leb 48 c && leb c 57
    then some (c - 48)
    else if leb 97 c && leb c 102
    then some (c - 87)
    else if leb 65 c && leb c 70
    then some (c - 55)
    else none

-- The digits from the front, up to the first that is none.
unfoldable pub parse_from : ℕ → Text → ℕ
parse_from n [] = n
parse_from n (c ∷ s) = elim (digit_of c) [ none ↦ n | some d ↦ parse_from (n * 16 + d) s ]

-- `parseInt(text, 16)`, `none` for NaN. A signature has digits only, no sign, space or prefix.
unfoldable pub parse_hex : Text → Option ℕ
parse_hex [] = none
parse_hex (c ∷ s) = elim (digit_of c) [ none ↦ none | some d ↦ some (parse_from d s) ]

pub record Parts : Type 0 where
  pub v : Option ℕ
  pub r : Text
  pub s : Text

-- `if (v < 27) v += 27`, which is false on NaN.
abbrev pub recovery_id : Option ℕ → Option ℕ
recovery_id none = none
recovery_id (some v) = if ltb v 27 then some (v + 27) else some v

unfoldable pub split_signature : Text → Parts
split_signature signature = record {
  v = recovery_id (parse_hex (slice 130 132 signature));
  r = prefix ++ slice 2 66 signature;
  s = prefix ++ slice 66 130 signature;
}
