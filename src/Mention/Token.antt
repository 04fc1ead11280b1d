-- ===== src/Mention/Token.antt =====
-- The `@word` left of the caret, and the insertion of a username in its place.
use thassa.Base.{
  ℕ, zero, suc, ◌-◌, ◌&&◌, ltb, ◌==◌, if◌then◌else◌, Text, [], ◌∷◌, ◌++◌, Option, none, some,
  length, take, drop,
}
use thassa.Mention.{word_at, at_sign_at, at_sign}

pub record Token : Type 0 where
  pub query : Text
  pub start : ℕ
  pub end : ℕ

-- `text.slice(from, to)` with both in range.
abbrev pub slice : ℕ → ℕ → Text → Text
slice from to t = take (to - from) (drop from t)

-- The walk to the left: one past the last index below the caret that holds no word character.
unfoldable pub word_start : Text → ℕ → ℕ
word_start t zero = zero
word_start t (suc i) = let rest = word_start t i in if word_at t i then rest else suc i

-- The checks at the `@`, with `s` one past it: `i` of the source is `s - 1`.
unfoldable pub token_at : Text → ℕ → ℕ → Option Token
token_at t caret zero = none
token_at t caret (suc i) =
    if at_sign_at t i
    then if ltb 0 i && word_at t (i - 1)
      then none
      else some (record { query = slice (suc i) caret t; start = i; end = caret })
    else none

unfoldable pub active_mention_token : Text → ℕ → Option Token
active_mention_token t caret =
    if ltb (length t) caret then none else token_at t caret (word_start t caret)

pub record Inserted : Type 0 where
  pub text : Text
  pub caret : ℕ

-- A space, unless the rest is empty or starts with one.
abbrev pub separator : Text → Text
separator [] = []
separator (c ∷ s) = if c == b' ' then [] else b' ' ∷ []

unfoldable pub insert_mention : Text → ℕ → ℕ → Text → Inserted
insert_mention t start end username =
    let before = take start t in
    let after = drop end t in
    let head = before ++ (at_sign ∷ username) ++ separator after in
    record { text = head ++ after; caret = length head }
