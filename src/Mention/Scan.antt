-- ===== src/Mention/Scan.antt =====
-- The scan for `@word` tokens, and the mentions that the two clients make of them.
use thassa.Base.{
  ℕ, zero, suc, ◌-◌, ◌&&◌, ltb, ◌==◌, if◌then◌else◌, lower, map, Text, text_eq, List, [], ◌∷◌,
  Option, none, some, length,
}
use thassa.Mention.{is_word, word_at, at_sign, DraftMention, MentionInput}

-- A match of `/@(\w+)/g`: the index of the `@` and the captured word.
pub record Match : Type 0 where
  pub index : ℕ
  pub word : Text

-- The longest run of word characters.
unfoldable pub take_word : Text → Text
take_word [] = []
take_word (c ∷ s) = if is_word c then c ∷ take_word s else []

-- The matches in a text that starts at `i`, of which `k` characters belong to the match before:
-- the next search starts behind it.
unfoldable pub scan : ℕ → ℕ → Text → List Match
scan i k [] = []
scan i (suc k) (c ∷ s) = scan (suc i) k s
scan i zero (c ∷ s) =
    let word = take_word s in
    let rest = scan (suc i) zero s in
    let behind = scan (suc i) (length word) s in
    if c == at_sign && ltb 0 (length word) then record { index = i; word = word } ∷ behind else rest

-- `byName.get(name)` after a `set` for each draft: the last draft of that name.
unfoldable pub by_name : Text → List DraftMention → Option Text
by_name name [] = none
by_name name (d ∷ ds) = elim (by_name name ds) [
  | some uid ↦ some uid
  | none ↦ if text_eq (map lower d.username) name then some d.user_id else none
]

-- An id that is empty counts as none.
unfoldable pub emit : Match → Option Text → List MentionInput → List MentionInput
emit m none rest = rest
emit m (some []) rest = rest
emit m (some (c ∷ uid)) rest =
    record { user_id = c ∷ uid; start = m.index; len = suc (length m.word) } ∷ rest

unfoldable pub mentions_of : List DraftMention → List Match → List MentionInput
mentions_of drafts [] = []
mentions_of drafts (m ∷ ms) = emit m (by_name (map lower m.word) drafts) (mentions_of drafts ms)

unfoldable pub compute_mentions : Text → List DraftMention → List MentionInput
compute_mentions text [] = []
compute_mentions text (d ∷ ds) = mentions_of (d ∷ ds) (scan 0 0 text)

-- The web client: exact names, and no mention where a word character stands before the `@`.
unfoldable pub recorded_id : Text → List (Text × Text) → Option Text
recorded_id name [] = none
recorded_id name ((n, uid) ∷ r) = if text_eq n name then some uid else recorded_id name r

unfoldable pub derive_matches : Text → List (Text × Text) → List Match → List MentionInput
derive_matches caption recorded [] = []
derive_matches caption recorded (m ∷ ms) =
    let rest = derive_matches caption recorded ms in
    if ltb 0 m.index && word_at caption (m.index - 1)
    then rest
    else emit m (recorded_id m.word recorded) rest

unfoldable pub derive_mentions : Text → List (Text × Text) → List MentionInput
derive_mentions caption recorded = derive_matches caption recorded (scan 0 0 caption)
