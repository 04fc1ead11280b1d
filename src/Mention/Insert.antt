-- ===== src/Mention/Insert.antt =====
-- What `insertMention` writes is a mention for `computeMentions`.
use mathlib.Core.Path.{subst}
use mathlib.Core.List.{Memᴰ, append_assoc}
use thassa.Base.{
  ℕ, zero, suc, ◌≤◌, ◌<◌, ◌≡◌, ◌∙◌, refl, sym, ap, true, false, if_cases, ◌==◌, lower, map, Text,
  List, [], ◌∷◌, ◌++◌, some, All, length, take, drop, arith,
}
use thassa.Mention.{is_word, word_at, at_sign, DraftMention}
use thassa.Mention.Token.{separator, insert_mention}
use thassa.Mention.Scan.{take_word, by_name, compute_mentions}
use thassa.Mention.Matches.{IsMatch, scanned_here}
use thassa.Mention.Computed.{compute_mentions_iff}

take_word-append :
    (u r : Text) → All (λ c. is_word c ≡ true) u → word_at r 0 ≡ false → take_word (u ++ r) ≡ u
unfolding take_word
take_word-append [] [] a h = refl
take_word-append [] (c ∷ r) a h = rw h refl
take_word-append (c ∷ u) r (w, a) h = rw w (ap (◌∷◌ c) (take_word-append u r a h))

-- Behind the inserted name stands no word character, whatever follows.
separator_stops : (after : Text) → word_at (separator after ++ after) 0 ≡ false
separator_stops [] = refl
separator_stops (c ∷ s) =
    if_cases (λ sep. word_at (sep ++ c ∷ s) 0 ≡ false) (c == b' ') (λ h. ground arith) (λ _. refl)

drop-take-append : (n : ℕ) (t r : Text) → n ≤ length t → drop n (take n t ++ r) ≡ r
drop-take-append zero t r l = refl
drop-take-append (suc n) [] r l = absurd (omega arith)
drop-take-append (suc n) (c ∷ t) r l = drop-take-append n t r (omega arith)

insert_mention-IsMatch :
    (t : Text) (start end : ℕ) (username : Text)
    → start ≤ length t
    → 0 < length username
    → All (λ c. is_word c ≡ true) username
    → IsMatch (insert_mention t start end username).text (record { index = start; word = username })
unfolding insert_mention
insert_mention-IsMatch t start end username l u w =
    subst (λ v. IsMatch whole (record { index = start; word = v })) word_run
      (scanned_here whole start here refl (subst (λ (v : Text). 0 < length v) (sym word_run) u))
  where
    rest : Text
    rest = separator (drop end t) ++ drop end t

    whole : Text
    whole = (take start t ++ (at_sign ∷ username) ++ separator (drop end t)) ++ drop end t

    word_run : take_word (username ++ rest) ≡ username
    word_run = take_word-append username rest w (separator_stops (drop end t))

    here : drop start whole ≡ at_sign ∷ (username ++ rest)
    here =
        let before = take start t in
        let name = at_sign ∷ username in
        ap (drop start) (
          append_assoc (before ++ name) (separator (drop end t)) (drop end t)
          ∙ append_assoc before name rest)
        ∙ drop-take-append start t (name ++ rest) l

-- A picked user is sent: when the username is made of word characters and the drafts give it an id,
-- the text with the username inserted at `start`, a place of the old text, has the mention of that
-- user there, whatever stood and stands around it.
pub compute_mentions-insert_mention :
    (t : Text) (start end : ℕ) (username uid : Text) (drafts : List DraftMention)
    → start ≤ length t
    → 0 < length username
    → All (λ c. is_word c ≡ true) username
    → by_name (map lower username) drafts ≡ some uid
    → 0 < length uid
    → Memᴰ
        (record { user_id = uid; start = start; len = suc (length username) })
        (compute_mentions (insert_mention t start end username).text drafts)
compute_mentions-insert_mention t start end username uid drafts l u w k i =
    (compute_mentions_iff (insert_mention t start end username).text drafts
        (record { user_id = uid; start = start; len = suc (length username) })).1
      (
        record { index = start; word = username },
        insert_mention-IsMatch t start end username l u w,
        record { start = refl; len = refl; user = k; id = i },
      )
