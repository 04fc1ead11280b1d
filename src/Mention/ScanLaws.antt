-- ===== src/Mention/ScanLaws.antt =====
-- What the scan finds.
use thassa.Base.{
  ℕ, zero, suc, ◌+◌, ◌≤◌, ◌<◌, ◌≡◌, if_cases, ◌&&◌, ltb, ◌==◌, Text, List, [], ◌∷◌, length, arith,
}
use thassa.Mention.{is_word, at_sign}
use thassa.Mention.Scan.{Match, take_word, scan}

-- The matches are in order from `cursor` on, none over another, within a text of length `n`.
abbrev pub InOrder : ℕ → ℕ → List Match → Type 0
InOrder n cursor [] = Unit
InOrder n cursor (m ∷ ms) =
    (cursor ≤ m.index)
    × (0 < length m.word)
    × (m.index + suc (length m.word) ≤ n)
    × InOrder n (m.index + suc (length m.word)) ms

InOrder-later : (n c d : ℕ) (ms : List Match) → c ≤ d → InOrder n d ms → InOrder n c ms
InOrder-later n c d [] l o = tt
InOrder-later n c d (m ∷ ms) l (a, w, e, r) = (omega arith, w, e, r)

length-take_word : (s : Text) → length (take_word s) ≤ length s
unfolding take_word
length-take_word [] = omega arith
length-take_word (c ∷ s) =
    let rest : suc (length (take_word s)) ≤ suc (length s) = omega (arith, length-take_word s) in
    let nothing : 0 ≤ suc (length s) = omega arith in
    if_cases (λ (w : Text). length w ≤ suc (length s)) (is_word c) (λ _. rest) (λ _. nothing)

pub scan-InOrder :
    (n cursor i k : ℕ) (s : Text)
    → n ≡ i + length s
    → cursor ≡ i + k
    → InOrder n cursor (scan i k s)
unfolding scan
scan-InOrder n cursor i k [] e f = tt
scan-InOrder n cursor i (suc k) (c ∷ s) e f =
    scan-InOrder n cursor (suc i) k s (omega arith) (omega arith)
scan-InOrder n cursor i zero (c ∷ s) e f =
    let w = take_word s in
    let behind =
      scan-InOrder n (i + suc (length w)) (suc i) (length w) s (omega arith) (omega arith) in
    let rest = scan-InOrder n (suc i) (suc i) zero s (omega arith) (omega arith) in
    if_cases (InOrder n cursor) (c == at_sign && ltb 0 (length w))
      (λ h. (omega arith, ground arith, omega (arith, length-take_word s), behind))
      (λ _. InOrder-later n cursor (suc i) (scan (suc i) zero s) (omega arith) rest)
