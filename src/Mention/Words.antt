-- ===== src/Mention/Words.antt =====
-- Positions in a text, and the run of word characters at one.
use mathlib.Core.Path.{subst}
use thassa.Base.{
  ℕ, zero, suc, ◌+◌, ◌<◌, ◌≡◌, ◌∙◌, refl, sym, ap, true, false, if_cases, Text, [], ◌∷◌, All,
  get_elem?, length, drop, take, arith,
}
use thassa.Mention.{is_word, word_at}
use thassa.Mention.Scan.{take_word}

pub drop_behind : (i : ℕ) (t : Text) {c : ℕ} {s : Text} → drop i t ≡ c ∷ s → drop (suc i) t ≡ s
drop_behind zero [] e = absurd (ground arith)
drop_behind zero (d ∷ t) e = ground arith
drop_behind (suc i) [] e = absurd (ground arith)
drop_behind (suc i) (d ∷ t) e = drop_behind i t e

pub get_elem?-drop : (i k : ℕ) (t : Text) → get_elem? t (i + k) ≡ get_elem? (drop i t) k
get_elem?-drop zero k t = let e : 0 + k ≡ k = omega arith in rw e refl
get_elem?-drop (suc i) k [] = refl
get_elem?-drop (suc i) k (c ∷ t) =
    let e : suc i + k ≡ suc (i + k) = omega arith in rw e (get_elem?-drop i k t)

pub take_word-All : (s : Text) → All (λ c. is_word c ≡ true) (take_word s)
unfolding take_word
take_word-All [] = tt
take_word-All (c ∷ s) =
    if_cases (All (λ d. is_word d ≡ true)) (is_word c) (λ h. (h, take_word-All s)) (λ _. tt)

pub take-take_word : (s : Text) → take (length (take_word s)) s ≡ take_word s
unfolding take_word
take-take_word [] = refl
take-take_word (c ∷ s) =
    if_cases (λ (w : Text). take (length w) (c ∷ s) ≡ w) (is_word c)
      (λ _. ap (◌∷◌ c) (take-take_word s)) (λ _. refl)

pub take_word_stops : (s : Text) → word_at s (length (take_word s)) ≡ false
unfolding take_word
take_word_stops [] = refl
take_word_stops (c ∷ s) =
    if_cases (λ (w : Text). word_at (c ∷ s) (length w) ≡ false) (is_word c) (λ _. take_word_stops s)
      (λ h. h)

pub take_word_inside : (s : Text) (j : ℕ) → j < length (take_word s) → word_at s j ≡ true
unfolding take_word
take_word_inside [] j l = absurd (omega arith)
take_word_inside (c ∷ s) zero l =
    if_cases (λ (w : Text). 0 < length w → is_word c ≡ true) (is_word c) (λ h _. h)
      (λ _ e. absurd (omega (arith, e))) l
take_word_inside (c ∷ s) (suc j) l =
    if_cases (λ (w : Text). suc j < length w → word_at s j ≡ true) (is_word c)
      (λ _ e. take_word_inside s j (omega (arith, e))) (λ _ e. absurd (omega (arith, e))) l

-- The run is the only one.
pub take_word_unique :
    (s w : Text)
    → take (length w) s ≡ w
    → All (λ c. is_word c ≡ true) w
    → word_at s (length w) ≡ false
    → take_word s ≡ w
unfolding take_word
take_word_unique [] [] e a h = refl
take_word_unique [] (d ∷ w) e a h = e
take_word_unique (c ∷ s) [] e a h = rw h refl
take_word_unique (c ∷ s) (d ∷ w) e (a, r) h =
    let (first, behind) = parts e in
    rw (subst (λ x. is_word x ≡ true) (sym first) a)
      (ap (◌∷◌ c) (take_word_unique s w behind r h) ∙ ap (λ x. x ∷ w) first)
  where
    parts : c ∷ take (length w) s ≡ d ∷ w → (c ≡ d) × (take (length w) s ≡ w)
    parts e = ground arith
