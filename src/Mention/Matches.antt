-- ===== src/Mention/Matches.antt =====
-- The matches of the scan are the places that the expression `/@(\w+)/g` means.
use mathlib.Core.Path.{subst}
use mathlib.Core.List.{Memᴰ}
use mathlib.Core.List.Memᴰ
use native.Mathlib.Decide.{ℕ_discrete}
use thassa.Base.{
  ℕ, zero, suc, ◌+◌, ◌-◌, ◌≤◌, ◌<◌, ◌≡◌, ◌∙◌, ◌↔◌, refl, sym, ap, Bool, true, false, Bool-cases,
  inl, inr, if_cases, ◌&&◌, ltb, ◌==◌, Text, List, [], ◌∷◌, none, some, All, length, drop, take,
  arith,
}
use thassa.Mention.{is_word, word_at, at_sign_at, at_sign}
use thassa.Mention.Token.{slice}
use thassa.Mention.Scan.{Match, take_word, scan}
use thassa.Mention.TokenLaws.{not_word}
use thassa.Mention.Words.{
  drop_behind, get_elem?-drop, take_word-All, take-take_word, take_word_stops, take_word_inside,
  take_word_unique,
}

-- A match is at an `@` that is followed by its word, which is not empty, has word characters only
-- and stops at the first place that holds none.
pub record IsMatch (t : Text) (m : Match) : Type 0 where
  pub at : at_sign_at t m.index ≡ true
  pub found : 0 < length m.word
  pub word : slice (suc m.index) (suc m.index + length m.word) t ≡ m.word
  pub words : All (λ c. is_word c ≡ true) m.word
  pub stops : word_at t (suc m.index + length m.word) ≡ false

at_sign_at-drop :
    (i : ℕ) (t : Text) {c : ℕ} {s : Text} → drop i t ≡ c ∷ s → at_sign_at t i ≡ (c == at_sign)
at_sign_at-drop zero [] e = absurd (ground arith)
at_sign_at-drop zero (d ∷ t) e = ground arith
at_sign_at-drop (suc i) [] e = absurd (ground arith)
at_sign_at-drop (suc i) (d ∷ t) e = at_sign_at-drop i t e

word_at-drop : (i k : ℕ) (t : Text) → word_at t (i + k) ≡ word_at (drop i t) k
word_at-drop i k t = ap (λ o. elim o [ none ↦ false | some c ↦ is_word c ]) (get_elem?-drop i k t)

-- The word behind a place of an `@` is the one run there.
word_of : (t : Text) (m : Match) → IsMatch t m → take_word (drop (suc m.index) t) ≡ m.word
word_of t m k =
    take_word_unique (drop (suc m.index) t) m.word
      (let e : suc m.index + length m.word - suc m.index ≡ length m.word = omega arith in
        subst (λ n. take n (drop (suc m.index) t) ≡ m.word) e k.word)
      k.words (subst (λ b. b ≡ false) (word_at-drop (suc m.index) (length m.word) t) k.stops)

pub scanned_here :
    (t : Text) (i : ℕ) {c : ℕ} {s : Text}
    → drop i t ≡ c ∷ s
    → (c == at_sign) ≡ true
    → 0 < length (take_word s)
    → IsMatch t (record { index = i; word = take_word s })
scanned_here t i {c} {s} e a l = record {
  at = at_sign_at-drop i t e ∙ a;
  found = l;
  word = (let r : suc i + n - suc i ≡ n = omega arith in rw (r, behind) (take-take_word s));
  words = take_word-All s;
  stops = word_at-drop (suc i) n t ∙ ap (λ r. word_at r n) behind ∙ take_word_stops s;
}
  where
    behind : drop (suc i) t ≡ s
    behind = drop_behind i t e

    n : ℕ
    n = length (take_word s)

-- From `i` on, where the rest of the text stands.
pub scan-IsMatch : (t : Text) (i k : ℕ) (s : Text) → drop i t ≡ s → All (IsMatch t) (scan i k s)
unfolding scan
scan-IsMatch t i k [] e = tt
scan-IsMatch t i (suc k) (c ∷ s) e = scan-IsMatch t (suc i) k s (drop_behind i t e)
scan-IsMatch t i zero (c ∷ s) e =
    let behind = scan-IsMatch t (suc i) (length (take_word s)) s (drop_behind i t e) in
    let rest = scan-IsMatch t (suc i) zero s (drop_behind i t e) in
    if_cases (All (IsMatch t)) (c == at_sign && ltb 0 (length (take_word s)))
      (λ h. (scanned_here t i e (ground arith) (ground arith), behind)) (λ _. rest)

no_place : (t : Text) (i p : ℕ) → drop i t ≡ [] → i ≤ p → at_sign_at t p ≡ true → ⊥
no_place [] i p e l h = ground arith
no_place (c ∷ t) zero p e l h = ground arith
no_place (c ∷ t) (suc i) zero e l h = elim l [ ]
no_place (c ∷ t) (suc i) (suc p) e l h = no_place t i p e (omega arith) h

-- The next `@` stands behind the run of the one before.
behind_run :
    (t : Text) (i p : ℕ) (s : Text)
    → drop (suc i) t ≡ s
    → at_sign_at t p ≡ true
    → i < p
    → suc i + length (take_word s) ≤ p
behind_run t i p s e a l = elim (Bool-cases (ltb p (suc i + length (take_word s)))) [
  | inr h ↦ ground arith
  | inl h ↦
      let j = p - suc i in
      let q : suc i + j ≡ p = omega arith in
      let inside = take_word_inside s j (ground arith) in
      let w = word_at-drop (suc i) j t ∙ ap (λ r. word_at r j) e ∙ inside in
      absurd (conflict (subst (λ n. word_at t n ≡ true) q w) (not_word t p a))
]
  where
    conflict : {b : Bool} → b ≡ true → b ≡ false → ⊥
    conflict x y = ground arith

-- A match is known by its place.
match_eq :
    (t : Text) (i : ℕ) (s : Text) (m : Match)
    → drop (suc i) t ≡ s
    → IsMatch t m
    → m.index ≡ i
    → m ≡ record { index = i; word = take_word s }
match_eq t i s m e h q = ground (arith, word, q)
  where
    word : m.word ≡ take_word s
    word = sym (word_of t m h) ∙ ap (λ n. take_word (drop (suc n) t)) q ∙ ap take_word e

scan_finds :
    (t : Text) (i k : ℕ) (s : Text) (m : Match)
    → drop i t ≡ s
    → IsMatch t m
    → i + k ≤ m.index
    → Memᴰ m (scan i k s)
unfolding scan
scan_finds t i k [] m e h l = absurd (no_place t i m.index e (omega arith) h.at)
scan_finds t i (suc k) (c ∷ s) m e h l =
    scan_finds t (suc i) k s m (drop_behind i t e) h (omega arith)
scan_finds t i zero (c ∷ s) m e h l = elim (ℕ_discrete m.index i) [
  | yes q ↦
      let behind = drop_behind i t e in
      let same = match_eq t i s m behind h q in
      let sign = sym (at_sign_at-drop i t e) ∙ subst (λ j. at_sign_at t j ≡ true) q h.at in
      let found = subst (λ (x : Match). 0 < length x.word) same h.found in
      if_cases (Memᴰ m) (c == at_sign && ltb 0 (length (take_word s))) (λ _. Memᴰ.head same)
        (λ n. absurd (missed n sign found))
  | no ne ↦
      let behind = drop_behind i t e in
      let later =
        scan_finds t (suc i) (length (take_word s)) s m behind h
          (behind_run t i m.index s behind h.at (omega arith)) in
      let rest = scan_finds t (suc i) zero s m behind h (omega arith) in
      if_cases (Memᴰ m) (c == at_sign && ltb 0 (length (take_word s))) (λ _. Memᴰ.tail later)
        (λ _. rest)
]
  where
    missed :
        (c == at_sign && ltb 0 (length (take_word s))) ≡ false
        → (c == at_sign) ≡ true
        → 0 < length (take_word s)
        → ⊥
    missed n a f = ground arith

Memᴰ-All : {A : Type 0} (P : A → Type 0) (x : A) (xs : List A) → All P xs → Memᴰ x xs → P x
Memᴰ-All P x [] p h = absurd (elim h [ ])
Memᴰ-All P x (y ∷ ys) (p, ps) h = elim (Memᴰ.cases_cons h) [
  | inl e ↦ subst P (sym e) p
  | inr d ↦ Memᴰ-All P x ys ps d
]

-- The scan of a text finds a match if and only if it is one: an `@` and the longest run of word
-- characters behind it, which is not empty.
pub scan_iff : (t : Text) (m : Match) → Memᴰ m (scan 0 0 t) ↔ IsMatch t m
scan_iff t m = (
  Memᴰ-All (IsMatch t) m (scan 0 0 t) (scan-IsMatch t 0 0 t refl),
  λ h. scan_finds t 0 0 t m refl h (omega arith),
)
