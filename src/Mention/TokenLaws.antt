-- ===== src/Mention/TokenLaws.antt =====
-- What `activeMentionToken` finds.
use mathlib.Core.Path.{subst}
use native.Mathlib.Decide.{ℕ_discrete}
use thassa.Base.{
  ℕ, zero, suc, ◌-◌, ◌≤◌, ◌<◌, ◌≡◌, ◌↔◌, refl, sym, true, false, Bool-cases, if_cases, inl, inr,
  ◌&&◌, ltb, if◌then◌else◌, Text, some, length, arith,
}
use thassa.Mention.{word_at, at_sign_at}
use thassa.Mention.Token.{Token, slice, word_start, token_at, active_mention_token}

-- An `@` at `start`, with nothing but word characters from there to the caret and none before it.
pub record IsToken (t : Text) (caret start : ℕ) : Type 0 where
  pub before : start < caret
  pub inside : caret ≤ length t
  pub at : at_sign_at t start ≡ true
  pub words : (i : ℕ) → start < i → i < caret → word_at t i ≡ true
  pub bounded : (j : ℕ) → start ≡ suc j → word_at t j ≡ false

word_start-le : (t : Text) (k : ℕ) → word_start t k ≤ k
unfolding word_start
word_start-le t zero = omega arith
word_start-le t (suc k) = ground (arith, word_start-le t k)

word_start_words : (t : Text) (k i : ℕ) → word_start t k ≤ i → i < k → word_at t i ≡ true
unfolding word_start
word_start_words t zero i h l = elim l [ ]
word_start_words t (suc k) i h l = elim (Bool-cases (word_at t k)) [
  | inl w ↦ elim (ℕ_discrete i k) [
    | yes e ↦ subst (λ j. word_at t j ≡ true) (sym e) w
    | no ne ↦
        word_start_words t k i (subst (λ b. (if b then word_start t k else suc k) ≤ i) w h)
          (omega arith)
  ]
  | inr n ↦ absurd (later (subst (λ b. (if b then word_start t k else suc k) ≤ i) n h))
]
  where
    later : suc k ≤ i → ⊥
    later g = omega arith

-- The walk stops right behind the one place that is no word character.
word_start_eq :
    (t : Text) (start k : ℕ)
    → start < k
    → word_at t start ≡ false
    → ((i : ℕ) → start < i → i < k → word_at t i ≡ true)
    → word_start t k ≡ suc start
unfolding word_start
word_start_eq t start zero l n w = elim l [ ]
word_start_eq t start (suc k) l n w = elim (ℕ_discrete start k) [
  | yes e ↦ rw (← e, n) refl
  | no ne ↦
      rw (w k (omega arith) (omega arith))
        (word_start_eq t start k (omega arith) n (λ i a b. w i a (omega arith)))
]

pub not_word : (t : Text) (i : ℕ) → at_sign_at t i ≡ true → word_at t i ≡ false
not_word t i h = ground arith

abbrev Found : Text → ℕ → ℕ → Token → Type 0
Found t caret s tok =
    (s ≡ suc tok.start)
    × (at_sign_at t tok.start ≡ true)
    × ((ltb 0 tok.start && word_at t (tok.start - 1)) ≡ false)
    × (tok.end ≡ caret)
    × (tok.query ≡ slice (suc tok.start) caret t)

token_at_inv :
    (t : Text) (caret s : ℕ) (tok : Token) → token_at t caret s ≡ some tok → Found t caret s tok
unfolding token_at
token_at_inv t caret zero tok h = absurd (ground arith)
token_at_inv t caret (suc i) tok h = elim (Bool-cases (at_sign_at t i)) [
  | inr n ↦ absurd (ground arith)
  | inl a ↦ elim (Bool-cases (ltb 0 i && word_at t (i - 1))) [
    | inl b ↦ absurd (ground arith)
    | inr b ↦ subst (Found t caret (suc i)) (taken a b) (refl, a, b, refl, refl)
  ]
]
  where
    taken :
        at_sign_at t i ≡ true
        → (ltb 0 i && word_at t (i - 1)) ≡ false
        → record { query = slice (suc i) caret t; start = i; end = caret } ≡ tok
    taken a b = ground arith

token_at_hit :
    (t : Text) (caret start : ℕ)
    → at_sign_at t start ≡ true
    → (ltb 0 start && word_at t (start - 1)) ≡ false
    → token_at t caret (suc start)
      ≡ some (record { query = slice (suc start) caret t; start = start; end = caret })
unfolding token_at
token_at_hit t caret start a b = rw (a, b) refl

pub bounded_of :
    (t : Text) (start : ℕ)
    → (ltb 0 start && word_at t (start - 1)) ≡ false
    → (j : ℕ) → start ≡ suc j
    → word_at t j ≡ false
bounded_of t zero h j e = absurd (omega arith)
bounded_of t (suc i) h j e =
    let f : i ≡ j = omega arith in subst (λ k. word_at t k ≡ false) f (ground arith)

pub unbounded_of :
    (t : Text) (start : ℕ)
    → ((j : ℕ) → start ≡ suc j → word_at t j ≡ false)
    → (ltb 0 start && word_at t (start - 1)) ≡ false
unbounded_of t zero h = refl
unbounded_of t (suc i) h = let e : suc i - 1 ≡ i = omega arith in rw (e, h i refl) (ground arith)

-- The token that is found at a caret is the one that ends there, and every such token is found: an `@`
-- in the text with only word characters up to the caret, and no word character before it.
pub active_mention_token_iff :
    (t : Text) (caret start : ℕ)
    → (active_mention_token t caret
        ≡ some (record { query = slice (suc start) caret t; start = start; end = caret }))
      ↔ IsToken t caret start
unfolding active_mention_token
active_mention_token_iff t caret start = (sound, complete)
  where
    tok : Token
    tok = record { query = slice (suc start) caret t; start = start; end = caret }

    sound : active_mention_token t caret ≡ some tok → IsToken t caret start
    sound h = elim (Bool-cases (ltb (length t) caret)) [
      | inl out ↦ absurd (ground arith)
      | inr within ↦
          let (s, a, b, _, _) = token_at_inv t caret (word_start t caret) tok (ground arith) in
          record {
            before = omega (arith, s, word_start-le t caret);
            inside = ground arith;
            at = a;
            words = λ i l u. word_start_words t caret i (omega (arith, s)) u;
            bounded = bounded_of t start b;
          }
    ]

    over : ltb (length t) caret ≡ true → caret ≤ length t → ⊥
    over a b = ground arith

    complete : IsToken t caret start → active_mention_token t caret ≡ some tok
    complete k =
        let e = word_start_eq t start caret k.before (not_word t start k.at) k.words in
        rw (e, token_at_hit t caret start k.at (unbounded_of t start k.bounded))
          (if_cases (λ o. o ≡ some tok) (ltb (length t) caret) (λ out. absurd (over out k.inside))
            (λ within. refl))
