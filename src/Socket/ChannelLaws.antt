-- ===== src/Socket/ChannelLaws.antt =====
-- Laws of the map of refcounts.
use mathlib.Core.Path.{subst}
use thassa.Base.{
  ℕ, ◌<◌, ◌≡◌, ◌∙◌, refl, sym, ap, not, ◌&&◌, ◌||◌, Bool, true, false, Bool-cases, inl, inr, ltb,
  if_cases, if◌then◌else◌, Text, text_eq, text_eq_iff, List, [], ◌∷◌, All, arith,
}
use thassa.Socket.Channels.{refcount, has, set, delete}

-- Every refcount in the map is at least 1.
abbrev pub Positive : List (Text × ℕ) → Type 0
Positive = All (λ e. 0 < e.1)

left : (e d c : Text) → text_eq e d ≡ true → text_eq e c ≡ text_eq d c
left e d c h = ap (λ x. text_eq x c) ((text_eq_iff e d).0 h)

apart : (e d c : Text) → text_eq e d ≡ false → text_eq e c ≡ true → text_eq d c ≡ false
apart e d c h q = elim (Bool-cases (text_eq d c)) [
  | inr n ↦ n
  | inl p ↦
      absurd
        (conflict ((text_eq_iff e d).1 ((text_eq_iff e c).0 q ∙ sym ((text_eq_iff d c).0 p))) h)
]
  where
    conflict : {b : Bool} → b ≡ true → b ≡ false → ⊥
    conflict x y = ground arith

pub has-set {ℓ} :
    {V : Type ℓ} (c d : Text) (k : V) (s : List (Text × V))
    → has c (set d k s) ≡ (text_eq d c || has c s)
unfolding has set
has-set c d k [] =
    if_cases (λ b. b ≡ (text_eq d c || false)) (text_eq d c) (λ h. rw h refl) (λ h. rw h refl)
has-set c d k ((e, n) ∷ r) = elim (Bool-cases (text_eq e d)) [
  | inl q ↦
      let p = (text_eq_iff e d).0 q in
      rw (q) (
        subst (λ x. has c ((e, k) ∷ r) ≡ (text_eq x c || has c ((e, n) ∷ r))) p
          (same (text_eq e c) (has c r)))
  | inr q ↦ rw (q, has-set c d k r) (swap (text_eq e c) (text_eq d c) (has c r))
]
  where
    same : (a b : Bool) → (if a then true else b) ≡ (a || (if a then true else b))
    same true b = refl
    same false b = refl

    swap : (a b x : Bool) → (if a then true else (b || x)) ≡ (b || (if a then true else x))
    swap true true x = refl
    swap true false x = refl
    swap false b x = refl

-- A channel that is there stays there, as do the others.
pub has-set_known {ℓ} :
    {V : Type ℓ} (c d : Text) (k : V) (s : List (Text × V))
    → has d s ≡ true
    → has c (set d k s) ≡ has c s
has-set_known c d k s h =
    has-set c d k s
    ∙ absorb (text_eq d c) (λ e. subst (λ x. has x s ≡ true) ((text_eq_iff d c).0 e) h)
  where
    absorb : (b : Bool) → (b ≡ true → has c s ≡ true) → (b || has c s) ≡ has c s
    absorb true f = sym (f refl)
    absorb false f = refl

pub has-delete {ℓ} :
    {V : Type ℓ} (c d : Text) (s : List (Text × V))
    → has c (delete d s) ≡ (not (text_eq d c) && has c s)
unfolding has delete
has-delete c d [] = none_left (text_eq d c)
  where
    none_left : (b : Bool) → false ≡ (not b && false)
    none_left true = refl
    none_left false = refl
has-delete c d ((e, n) ∷ r) = elim (Bool-cases (text_eq e d)) [
  | inl q ↦ rw (q, has-delete c d r, left e d c q) (gone (text_eq d c) (has c r))
  | inr q ↦ rw (q, has-delete c d r) (kept (text_eq e c) (text_eq d c) (has c r) (apart e d c q))
]
  where
    gone : (b x : Bool) → (not b && x) ≡ (not b && (if b then true else x))
    gone true x = refl
    gone false x = refl

    kept :
        (a b x : Bool)
        → (a ≡ true → b ≡ false)
        → (if a then true else (not b && x)) ≡ (not b && (if a then true else x))
    kept true b x h = rw (h refl) refl
    kept false b x h = refl

pub refcount_none :
    (c : Text) (s : List (Text × ℕ)) → Positive s → refcount c s ≡ 0 → has c s ≡ false
unfolding has refcount
refcount_none c [] p h = refl
refcount_none c ((e, n) ∷ r) (p, q) h = elim (Bool-cases (text_eq e c)) [
  | inl t ↦ absurd (ground arith)
  | inr t ↦ rw t (refcount_none c r q (ground arith))
]

pub refcount_some : (c : Text) (s : List (Text × ℕ)) → 0 < refcount c s → has c s ≡ true
unfolding has refcount
refcount_some c [] h = absurd (omega arith)
refcount_some c ((e, n) ∷ r) h = elim (Bool-cases (text_eq e c)) [
  | inl t ↦ rw t refl
  | inr t ↦ rw t (refcount_some c r (ground arith))
]

pub set-Positive :
    (d : Text) (k : ℕ) (s : List (Text × ℕ)) → 0 < k → Positive s → Positive (set d k s)
unfolding set
set-Positive d k [] l p = (l, tt)
set-Positive d k ((e, n) ∷ r) l (p, q) =
    if_cases Positive (text_eq e d) (λ _. (l, q)) (λ _. (p, set-Positive d k r l q))

pub delete-Positive : (d : Text) (s : List (Text × ℕ)) → Positive s → Positive (delete d s)
unfolding delete
delete-Positive d [] p = tt
delete-Positive d ((e, n) ∷ r) (p, q) =
    if_cases Positive (text_eq e d) (λ _. delete-Positive d r q) (λ _. (p, delete-Positive d r q))

pub refcount-set :
    (c d : Text) (k : ℕ) (s : List (Text × ℕ))
    → refcount c (set d k s) ≡ (if text_eq d c then k else refcount c s)
unfolding refcount set
refcount-set c d k [] = refl
refcount-set c d k ((e, n) ∷ r) = elim (Bool-cases (text_eq e d)) [
  | inl q ↦ rw (q, left e d c q) (over (text_eq d c) n)
  | inr q ↦ rw (q, refcount-set c d k r) (past (text_eq e c) (text_eq d c) (apart e d c q))
]
  where
    over :
        (b : Bool) (x : ℕ)
        → (if b then k else refcount c r) ≡ (if b then k else (if b then x else refcount c r))
    over true x = refl
    over false x = refl

    past :
        (a b : Bool)
        → (a ≡ true → b ≡ false)
        → (if a then n else (if b then k else refcount c r))
          ≡ (if b then k else (if a then n else refcount c r))
    past true b h = rw (h refl) refl
    past false b h = refl

pub refcount-delete :
    (c d : Text) (s : List (Text × ℕ))
    → refcount c (delete d s) ≡ (if text_eq d c then 0 else refcount c s)
unfolding refcount delete
refcount-delete c d [] = if_cases (λ (x : ℕ). 0 ≡ x) (text_eq d c) (λ _. refl) (λ _. refl)
refcount-delete c d ((e, n) ∷ r) = elim (Bool-cases (text_eq e d)) [
  | inl q ↦ rw (q, refcount-delete c d r, left e d c q) (over (text_eq d c))
  | inr q ↦ rw (q, refcount-delete c d r) (past (text_eq e c) (text_eq d c) (apart e d c q))
]
  where
    over :
        (b : Bool)
        → (if b then 0 else refcount c r) ≡ (if b then 0 else (if b then n else refcount c r))
    over true = refl
    over false = refl

    past :
        (a b : Bool)
        → (a ≡ true → b ≡ false)
        → (if a then n else (if b then 0 else refcount c r))
          ≡ (if b then 0 else (if a then n else refcount c r))
    past true b h = rw (h refl) refl
    past false b h = refl

pub has-refcount : (c : Text) (s : List (Text × ℕ)) → Positive s → has c s ≡ ltb 0 (refcount c s)
has-refcount c s p = elim (Bool-cases (ltb 0 (refcount c s))) [
  | inl h ↦ refcount_some c s (ground arith) ∙ sym h
  | inr h ↦ refcount_none c s p (ground arith) ∙ sym h
]
