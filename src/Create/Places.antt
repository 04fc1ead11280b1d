-- ===== src/Create/Places.antt =====
-- Lists of media: items that are taken out, put in, moved or added.
use mathlib.Core.Path.{subst}
use thassa.Base.{
  ℕ, zero, suc, ◌+◌, ◌≤◌, ◌≡◌, ◌≢◌, refl, sym, ap, if◌then◌else◌, List, [], ◌∷◌, ◌++◌, take, length,
  none, some, All, arith,
}
use thassa.Create.{MediaItem}
use thassa.Create.Media.{is_uploading, active, insert_at, drop_at, item_at}
use thassa.Create.Lists.{Without, Apart, active-cons}

pub the_same : (x m : MediaItem) → some x ≡ some m → x ≡ m
the_same x m = ap (λ o. elim o [ none ↦ x | some y ↦ y ])

module _ (P : MediaItem → Type 0) where
  pub All-item_at :
      (i : ℕ) (ms : List MediaItem) (m : MediaItem) → item_at i ms ≡ some m → All P ms → P m
  unfolding item_at
  All-item_at i [] m h a = ground (arith, h)
  All-item_at zero (x ∷ ms) m h (p, a) = ground (arith, h, p)
  All-item_at (suc i) (x ∷ ms) m h (p, a) = All-item_at i ms m h a

  pub All-drop_at : (i : ℕ) (ms : List MediaItem) → All P ms → All P (drop_at i ms)
  unfolding drop_at
  All-drop_at i [] a = tt
  All-drop_at zero (x ∷ ms) (p, a) = a
  All-drop_at (suc i) (x ∷ ms) (p, a) = (p, All-drop_at i ms a)

  pub All-insert_at :
      (i : ℕ) (it : MediaItem) (ms : List MediaItem) → P it → All P ms → All P (insert_at i it ms)
  unfolding insert_at
  All-insert_at i it [] q a = (q, tt)
  All-insert_at zero it (x ∷ ms) q (p, a) = (q, (p, a))
  All-insert_at (suc i) it (x ∷ ms) q (p, a) = (p, All-insert_at i it ms q a)

  pub All-take : (n : ℕ) (ms : List MediaItem) → All P ms → All P (take n ms)
  All-take zero ms a = tt
  All-take (suc n) [] a = tt
  All-take (suc n) (x ∷ ms) (p, a) = (p, All-take n ms a)

  pub All-append : (ms ns : List MediaItem) → All P ms → All P ns → All P (ms ++ ns)
  All-append [] ns a b = b
  All-append (x ∷ ms) ns (p, a) b = (p, All-append ms ns a b)

pub drop_at-Apart : (i : ℕ) (ms : List MediaItem) → Apart ms → Apart (drop_at i ms)
unfolding drop_at
drop_at-Apart i [] a = tt
drop_at-Apart zero (x ∷ ms) (w, a) = a
drop_at-Apart (suc i) (x ∷ ms) (w, a) = (All-drop_at _ i ms w, drop_at-Apart i ms a)

-- What is taken out leaves its key free.
pub drop_at-Without :
    (i : ℕ) (ms : List MediaItem) (m : MediaItem)
    → item_at i ms ≡ some m
    → Apart ms
    → Without m.key (drop_at i ms)
unfolding drop_at item_at
drop_at-Without i [] m h a = tt
drop_at-Without zero (x ∷ ms) m h (w, a) =
    subst (λ (y : MediaItem). Without y.key ms) (the_same x m h) w
drop_at-Without (suc i) (x ∷ ms) m h (w, a) =
    ((λ e. All-item_at (λ y. y.key ≢ x.key) i ms m h w (sym e)), drop_at-Without i ms m h a)

pub insert_at-Apart :
    (i : ℕ) (it : MediaItem) (ms : List MediaItem)
    → Without it.key ms
    → Apart ms
    → Apart (insert_at i it ms)
unfolding insert_at
insert_at-Apart i it [] w a = (tt, tt)
insert_at-Apart zero it (x ∷ ms) w a = (w, a)
insert_at-Apart (suc i) it (x ∷ ms) (n, w) (v, a) =
    (All-insert_at _ i it ms (λ e. n (sym e)) v, insert_at-Apart i it ms w a)

pub take-Apart : (n : ℕ) (ms : List MediaItem) → Apart ms → Apart (take n ms)
take-Apart zero ms a = tt
take-Apart (suc n) [] a = tt
take-Apart (suc n) (x ∷ ms) (w, a) = (All-take _ n ms w, take-Apart n ms a)

pub length-insert_at :
    (i : ℕ) (it : MediaItem) (ms : List MediaItem) → length (insert_at i it ms) ≡ suc (length ms)
unfolding insert_at
length-insert_at i it [] = refl
length-insert_at zero it (x ∷ ms) = refl
length-insert_at (suc i) it (x ∷ ms) = ap suc (length-insert_at i it ms)

pub length-drop_at-le : (i : ℕ) (ms : List MediaItem) → length (drop_at i ms) ≤ length ms
unfolding drop_at
length-drop_at-le i [] = omega arith
length-drop_at-le zero (x ∷ ms) = omega arith
length-drop_at-le (suc i) (x ∷ ms) = omega (arith, length-drop_at-le i ms)

pub length-drop_at :
    (i : ℕ) (ms : List MediaItem) (m : MediaItem)
    → item_at i ms ≡ some m
    → suc (length (drop_at i ms)) ≡ length ms
unfolding drop_at item_at
length-drop_at i [] m h = ground (arith, h)
length-drop_at zero (x ∷ ms) m h = refl
length-drop_at (suc i) (x ∷ ms) m h = ap suc (length-drop_at i ms m h)

-- One for an item that uploads.
abbrev pub weight : MediaItem → ℕ
weight m = if is_uploading m.status then 1 else 0

pub active-insert_at :
    (i : ℕ) (it : MediaItem) (ms : List MediaItem)
    → active (insert_at i it ms) ≡ weight it + active ms
unfolding insert_at
active-insert_at i it [] = active-cons it []
active-insert_at zero it (x ∷ ms) = active-cons it (x ∷ ms)
active-insert_at (suc i) it (x ∷ ms) =
    rw (active-cons x (insert_at i it ms), active-insert_at i it ms, active-cons x ms) (omega arith)

pub active-drop_at :
    (i : ℕ) (ms : List MediaItem) (m : MediaItem)
    → item_at i ms ≡ some m
    → weight m + active (drop_at i ms) ≡ active ms
unfolding drop_at item_at
active-drop_at i [] m h = ground (arith, h)
active-drop_at zero (x ∷ ms) m h =
    rw (active-cons x ms)
      (subst (λ (y : MediaItem). weight y + active ms ≡ weight x + active ms) (the_same x m h) refl)
active-drop_at (suc i) (x ∷ ms) m h =
    rw (active-cons x (drop_at i ms), active-cons x ms) (omega (arith, active-drop_at i ms m h))

pub active-drop_at-le : (i : ℕ) (ms : List MediaItem) → active (drop_at i ms) ≤ active ms
unfolding drop_at
active-drop_at-le i [] = omega arith
active-drop_at-le zero (x ∷ ms) = rw (active-cons x ms) (omega arith)
active-drop_at-le (suc i) (x ∷ ms) =
    rw (active-cons x (drop_at i ms), active-cons x ms) (omega (arith, active-drop_at-le i ms))
