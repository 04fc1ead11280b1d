-- ===== src/Create/Starting.antt =====
-- Which media the scheduler starts.
use thassa.Base.{
  ℕ, zero, suc, ◌+◌, ◌≤◌, ◌≡◌, refl, ◌==◌, if_cases, true, false, List, [], ◌∷◌, take, map, All,
  arith,
}
use thassa.Create.{MediaItem}
use thassa.Create.Media.{is_queued, active, waiting, has_token, start, started}
use thassa.Create.Lists.{Without, Apart, active-cons, active-map}
use thassa.Create.Places.{All-take, weight}

pub All-waiting : (P : MediaItem → Type 0) (ms : List MediaItem) → All P ms → All P (waiting ms)
unfolding waiting
All-waiting P [] a = tt
All-waiting P (m ∷ ms) (p, a) =
    if_cases (All P) (is_queued m.status) (λ h. (p, All-waiting P ms a)) (λ h. All-waiting P ms a)

pub waiting-Apart : (ms : List MediaItem) → Apart ms → Apart (waiting ms)
unfolding waiting
waiting-Apart [] a = tt
waiting-Apart (m ∷ ms) (w, a) =
    if_cases Apart (is_queued m.status) (λ h. (All-waiting _ ms w, waiting-Apart ms a))
      (λ h. waiting-Apart ms a)

pub waiting-queued : (ms : List MediaItem) → All (λ m. is_queued m.status ≡ true) (waiting ms)
unfolding waiting
waiting-queued [] = tt
waiting-queued (m ∷ ms) =
    if_cases (All (λ n. is_queued n.status ≡ true)) (is_queued m.status)
      (λ h. (h, waiting-queued ms)) (λ h. waiting-queued ms)

-- No token of a key that is not there.
pub has_token-Without : (k a : ℕ) (ms : List MediaItem) → Without k ms → has_token ms (k, a) ≡ false
unfolding has_token
has_token-Without k a [] w = refl
has_token-Without k a (m ∷ ms) (n, w) = ground (arith, n, has_token-Without k a ms w)

started-Without : (s ms : List MediaItem) → All (λ m. Without m.key s) ms → map (started s) ms ≡ ms
started-Without s [] w = refl
started-Without s (m ∷ ms) (n, w) =
    rw (has_token-Without m.key m.attempt s n, started-Without s ms w) refl

-- With another item in front whose key they do not have.
pub started-cons :
    (x : MediaItem) (s ms : List MediaItem)
    → Without x.key ms
    → map (started (x ∷ s)) ms ≡ map (started s) ms
unfolding has_token
started-cons x s [] w = refl
started-cons x s (m ∷ ms) (n, w) =
    let differ : (x.key == m.key) ≡ false = ground (arith, n) in
    rw (differ, started-cons x s ms w) refl

weight_le : (m : MediaItem) → weight m ≤ 1
weight_le m = ground arith

module _ (m : MediaItem) (ms : List MediaItem) (w : Without m.key ms) where
  -- With `m` in front of those that wait.
  active-front :
      (n : ℕ)
      → ((k : ℕ) → active (map (started (take k (waiting ms))) ms) ≤ active ms + k)
      → active (map (started (take n (m ∷ waiting ms))) (m ∷ ms)) ≤ active (m ∷ ms) + n
  unfolding has_token
  active-front zero ih = omega (arith, active-map (started []) (m ∷ ms) (λ x h. h))
  active-front (suc n) ih =
      rw
        (
          active-cons (started (m ∷ take n (waiting ms)) m)
              (map (started (m ∷ take n (waiting ms))) ms),
          started-cons m (take n (waiting ms)) ms w,
          active-cons m ms,
        )
        (omega (arith, weight_le (started (m ∷ take n (waiting ms)) m), ih n))

  -- With `m` not among them.
  active-behind :
      (n : ℕ)
      → active (map (started (take n (waiting ms))) ms) ≤ active ms + n
      → active (map (started (take n (waiting ms))) (m ∷ ms)) ≤ active (m ∷ ms) + n
  active-behind n ih =
      rw
        (
          active-cons (started (take n (waiting ms)) m) (map (started (take n (waiting ms))) ms),
          has_token-Without m.key m.attempt (take n (waiting ms))
              (All-take _ n (waiting ms) (All-waiting _ ms w)),
          active-cons m ms,
        )
        (omega (arith, ih))

-- At most as many uploads as there are slots.
pub active-start :
    (n : ℕ) (ms : List MediaItem)
    → Apart ms
    → active (start (take n (waiting ms)) ms) ≤ active ms + n
unfolding start waiting
active-start n [] a = omega arith
active-start n (m ∷ ms) (w, a) =
    if_cases
      (λ (l : List MediaItem). active (map (started (take n l)) (m ∷ ms)) ≤ active (m ∷ ms) + n)
      (is_queued m.status) (λ h. active-front m ms w n (λ k. active-start k ms a))
      (λ h. active-behind m ms w n (active-start n ms a))
