-- ===== src/Create/Waiting.antt =====
-- `waitForUploads`: what a post waits for.
use thassa.Base.{
  ℕ, zero, suc, ◌+◌, ◌≤◌, ◌≡◌, refl, sym, ap, ◌∙◌, ◌&&◌, Bool-cases, inl, inr, if_cases, Bool, true,
  false, List, [], ◌∷◌, take, map, arith,
}
use thassa.Create.{
  UploadStatus, queued, uploading, ready, failed, MediaItem, token_of, upload_concurrency,
}
use thassa.Create.Media.{is_uploading, is_queued, same_token, has_token, active, waiting, started}
use thassa.Create.Lists.{active-cons}

abbrev pub is_settled : UploadStatus → Bool
is_settled queued = false
is_settled (uploading f) = false
is_settled (ready id) = true
is_settled (failed message) = true

-- `items.every(...)`.
unfoldable pub all_settled : List MediaItem → Bool
all_settled [] = true
all_settled (m ∷ ms) = is_settled m.status && all_settled ms

started-uploading :
    (s : List MediaItem) (m : MediaItem)
    → is_uploading m.status ≡ true
    → is_uploading (started s m).status ≡ true
started-uploading s m h =
    if_cases (λ (x : MediaItem). is_uploading x.status ≡ true) (has_token s (token_of m))
      (λ e. refl) (λ e. h)

active-started : (s ms : List MediaItem) → active ms ≤ active (map (started s) ms)
active-started s [] = omega arith
active-started s (m ∷ ms) =
    rw (active-cons (started s m) (map (started s) ms), active-cons m ms)
      (ground (arith, active-started s ms, started-uploading s m))

active-head :
    (m : MediaItem) (ms : List MediaItem) → is_uploading m.status ≡ true → 1 ≤ active (m ∷ ms)
active-head m ms h = rw (active-cons m ms, h) (omega arith)

active-tail : (m : MediaItem) (ms : List MediaItem) → 1 ≤ active ms → 1 ≤ active (m ∷ ms)
active-tail m ms h = rw (active-cons m ms) (omega (arith, h))

started-first :
    (m : MediaItem) (s : List MediaItem) → is_uploading (started (m ∷ s) m).status ≡ true
unfolding has_token
started-first m s =
    let same : same_token (token_of m) (token_of m) ≡ true = ground arith in rw same refl

settled_else :
    (s : UploadStatus) → is_queued s ≡ false → is_uploading s ≡ false → is_settled s ≡ true
settled_else queued q u = ground (arith, q)
settled_else (uploading f) q u = ground (arith, u)
settled_else (ready id) q u = refl
settled_else (failed message) q u = refl

-- With a slot, what is not settled gets an upload.
active-first :
    (n : ℕ) (ms : List MediaItem)
    → all_settled ms ≡ false
    → 1 ≤ active (map (started (take (suc n) (waiting ms))) ms)
unfolding all_settled waiting
active-first n [] h = ground (arith, h)
active-first n (m ∷ ms) h =
    if_cases (λ (l : List MediaItem). 1 ≤ active (map (started (take (suc n) l)) (m ∷ ms)))
      (is_queued m.status)
      (λ q.
        active-head (started (m ∷ take n (waiting ms)) m)
          (map (started (m ∷ take n (waiting ms))) ms) (started-first m (take n (waiting ms))))
      (λ q. elim (Bool-cases (is_uploading m.status)) [
        | inl u ↦
            active-head (started (take (suc n) (waiting ms)) m)
              (map (started (take (suc n) (waiting ms))) ms)
              (started-uploading (take (suc n) (waiting ms)) m u)
        | inr u ↦
            active-tail (started (take (suc n) (waiting ms)) m)
              (map (started (take (suc n) (waiting ms))) ms)
              (active-first n ms
                (sym (ap (λ b. b && all_settled ms) (settled_else m.status q u)) ∙ h))
      ])

pub with_slots :
    (n : ℕ) (ms : List MediaItem)
    → upload_concurrency ≤ active ms + n
    → all_settled ms ≡ false
    → 1 ≤ active (map (started (take n (waiting ms))) ms)
with_slots zero ms k h = omega (arith, k, active-started [] ms)
with_slots (suc n) ms k h = active-first n ms h
