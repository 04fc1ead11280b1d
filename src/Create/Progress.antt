-- ===== src/Create/Progress.antt =====
-- The uploads that a post waits for bring it nearer.
use mathlib.Core.List.{Memᴰ}
use mathlib.Core.Path.{subst}
use thassa.Base.{
  Text, ℕ, zero, suc, ◌+◌, ◌-◌, ◌≤◌, ◌<◌, ◌≡◌, refl, sym, ap, ◌∙◌, if_cases, Bool-cases, inl, inr,
  if◌then◌else◌, true, false, List, [], ◌∷◌, take, map, some, none, All, arith,
}
use thassa.Create.{UploadStatus, ready, failed, MediaItem, Token, token_of, upload_concurrency}
use thassa.Create.Media.{
  is_uploading, is_queued, same_token, has_token, active, waiting, start, started, patch, patched,
}
use thassa.Create.Lists.{Without, Apart}
use thassa.Create.Places.{All-take}
use thassa.Create.Starting.{All-waiting, has_token-Without, started-cons}
use thassa.Create.Runs.{Runs, Item}
use thassa.Create.Sound.{Sound}
use thassa.Create.Scheduler.{schedule-Ran, schedule-Sound}
use thassa.Create.Uploads.{Composer, schedule, finish, uploads, fails, step}
use thassa.Create.Waiting.{is_settled, all_settled, with_slots}

abbrev pub open_item : MediaItem → ℕ
open_item m = if is_settled m.status then 0 else 1

-- How many items are neither ready nor failed.
abbrev pub unsettled : List MediaItem → ℕ
unsettled [] = 0
unsettled (m ∷ ms) = open_item m + unsettled ms

-- A post waits as long as there are such items.
all_settled-unsettled : (ms : List MediaItem) → all_settled ms ≡ true → unsettled ms ≡ 0
unfolding all_settled
all_settled-unsettled [] h = refl
all_settled-unsettled (m ∷ ms) h = ground (arith, h, all_settled-unsettled ms)

unsettled-patched :
    (m : MediaItem) (status : UploadStatus) (ms : List MediaItem)
    → is_settled status ≡ true
    → unsettled (map (patched (token_of m) status) ms) ≤ unsettled ms
unsettled-patched m status [] h = omega arith
unsettled-patched m status (x ∷ ms) h =
    if_cases
      (λ (y : MediaItem).
        open_item y + unsettled (map (patched (token_of m) status) ms) ≤ open_item x + unsettled ms)
      (same_token (token_of x) (token_of m))
      (λ _. ground (arith, h, unsettled-patched m status ms h))
      (λ _. omega (arith, unsettled-patched m status ms h))

-- An item that uploads has its run, and is settled by its end.
abbrev Ends : Runs → List MediaItem → Type 0
Ends r ms =
    (m : MediaItem) × Memᴰ m ms
    × (r (token_of m) ≡ some false)
    × ((status : UploadStatus)
        → is_settled status ≡ true
        → unsettled (map (patched (token_of m) status) ms) < unsettled ms)

find_upload : (r : Runs) (ms : List MediaItem) → 1 ≤ active ms → All (Item r) ms → Ends r ms
unfolding active
find_upload r [] h i = absurd (omega (arith, h))
find_upload r (m ∷ ms) h (j, i) = elim (Bool-cases (is_uploading m.status)) [
  | inl u ↦ (
    m,
    Memᴰ.head refl,
    j.current ∙ ap (λ b. if b then some false else none) u,
    λ status q.
        let same : same_token (token_of m) (token_of m) ≡ true = ground arith in
        let was : open_item m ≡ 1 = ground (arith, u) in
        rw (same, q) (omega (arith, was, unsettled-patched m status ms q)),
  )
  | inr u ↦
      let k : 1 ≤ active ms = subst (λ b. 1 ≤ (if b then suc (active ms) else active ms)) u h in
      let (x, at, e, less) = find_upload r ms k i in
      (
        x,
        Memᴰ.tail at,
        e,
        λ status q.
            let rest = less status q in
            if_cases
              (λ (y : MediaItem).
                open_item y + unsettled (map (patched (token_of x) status) ms)
                < open_item m + unsettled ms)
              (same_token (token_of m) (token_of x)) (λ _. ground (arith, q, rest))
              (λ _. omega (arith, rest)),
      )
]

module _ (m : MediaItem) (ms : List MediaItem) (w : Without m.key ms) where
  unsettled-front :
      (n : ℕ)
      → is_queued m.status ≡ true
      → ((k : ℕ) → unsettled (map (started (take k (waiting ms))) ms) ≤ unsettled ms)
      → unsettled (map (started (take n (m ∷ waiting ms))) (m ∷ ms)) ≤ unsettled (m ∷ ms)
  unfolding has_token
  unsettled-front zero q ih = omega (arith, ih 0)
  unsettled-front (suc n) q ih =
      let was : open_item m ≡ 1 = ground (arith, q) in
      rw (started-cons m (take n (waiting ms)) ms w)
        (omega (arith, was, ih n, open_le (started (m ∷ take n (waiting ms)) m)))
    where
      open_le : (x : MediaItem) → open_item x ≤ 1
      open_le x = ground arith

  unsettled-behind :
      (n : ℕ)
      → unsettled (map (started (take n (waiting ms))) ms) ≤ unsettled ms
      → unsettled (map (started (take n (waiting ms))) (m ∷ ms)) ≤ unsettled (m ∷ ms)
  unsettled-behind n ih =
      rw
        (has_token-Without m.key m.attempt (take n (waiting ms))
          (All-take _ n (waiting ms) (All-waiting _ ms w)))
        (omega (arith, ih))

-- What the scheduler starts was waiting.
unsettled-started :
    (n : ℕ) (ms : List MediaItem)
    → Apart ms
    → unsettled (map (started (take n (waiting ms))) ms) ≤ unsettled ms
unfolding waiting
unsettled-started n [] a = omega arith
unsettled-started n (m ∷ ms) (w, a) =
    if_cases
      (λ (l : List MediaItem). unsettled (map (started (take n l)) (m ∷ ms)) ≤ unsettled (m ∷ ms))
      (is_queued m.status) (λ q. unsettled-front m ms w n q (λ k. unsettled-started k ms a))
      (λ q. unsettled-behind m ms w n (unsettled-started n ms a))

finish-media :
    (t : Token) (status : UploadStatus) (s : Composer)
    → s.running t ≡ some false
    → (finish t status s).media ≡ map (patched t status) s.media
unfolding finish patch
finish-media t status s e = rw (e, finish) refl

-- The item of an upload that the scheduler leaves, with what its end does.
abbrev pub Nearer : Composer → Type 0
Nearer s =
    (m : MediaItem) × Memᴰ m (schedule s).media
    × ((schedule s).running (token_of m) ≡ some false)
    × ((id : Text)
        → unsettled (step (uploads (token_of m) id) (schedule s)).media < unsettled s.media)
    × ((message : Text)
        → unsettled (step (fails (token_of m) message) (schedule s)).media < unsettled s.media)

-- In step, as every run of events leaves it, and with an item that is neither ready nor failed, the
-- scheduler leaves an item whose upload is running and not aborted; and when this upload ends, with
-- an id or with an error, there are fewer such items than before the scheduler ran. That an upload
-- ends is not said here.
pub schedule-Nearer : (s : Composer) → Sound s → all_settled s.media ≡ false → Nearer s
unfolding start step
schedule-Nearer s v h =
    let (m, at, e, less) =
      find_upload (schedule s).running (schedule s).media some_active (schedule-Sound s v).items in
    (
      m,
      at,
      e,
      λ id.
          rw (finish-media (token_of m) (ready id) (schedule s) e)
            (omega (arith, less (ready id) refl, no_more)),
      λ message.
          rw (finish-media (token_of m) (failed message) (schedule s) e)
            (omega (arith, less (failed message) refl, no_more)),
    )
  where
    slots : ℕ
    slots = upload_concurrency - active s.media

    same : (schedule s).media ≡ map (started (take slots (waiting s.media))) s.media
    same = (schedule-Ran s v).same

    some_active : 1 ≤ active (schedule s).media
    some_active = subst (λ l. 1 ≤ active l) (sym same) (with_slots slots s.media (omega arith) h)

    no_more : unsettled (schedule s).media ≤ unsettled s.media
    no_more =
        subst (λ l. unsettled l ≤ unsettled s.media) (sym same)
          (unsettled-started slots s.media v.apart)
