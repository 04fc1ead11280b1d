-- ===== src/Create/Adding.antt =====
-- Media that are picked.
use thassa.Base.{
  ℕ, zero, suc, ◌+◌, ◌<◌, ◌≤◌, ◌≡◌, refl, leb, if_cases, List, [], ◌∷◌, ◌++◌, length, length-take,
  take, none, All, arith,
}
use thassa.Create.{MediaItem, max_media}
use thassa.Create.Media.{active, Asset, item_of, items_from, add_assets}
use thassa.Create.Lists.{Without, Apart, Below, active-cons}
use thassa.Create.Places.{All-take, All-append, take-Apart}
use thassa.Create.Runs.{Runs, Item}
use thassa.Create.Sound.{Sound}
use thassa.Create.Uploads.{Composer, pick}

Below-le : (n k : ℕ) (ms : List MediaItem) → n ≤ k → Below n ms → Below k ms
Below-le n k [] h a = tt
Below-le n k (m ∷ ms) h (p, a) = (omega (arith, p, h), Below-le n k ms h a)

from_seq-le : (n : ℕ) (ms : List MediaItem) → All (λ m. suc n ≤ m.key) ms → All (λ m. n ≤ m.key) ms
from_seq-le n [] a = tt
from_seq-le n (m ∷ ms) (p, a) = (omega (arith, p), from_seq-le n ms a)

from_seq : (n : ℕ) (assets : List Asset) → All (λ m. n ≤ m.key) (items_from n assets)
unfolding items_from
from_seq n [] = tt
from_seq n (a ∷ assets) =
    (omega arith, from_seq-le n (items_from (suc n) assets) (from_seq (suc n) assets))

items_from-Below : (n : ℕ) (assets : List Asset) → Below (n + length assets) (items_from n assets)
unfolding items_from
items_from-Below n [] = tt
items_from-Below n (a ∷ assets) = (
  omega arith,
  Below-le (suc n + length assets) _ (items_from (suc n) assets) (omega arith)
      (items_from-Below (suc n) assets),
)

Without-from : (n k : ℕ) (ms : List MediaItem) → k < n → All (λ m. n ≤ m.key) ms → Without k ms
Without-from n k [] h a = tt
Without-from n k (m ∷ ms) h (p, a) = ((λ e. omega (arith, p, h, e)), Without-from n k ms h a)

items_from-Apart : (n : ℕ) (assets : List Asset) → Apart (items_from n assets)
unfolding items_from
items_from-Apart n [] = tt
items_from-Apart n (a ∷ assets) = (
  Without-from (suc n) n (items_from (suc n) assets) (omega arith) (from_seq (suc n) assets),
  items_from-Apart (suc n) assets,
)

append-Apart :
    (n : ℕ) (ms ns : List MediaItem)
    → Below n ms
    → All (λ m. n ≤ m.key) ns
    → Apart ms
    → Apart ns
    → Apart (ms ++ ns)
append-Apart n [] ns b l a c = c
append-Apart n (m ∷ ms) ns (p, b) l (w, a) c =
    (All-append _ ms ns w (Without-from n m.key ns p l), append-Apart n ms ns b l a c)

items_from-Item :
    (r : Runs) (n : ℕ) (assets : List Asset)
    → ((k a : ℕ) → n ≤ k → r (k, a) ≡ none)
    → All (Item r) (items_from n assets)
unfolding items_from
items_from-Item r n [] h = tt
items_from-Item r n (a ∷ assets) h = (
  record { current = h n 0 (omega arith); later = λ b l. h n b (omega arith) },
  items_from-Item r (suc n) assets (λ k b l. h k b (omega (arith, l))),
)

active-items_from :
    (n : ℕ) (assets : List Asset) (ms : List MediaItem)
    → active (ms ++ items_from n assets) ≡ active ms
unfolding items_from
active-items_from n assets (m ∷ ms) =
    rw (active-cons m (ms ++ items_from n assets), active-items_from n assets ms, active-cons m ms)
      refl
active-items_from n [] [] = refl
active-items_from n (a ∷ assets) [] =
    rw (active-cons (item_of n a) (items_from (suc n) assets))
      (omega (arith, active-items_from (suc n) assets []))

active-take : (n : ℕ) (ms : List MediaItem) → active (take n ms) ≤ active ms
unfolding active
active-take zero ms = omega arith
active-take (suc n) [] = omega arith
active-take (suc n) (m ∷ ms) =
    rw (active-cons m (take n ms), active-cons m ms) (omega (arith, active-take n ms))

added-Sound :
    (s : Composer) (assets : List Asset)
    → Sound s
    → Sound (record s {
      media = add_assets s.item_seq assets s.media;
      item_seq = s.item_seq + length assets;
    })
unfolding add_assets
added-Sound s assets v = record {
  few = omega (arith, length-take max_media (s.media ++ new));
  slots = omega (
    arith,
    active-take max_media (s.media ++ new),
    active-items_from s.item_seq assets s.media,
    v.slots,
  );
  below = All-take _ max_media _ (
      All-append _ s.media new (Below-le s.item_seq _ s.media (omega arith) v.below)
        (items_from-Below s.item_seq assets));
  apart = take-Apart max_media _ (
      append-Apart s.item_seq s.media new v.below (from_seq s.item_seq assets) v.apart
        (items_from-Apart s.item_seq assets));
  items =
      All-take _ max_media _
        (All-append _ s.media new v.items (items_from-Item s.running s.item_seq assets v.fresh));
  fresh = λ k a l. v.fresh k a (omega (arith, l));
  flights = v.flights;
}
  where
    new : List MediaItem
    new = items_from s.item_seq assets

pub pick-Sound : (assets : List Asset) (s : Composer) → Sound s → Sound (pick assets s)
unfolding pick
pick-Sound assets s v =
    if_cases Sound (leb max_media (length s.media)) (λ h. v) (λ h. added-Sound s assets v)
