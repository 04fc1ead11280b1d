-- ===== src/Create/Kept.antt =====
-- Every other thing that can happen keeps the media and their runs in step.
use thassa.Base.{
  ℕ, ◌≡◌, ◌≢◌, sym, ap, ◌∙◌, Bool-cases, inl, inr, if◌then◌else◌, Bool, true, false, List, [], ◌∷◌,
  Option, Option-cases, none, some, All, arith,
}
use thassa.Create.{MediaItem, Token, UploadStatus}
use thassa.Create.Media.{
  is_uploading, same_token, active, item_at, drop_at, move_item, patched, patch, progressed,
  progress_to, requeued, requeue,
}
use thassa.Create.Lists.{Starts}
use thassa.Create.Places.{
  All-drop_at, All-insert_at, All-item_at, drop_at-Apart, drop_at-Without, insert_at-Apart,
  length-drop_at, length-insert_at, active-drop_at, active-insert_at,
}
use thassa.Create.Runs.{
  Runs, put_hit, put_miss, put-none, Item, requeued-Item, progressed-Item, patched-Item, ended-Item,
}
use thassa.Create.Sound.{Sound, map-Sound}
use thassa.Create.Uploads.{aborted_run, Composer, put, finish, reset}

pub requeue-Sound :
    (key : ℕ) (s : Composer) → Sound s → Sound (record s { media = requeue key s.media })
unfolding requeue
requeue-Sound key s v =
    map-Sound (requeued key) s s.in_flight s.controllers s.running (λ m. ground arith)
      (λ m. ground arith) (requeued-Item key s.running) (λ u h. h) v.flights v

pub progress_to-Sound :
    (t : Token) (f : ℕ) (s : Composer)
    → Sound s
    → Sound (record s { media = progress_to t f s.media })
unfolding progress_to
progress_to-Sound t f s v =
    map-Sound (progressed t f) s s.in_flight s.controllers s.running (λ m. ground arith)
      (λ m. ground arith) (progressed-Item t f s.running) (λ u h. h) v.flights v

-- A run that ends is no longer in flight.
ended_flights :
    (t : Token) (f : Token → Bool) (r : Runs)
    → ((u : Token) → f u ≡ true → r u ≢ none)
    → (u : Token) → put t false f u ≡ true
    → put t none r u ≢ none
ended_flights t f r k u h e = elim (Bool-cases (same_token u t)) [
  | inl c ↦ let never : false ≡ true = sym (put_hit t u false f c) ∙ h in ground (arith, never)
  | inr c ↦ k u (sym (put_miss t u false f c) ∙ h) (sym (put_miss t u none r c) ∙ e)
]

All-ended :
    (t : Token) (r : Runs) (ms : List MediaItem)
    → r t ≡ some true
    → All (Item r) ms
    → All (Item (put t none r)) ms
All-ended t r [] h i = tt
All-ended t r (m ∷ ms) h (j, i) = (ended-Item t r m h j, All-ended t r ms h i)

aborted-Sound :
    (t : Token) (s : Composer)
    → s.running t ≡ some true
    → Sound s
    → Sound (record s {
      in_flight = put t false s.in_flight;
      controllers = put t false s.controllers;
      running = put t none s.running;
    })
aborted-Sound t s h v = record {
  few = v.few;
  slots = v.slots;
  below = v.below;
  apart = v.apart;
  items = All-ended t s.running s.media h v.items;
  fresh = λ k a l. put-none t (k, a) s.running (v.fresh k a l);
  flights = ended_flights t s.in_flight s.running v.flights;
}

patched-Starts :
    (t : Token) (status : UploadStatus) → is_uploading status ≡ false → Starts (patched t status)
patched-Starts t status h m = ground (arith, h)

pub finish-Sound :
    (t : Token) (status : UploadStatus) (s : Composer)
    → is_uploading status ≡ false
    → Sound s
    → Sound (finish t status s)
unfolding finish patch
finish-Sound t status s h v = elim (Option-cases (s.running t)) [
  | inl e ↦ rw (e, finish) v
  | inr (true, e) ↦ rw (e, finish) (aborted-Sound t s e v)
  | inr (false, e) ↦
      rw (e, finish)
        (map-Sound (patched t status) s (put t false s.in_flight) (put t false s.controllers)
          (put t none s.running) (λ m. ground arith) (patched-Starts t status h)
          (λ m i. patched-Item t status s.running m h i) (λ u n. put-none t u s.running n)
          (ended_flights t s.in_flight s.running v.flights) v)
]

pub move_item-Sound :
    (i j : ℕ) (s : Composer) → Sound s → Sound (record s { media = move_item i j s.media })
unfolding move_item
move_item-Sound i j s v = elim (Option-cases (item_at i s.media)) [
  | inl h ↦ rw (h, move_item) v
  | inr (m, h) ↦
      rw (h, move_item)
        (record {
          few = omega (
            arith,
            length-insert_at j m (drop_at i s.media),
            length-drop_at i s.media m h,
            v.few,
          );
          slots = omega (
            arith,
            active-insert_at j m (drop_at i s.media),
            active-drop_at i s.media m h,
            v.slots,
          );
          below =
              All-insert_at _ j m (drop_at i s.media) (All-item_at _ i s.media m h v.below)
                (All-drop_at _ i s.media v.below);
          apart =
              insert_at-Apart j m (drop_at i s.media) (drop_at-Without i s.media m h v.apart)
                (drop_at-Apart i s.media v.apart);
          items =
              All-insert_at _ j m (drop_at i s.media) (All-item_at _ i s.media m h v.items)
                (All-drop_at _ i s.media v.items);
          fresh = v.fresh;
          flights = v.flights;
        })
]

aborted_none : (b : Bool) (o : Option Bool) → o ≡ none → (if b then aborted_run o else o) ≡ none
aborted_none true o h = ap aborted_run h
aborted_none false o h = h

pub reset-Sound : (s : Composer) → Sound s → Sound (reset s)
unfolding reset active
reset-Sound s v = record {
  few = omega arith;
  slots = omega arith;
  below = tt;
  apart = tt;
  items = tt;
  fresh = λ k a l. aborted_none (s.controllers (k, a)) (s.running (k, a)) (v.fresh k a l);
  flights = λ t h. ground (arith, h);
}
