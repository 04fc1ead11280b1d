-- ===== src/Create/Scheduler.antt =====
-- The scheduler keeps the media and their runs in step.
use mathlib.Core.Path.{subst}
use thassa.Base.{
  ℕ, ◌+◌, ◌-◌, ◌<◌, ◌≤◌, ◌≡◌, ◌≢◌, refl, sym, ap, ◌∙◌, ◌==◌, ◌||◌, Bool-cases, inl, inr, if_cases,
  if◌then◌else◌, Bool, true, false, List, [], ◌∷◌, take, none, some, All, arith,
}
use thassa.Create.{MediaItem, Token, token_of, upload_concurrency}
use thassa.Create.Media.{
  is_uploading, is_queued, same_token, has_token, active, waiting, start, started,
}
use thassa.Create.Lists.{Without, Apart, Below, All-map, map-Apart, map-Below, length-map}
use thassa.Create.Places.{All-take, take-Apart}
use thassa.Create.Starting.{All-waiting, waiting-Apart, has_token-Without, active-start}
use thassa.Create.Runs.{Runs, Item}
use thassa.Create.Sound.{Sound}
use thassa.Create.Uploads.{Composer, schedule}
use thassa.Create.Scheduled.{Grounded, Ran, run_all-Ran}

-- One item for a key.
abbrev Match : MediaItem → MediaItem → Type 0
Match m x = x.key ≡ m.key → x.attempt ≡ m.attempt

Without-Match : (m : MediaItem) (ms : List MediaItem) → Without m.key ms → All (Match m) ms
Without-Match m [] w = tt
Without-Match m (x ∷ ms) (n, w) = ((λ e. absurd (n e)), Without-Match m ms w)

Match-cons :
    (y : MediaItem) (ys zs : List MediaItem)
    → Without y.key zs
    → All (λ m. All (Match m) ys) zs
    → All (λ m. All (Match m) (y ∷ ys)) zs
Match-cons y ys [] w a = tt
Match-cons y ys (m ∷ zs) (n, w) (p, a) = (((λ e. absurd (n (sym e))), p), Match-cons y ys zs w a)

All-Match : (ms : List MediaItem) → Apart ms → All (λ m. All (Match m) ms) ms
All-Match [] a = tt
All-Match (y ∷ ys) (w, a) =
    (((λ e. refl), Without-Match y ys w), Match-cons y ys ys w (All-Match ys a))

-- The items of a list taken by the scheduler, with those that they could be.
All-both :
    (r : Runs) (n : ℕ) (cur ms : List MediaItem)
    → All (Item r) ms
    → All (λ m. All (Match m) cur) ms
    → All (λ m. Item r m × All (Match m) (take n (waiting cur))) ms
All-both r n cur [] i a = tt
All-both r n cur (m ∷ ms) (j, i) (p, a) =
    ((j, All-take (Match m) n _ (All-waiting (Match m) cur p)), All-both r n cur ms i a)

has_token-later :
    (m : MediaItem) (b : ℕ) (s : List MediaItem)
    → m.attempt < b
    → All (Match m) s
    → has_token s (m.key, b) ≡ false
unfolding has_token
has_token-later m b [] l a = refl
has_token-later m b (x ∷ s) l (p, a) =
    let differ : same_token (token_of x) (m.key, b) ≡ false = elim (Bool-cases (x.key == m.key)) [
      | inl e ↦ let q : x.attempt ≡ m.attempt = p (ground (arith, e)) in ground (arith, q, l)
      | inr e ↦ rw e refl
    ] in
    rw (differ, has_token-later m b s l a) refl

started-Item :
    (s : List MediaItem) (r r' : Runs) (m : MediaItem)
    → ((u : Token) → r' u ≡ (if has_token s u then some false else r u))
    → Item r m × All (Match m) s
    → Item r' (started s m)
started-Item s r r' m e (i, a) = elim (Bool-cases (has_token s (token_of m))) [
  | inl h ↦ rw h (record { current = e (m.key, m.attempt) ∙ rw h refl; later = later })
  | inr h ↦ rw h (record { current = e (m.key, m.attempt) ∙ rw h i.current; later = later })
]
  where
    later : (b : ℕ) → m.attempt < b → r' (m.key, b) ≡ none
    later b l = e (m.key, b) ∙ rw (has_token-later m b s l a) (i.later b l)

queued-grounded :
    (f : Token → Bool) (r : Runs) (m : MediaItem)
    → ((t : Token) → f t ≡ true → r t ≢ none)
    → Item r m
    → is_queued m.status ≡ true
    → f (token_of m) ≡ false
queued-grounded f r m h i q = elim (Bool-cases (f (token_of m))) [
  | inl e ↦
      let still : is_uploading m.status ≡ false = ground (arith, q) in
      absurd (h (token_of m) e (i.current ∙ ap (λ b. if b then some false else none) still))
  | inr e ↦ e
]

pub waiting-Grounded :
    (f : Token → Bool) (r : Runs) (ms : List MediaItem)
    → ((t : Token) → f t ≡ true → r t ≢ none)
    → All (Item r) ms
    → Grounded f (waiting ms)
unfolding waiting
waiting-Grounded f r [] h i = tt
waiting-Grounded f r (m ∷ ms) h (j, i) =
    if_cases (Grounded f) (is_queued m.status)
      (λ q. (queued-grounded f r m h j q, waiting-Grounded f r ms h i))
      (λ q. waiting-Grounded f r ms h i)

Below-Without : (n k : ℕ) (ms : List MediaItem) → n ≤ k → Below n ms → Without k ms
Below-Without n k [] h b = tt
Below-Without n k (m ∷ ms) h (p, b) = ((λ e. omega (arith, p, h, e)), Below-Without n k ms h b)

scheduled-Sound :
    (n : ℕ) (s s' : Composer)
    → active s.media + n ≤ upload_concurrency
    → Ran
        (take n (waiting s.media))
        (record s { media = start (take n (waiting s.media)) s.media })
        s'
    → Sound s
    → Sound s'
unfolding start
scheduled-Sound n s s' h r v = record {
  few = rw (r.same, length-map (started taken) s.media) v.few;
  slots = omega (arith, up, h);
  below =
      rw (r.same, r.same_seq)
        (map-Below (started taken) s.item_seq s.media (λ m. ground arith) v.below);
  apart = rw r.same (map-Apart (started taken) s.media (λ m. ground arith) v.apart);
  items = rw r.same (
      All-map _ _ (started taken) (λ m q. started-Item taken s.running s'.running m r.runs q)
        s.media (All-both s.running n s.media s.media v.items (All-Match s.media v.apart)));
  fresh = λ k a l.
      let l' : s.item_seq ≤ k = subst (λ q. q ≤ k) r.same_seq l in
      let free : has_token taken (k, a) ≡ false =
        has_token-Without k a taken (
          All-take _ n _ (All-waiting _ s.media (Below-Without s.item_seq k s.media l' v.below))) in
      r.runs (k, a) ∙ rw free (v.fresh k a l');
  flights = λ t f e. flights t f e (has_token taken t) refl;
}
  where
    taken : List MediaItem
    taken = take n (waiting s.media)

    up : active s'.media ≤ active s.media + n
    up = subst (λ l. active l ≤ active s.media + n) (sym r.same) (active-start n s.media v.apart)

    flights :
        (t : Token)
        → s'.in_flight t ≡ true
        → s'.running t ≡ none
        → (b : Bool) → has_token taken t ≡ b
        → ⊥
    flights t f e true h =
        let never : none ≡ some false =
          sym e ∙ r.runs t ∙ ap (λ b. if b then some false else s.running t) h in
        ground (arith, never)
    flights t f e false h =
        v.flights t (sym (r.flights t ∙ ap (λ b. b || s.in_flight t) h) ∙ f)
          (sym (r.runs t ∙ ap (λ b. if b then some false else s.running t) h) ∙ e)

abbrev pub taken_from : Composer → List MediaItem
taken_from s = take (upload_concurrency - active s.media) (waiting s.media)

pub schedule-Ran :
    (s : Composer)
    → Sound s
    → Ran (taken_from s) (record s { media = start (taken_from s) s.media }) (schedule s)
unfolding schedule
schedule-Ran s v =
    run_all-Ran (taken_from s) (record s { media = start (taken_from s) s.media })
      (take-Apart _ _ (waiting-Apart s.media v.apart))
      (All-take _ _ _ (waiting-Grounded s.in_flight s.running s.media v.flights v.items))

pub schedule-Sound : (s : Composer) → Sound s → Sound (schedule s)
schedule-Sound s v =
    scheduled-Sound (upload_concurrency - active s.media) s (schedule s) (omega (arith, v.slots))
      (schedule-Ran s v) v
