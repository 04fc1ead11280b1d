-- ===== src/Create/Sound.antt =====
-- The composer's media and the runs that upload them are in step.
use thassa.Base.{
  ℕ, zero, suc, ◌+◌, ◌<◌, ◌≤◌, ◌≡◌, ◌≢◌, refl, sym, ap, ◌∙◌, inl, inr, if_cases, Bool, true, false,
  Text, List, [], ◌∷◌, length, map, Option, Option-cases, none, some, All, arith,
}
use thassa.Create.{MediaItem, Token, token_of, max_media, upload_concurrency}
use thassa.Create.Media.{same_token, active, item_at, drop_at, edited}
use thassa.Create.Lists.{
  Without, Apart, Below, KeepsKey, Starts, All-map, map-Apart, map-Below, length-map, active-map,
}
use thassa.Create.Places.{
  All-drop_at, drop_at-Apart, drop_at-Without, length-drop_at-le, active-drop_at-le,
}
use thassa.Create.Runs.{Runs, Item}
use thassa.Create.Uploads.{Composer, put, abort, aborted_run, remove_at}

pub record Sound (s : Composer) : Type 0 where
  pub few : length s.media ≤ max_media
  pub slots : active s.media ≤ upload_concurrency
  pub below : Below s.item_seq s.media
  pub apart : Apart s.media
  pub items : All (Item s.running) s.media
  pub fresh : (k a : ℕ) → s.item_seq ≤ k → s.running (k, a) ≡ none
  pub flights : (t : Token) → s.in_flight t ≡ true → s.running t ≢ none

-- The runs differ at most in one, which is there or not as before.
pub record Only (t : Token) (r r' : Runs) : Type 0 where
  pub other : (u : Token) → same_token u t ≡ false → r' u ≡ r u
  pub missing : (u : Token) → r u ≡ none → r' u ≡ none
  pub there : (u : Token) → r' u ≡ none → r u ≡ none

pub same_token_eq : (u t : Token) → same_token u t ≡ true → u ≡ t
same_token_eq (k, a) (j, b) h =
    let e : k ≡ j = ground (arith, h) in let f : a ≡ b = ground (arith, h) in rw (e, f) refl

not_aborted : (o : Option Bool) → aborted_run o ≡ none → o ≡ none
not_aborted none h = refl
not_aborted (some b) h = ground (arith, h)

pub same-Only : (t : Token) (r : Runs) → Only t r r
same-Only t r = record { other = λ u h. refl; missing = λ u h. h; there = λ u h. h }

pub put-Only : (t : Token) (r : Runs) → Only t r (put t (aborted_run (r t)) r)
unfolding put
put-Only t r = record {
  other = λ u h. rw h refl;
  missing = λ u h.
      if_cases (λ o. o ≡ none) (same_token u t)
        (λ e. ap aborted_run (sym (ap r (same_token_eq u t e)) ∙ h)) (λ e. h);
  there = λ u.
      if_cases (λ o. o ≡ none → r u ≡ none) (same_token u t)
        (λ e n. ap r (same_token_eq u t e) ∙ not_aborted (r t) n) (λ e n. n);
}

-- The runs of another key, or of a later attempt.
differs : (k a j b : ℕ) → j ≢ k → same_token (j, b) (k, a) ≡ false
differs k a j b h = ground (arith, h)

is_later : (k a b : ℕ) → a < b → same_token (k, b) (k, a) ≡ false
is_later k a b h = ground (arith, h)

pub Item-Only :
    (k a : ℕ) (r r' : Runs) (m : MediaItem) → Only (k, a) r r' → m.key ≢ k → Item r m → Item r' m
Item-Only k a r r' m o h i = record {
  current = o.other (m.key, m.attempt) (differs k a m.key m.attempt h) ∙ i.current;
  later = λ b l. o.missing (m.key, b) (i.later b l);
}

pub All-Item-Only :
    (k a : ℕ) (r r' : Runs) (ms : List MediaItem)
    → Only (k, a) r r'
    → Without k ms
    → All (Item r) ms
    → All (Item r') ms
All-Item-Only k a r r' [] o w i = tt
All-Item-Only k a r r' (m ∷ ms) o (n, w) (j, i) =
    (Item-Only k a r r' m o n j, All-Item-Only k a r r' ms o w i)

pub edited-Item :
    (r r' : Runs) (uri : Text) (m : MediaItem)
    → Only (token_of m) r r'
    → Item r m
    → Item r' (edited uri m)
edited-Item r r' uri m o i = record {
  current = o.missing (m.key, m.attempt + 1) (i.later (m.attempt + 1) (omega arith));
  later = λ b l. o.missing (m.key, b) (i.later b (omega (arith, l)));
}

-- Items that are changed in place, and runs of theirs that end.
pub map-Sound :
    (g : MediaItem → MediaItem) (s : Composer) (flight : Token → Bool) (controllers : Token → Bool)
    (r' : Runs)
    → KeepsKey g
    → Starts g
    → ((m : MediaItem) → Item s.running m → Item r' (g m))
    → ((u : Token) → s.running u ≡ none → r' u ≡ none)
    → ((u : Token) → flight u ≡ true → r' u ≢ none)
    → Sound s
    → Sound (record s {
      media = map g s.media;
      in_flight = flight;
      controllers = controllers;
      running = r';
    })
map-Sound g s flight controllers r' keeps starts item missing flights v = record {
  few = rw (length-map g s.media) v.few;
  slots = omega (arith, active-map g s.media starts, v.slots);
  below = map-Below g s.item_seq s.media keeps v.below;
  apart = map-Apart g s.media keeps v.apart;
  items = All-map _ _ g item s.media v.items;
  fresh = λ k a l. missing (k, a) (v.fresh k a l);
  flights = flights;
}

-- An item that is taken out.
dropped-Sound :
    (s : Composer) (i : ℕ) (m : MediaItem) (r' : Runs)
    → item_at i s.media ≡ some m
    → Only (token_of m) s.running r'
    → Sound s
    → Sound (record s { media = drop_at i s.media; running = r' })
dropped-Sound s i m r' h o v = record {
  few = omega (arith, length-drop_at-le i s.media, v.few);
  slots = omega (arith, active-drop_at-le i s.media, v.slots);
  below = All-drop_at _ i s.media v.below;
  apart = drop_at-Apart i s.media v.apart;
  items =
      All-Item-Only m.key m.attempt s.running r' (drop_at i s.media) o
        (drop_at-Without i s.media m h v.apart) (All-drop_at _ i s.media v.items);
  fresh = λ k a l. o.missing (k, a) (v.fresh k a l);
  flights = λ t f e. v.flights t f (o.there t e);
}

drop_at-none : (i : ℕ) (ms : List MediaItem) → item_at i ms ≡ none → drop_at i ms ≡ ms
unfolding drop_at item_at
drop_at-none i [] h = refl
drop_at-none zero (m ∷ ms) h = ground (arith, h)
drop_at-none (suc i) (m ∷ ms) h = ap (◌∷◌ m) (drop_at-none i ms h)

pub remove_at-Sound : (i : ℕ) (s : Composer) → Sound s → Sound (remove_at i s)
unfolding remove_at abort
remove_at-Sound i s v = elim (Option-cases (item_at i s.media)) [
  | inl h ↦ rw h (rw (drop_at-none i s.media h) v)
  | inr (m, h) ↦ rw h (
      if_cases (λ (s' : Composer). Sound (record s' { media = drop_at i s'.media }))
        (s.controllers (token_of m))
        (λ c. dropped-Sound s i m _ h (put-Only (token_of m) s.running) v)
        (λ c. dropped-Sound s i m s.running h (same-Only (token_of m) s.running) v))
]
