-- ===== src/Create/Edits.antt =====
-- A photo that is edited: its upload is aborted, and the result uploads as another attempt.
use mathlib.Core.Path.{subst}
use thassa.Base.{
  ℕ, zero, suc, ◌<◌, ◌≤◌, ◌≡◌, ◌≢◌, refl, sym, ap, inl, inr, if_cases, Text, List, [], ◌∷◌, length,
  Option-cases, none, some, All, arith,
}
use thassa.Create.{MediaItem, token_of}
use thassa.Create.Media.{active, item_at, edit_at, edited}
use thassa.Create.Lists.{Apart, active-cons}
use thassa.Create.Places.{All-item_at, the_same}
use thassa.Create.Runs.{Runs, Item}
use thassa.Create.Sound.{Sound, Only, put-Only, same-Only, edited-Item, All-Item-Only, Item-Only}
use thassa.Create.Uploads.{Composer, abort, apply_edit}

-- What holds of the keys holds after an edit.
All-edit_at :
    (P : ℕ → Type 0) (i : ℕ) (uri : Text) (ms : List MediaItem)
    → All (λ m. P m.key) ms
    → All (λ m. P m.key) (edit_at i uri ms)
unfolding edit_at
All-edit_at P i uri [] a = tt
All-edit_at P zero uri (m ∷ ms) a = a
All-edit_at P (suc i) uri (m ∷ ms) (p, a) = (p, All-edit_at P i uri ms a)

edit_at-Apart : (i : ℕ) (uri : Text) (ms : List MediaItem) → Apart ms → Apart (edit_at i uri ms)
unfolding edit_at
edit_at-Apart i uri [] a = tt
edit_at-Apart zero uri (m ∷ ms) a = a
edit_at-Apart (suc i) uri (m ∷ ms) (w, a) =
    (All-edit_at (λ k. k ≢ m.key) i uri ms w, edit_at-Apart i uri ms a)

length-edit_at : (i : ℕ) (uri : Text) (ms : List MediaItem) → length (edit_at i uri ms) ≡ length ms
unfolding edit_at
length-edit_at i uri [] = refl
length-edit_at zero uri (m ∷ ms) = refl
length-edit_at (suc i) uri (m ∷ ms) = ap suc (length-edit_at i uri ms)

active-edit_at : (i : ℕ) (uri : Text) (ms : List MediaItem) → active (edit_at i uri ms) ≤ active ms
unfolding edit_at
active-edit_at i uri [] = omega arith
active-edit_at zero uri (m ∷ ms) =
    rw (active-cons (edited uri m) ms, active-cons m ms) (omega arith)
active-edit_at (suc i) uri (m ∷ ms) =
    rw (active-cons m (edit_at i uri ms), active-cons m ms) (omega (arith, active-edit_at i uri ms))

edit_at-Item :
    (r r' : Runs) (i : ℕ) (uri : Text) (ms : List MediaItem) (m : MediaItem)
    → item_at i ms ≡ some m
    → Only (token_of m) r r'
    → Apart ms
    → All (Item r) ms
    → All (Item r') (edit_at i uri ms)
unfolding edit_at item_at
edit_at-Item r r' i uri [] m h o a j = tt
edit_at-Item r r' zero uri (x ∷ ms) m h o (w, a) (j, k) =
    let q : Only (token_of x) r r' = subst (λ y. Only (token_of y) r r') (sym (the_same x m h)) o in
    (edited-Item r r' uri x q j, All-Item-Only x.key x.attempt r r' ms q w k)
edit_at-Item r r' (suc i) uri (x ∷ ms) m h o (w, a) (j, k) = (
  Item-Only m.key m.attempt r r' x o (λ e. All-item_at (λ y. y.key ≢ x.key) i ms m h w (sym e)) j,
  edit_at-Item r r' i uri ms m h o a k,
)

edited-Sound :
    (s : Composer) (i : ℕ) (uri : Text) (m : MediaItem) (r' : Runs)
    → item_at i s.media ≡ some m
    → Only (token_of m) s.running r'
    → Sound s
    → Sound (record s { media = edit_at i uri s.media; running = r' })
edited-Sound s i uri m r' h o v = record {
  few = rw (length-edit_at i uri s.media) v.few;
  slots = omega (arith, active-edit_at i uri s.media, v.slots);
  below = All-edit_at (λ k. k < s.item_seq) i uri s.media v.below;
  apart = edit_at-Apart i uri s.media v.apart;
  items = edit_at-Item s.running r' i uri s.media m h o v.apart v.items;
  fresh = λ k a l. o.missing (k, a) (v.fresh k a l);
  flights = λ t f e. v.flights t f (o.there t e);
}

edit_at-none :
    (i : ℕ) (uri : Text) (ms : List MediaItem) → item_at i ms ≡ none → edit_at i uri ms ≡ ms
unfolding edit_at item_at
edit_at-none i uri [] h = refl
edit_at-none zero uri (m ∷ ms) h = ground (arith, h)
edit_at-none (suc i) uri (m ∷ ms) h = ap (◌∷◌ m) (edit_at-none i uri ms h)

pub apply_edit-Sound : (i : ℕ) (uri : Text) (s : Composer) → Sound s → Sound (apply_edit i uri s)
unfolding apply_edit abort
apply_edit-Sound i uri s v = elim (Option-cases (item_at i s.media)) [
  | inl h ↦ rw h (rw (edit_at-none i uri s.media h) v)
  | inr (m, h) ↦ rw h (
      if_cases (λ (s' : Composer). Sound (record s' { media = edit_at i uri s'.media }))
        (s.controllers (token_of m))
        (λ c. edited-Sound s i uri m _ h (put-Only (token_of m) s.running) v)
        (λ c. edited-Sound s i uri m s.running h (same-Only (token_of m) s.running) v))
]
