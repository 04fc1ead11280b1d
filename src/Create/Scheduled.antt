-- ===== src/Create/Scheduled.antt =====
-- The scheduler starts one run for each item that it takes from the queue.
use thassa.Base.{
  ℕ, ◌≡◌, refl, ◌∙◌, ◌||◌, if◌then◌else◌, Bool, true, false, List, [], ◌∷◌, some, All, arith,
}
use thassa.Create.{MediaItem, Token, token_of}
use thassa.Create.Media.{same_token, has_token}
use thassa.Create.Lists.{Without, Apart}
use thassa.Create.Runs.{Runs, put_other}
use thassa.Create.Uploads.{Composer, put, run_upload, run_all}

-- Nothing of the media is in flight.
abbrev pub Grounded : (Token → Bool) → List MediaItem → Type 0
Grounded f = All (λ m. f (token_of m) ≡ false)

Grounded-put :
    (k a : ℕ) (f : Token → Bool) (ms : List MediaItem)
    → Without k ms
    → Grounded f ms
    → Grounded (put (k, a) true f) ms
Grounded-put k a f [] w g = tt
Grounded-put k a f (m ∷ ms) (n, w) (e, g) =
    (put_other k a true f m.key m.attempt n ∙ e, Grounded-put k a f ms w g)

run_upload-fresh :
    (m : MediaItem) (s : Composer)
    → s.in_flight (token_of m) ≡ false
    → run_upload m s ≡ record s {
      in_flight = put (token_of m) true s.in_flight;
      controllers = put (token_of m) true s.controllers;
      running = put (token_of m) (some false) s.running;
    }
unfolding run_upload
run_upload-fresh m s h = rw h refl

-- What `run_all` comes to.
pub record Ran (ms : List MediaItem) (s s' : Composer) : Type 0 where
  pub same : s'.media ≡ s.media
  pub same_seq : s'.item_seq ≡ s.item_seq
  pub runs : (u : Token) → s'.running u ≡ (if has_token ms u then some false else s.running u)
  pub flights : (u : Token) → s'.in_flight u ≡ (has_token ms u || s.in_flight u)

same_token_comm : (u t : Token) → same_token u t ≡ same_token t u
same_token_comm (k, a) (j, b) = ground arith

put_merge :
    (m : MediaItem) (ms : List MediaItem) (r : Runs) (u : Token)
    → (if has_token ms u then some false else put (token_of m) (some false) r u)
      ≡ (if has_token (m ∷ ms) u then some false else r u)
unfolding put has_token
put_merge m ms r u =
    rw (same_token_comm u (token_of m)) (merge (has_token ms u) (same_token (token_of m) u))
  where
    merge :
        (b c : Bool)
        → (if b then some false else (if c then some false else r u))
          ≡ (if (if c then true else b) then some false else r u)
    merge true true = refl
    merge true false = refl
    merge false true = refl
    merge false false = refl

put_or :
    (m : MediaItem) (ms : List MediaItem) (f : Token → Bool) (u : Token)
    → (has_token ms u || put (token_of m) true f u) ≡ (has_token (m ∷ ms) u || f u)
unfolding put has_token
put_or m ms f u =
    rw (same_token_comm u (token_of m)) (merge (has_token ms u) (same_token (token_of m) u))
  where
    merge : (b c : Bool) → (b || (if c then true else f u)) ≡ ((if c then true else b) || f u)
    merge true true = refl
    merge true false = refl
    merge false true = refl
    merge false false = refl

pub run_all-Ran :
    (ms : List MediaItem) (s : Composer)
    → Apart ms
    → Grounded s.in_flight ms
    → Ran ms s (run_all ms s)
unfolding run_all has_token
run_all-Ran [] s a g = record {
  same = refl;
  same_seq = refl;
  runs = λ u. refl;
  flights = λ u. refl;
}
run_all-Ran (m ∷ ms) s (w, a) (e, g) =
    let s' : Composer = record s {
      in_flight = put (token_of m) true s.in_flight;
      controllers = put (token_of m) true s.controllers;
      running = put (token_of m) (some false) s.running;
    } in
    let rest = run_all-Ran ms s' a (Grounded-put m.key m.attempt s.in_flight ms w g) in
    rw (run_upload-fresh m s e) (record {
      same = rest.same;
      same_seq = rest.same_seq;
      runs = λ u. rest.runs u ∙ put_merge m ms s.running u;
      flights = λ u. rest.flights u ∙ put_or m ms s.in_flight u;
    })
