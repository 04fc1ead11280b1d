-- ===== src/Warp/Reloads.antt =====
-- The target over a restart.
use thassa.Base.{◌≡◌, refl, sym, arith, Bool, true, false, Text, List, [], ◌∷◌, Option, none, some}
use thassa.Api.{Outcome, returns}
use thassa.Create.Ids.{is_empty}
use thassa.Warp.{
  WarpTarget, Store, boot, keep, parsed, read, hydrate, web_hydrate, get_warp_target,
  set_warp_target, persist_warp_target, Event, reads, persists, step, run,
}

-- Targets that are set one after the other, `none` where one is cleared.
abbrev pub set_in_turn : List (Option WarpTarget) → List Event
set_in_turn [] = []
set_in_turn (t ∷ ts) = persists true t ∷ set_in_turn ts

module _ (parse : Text → Outcome (Option WarpTarget)) (write : WarpTarget → Text)
    (parse-write : (t : WarpTarget) → parse (write t) ≡ returns (some t))
    (is_empty-write : (t : WarpTarget) → is_empty (write t) ≡ false) where
  parsed-write : (t : WarpTarget) → parsed parse (write t) none ≡ some t
  unfolding parsed
  parsed-write t = rw (parse-write t, parsed) refl

  read-write : (t : WarpTarget) → read parse (some (write t)) none ≡ some t
  unfolding read
  read-write t = rw (is_empty-write t) (parsed-write t)

  read-none : read parse none none ≡ none
  unfolding read
  read-none = refl

  read-keep :
      (target : Option WarpTarget) (old : Option Text)
      → read parse (keep write true target old) none ≡ target
  unfolding keep
  read-keep none old = read-none
  read-keep (some t) old = read-write t

  run-stored :
      (ts : List (Option WarpTarget)) (s : Store)
      → s.current ≡ read parse s.stored none
      → (run parse write (set_in_turn ts) s).current
        ≡ read parse (run parse write (set_in_turn ts) s).stored none
  unfolding step persist_warp_target
  run-stored [] s e = e
  run-stored (t ∷ ts) s e =
      run-stored ts (step parse write (persists true t) s) (sym (read-keep t s.stored))

  -- Where the writes work, the JSON of a target is not empty and reads as that target, and the first
  -- read has answered before a target is set: after a restart, once the read has answered, the target
  -- is the one there was.
  pub run-restart :
      (stored : Option Text) (ts : List (Option WarpTarget))
      → (let before = run parse write (reads (returns stored) ∷ set_in_turn ts) (boot stored) in
          (run parse write (reads (returns before.stored) ∷ []) (boot before.stored)).current
          ≡ before.current)
  unfolding step hydrate
  run-restart stored ts = sym (run-stored ts _ refl)

  web_hydrate-hydrated : (works : Bool) (s : Store) → (web_hydrate parse works s).hydrated ≡ true
  unfolding web_hydrate
  web_hydrate-hydrated works s = ground arith

  -- The same of the web client, for a target whose id is not empty: it is the one that was set.
  pub get_warp_target-restart :
      (s : Store) (t : WarpTarget)
      → is_empty t.id ≡ false
      → (let after = set_warp_target parse write true (some t) s in
          (get_warp_target parse true after ≡ some t)
          × (get_warp_target parse true (boot after.stored) ≡ some t))
  unfolding get_warp_target set_warp_target web_hydrate keep
  get_warp_target-restart s t e = (rw (web_hydrate-hydrated true s) refl, rw (read-write t, e) refl)
