-- ===== src/Tests/Warp.antt =====
-- A target before and after a restart, and one that is set before the first read has answered.
use thassa.Base.{
  ℕ, zero, suc, ◌≡◌, refl, true, false, Text, codes, List, [], ◌∷◌, Option, none, some,
}
use thassa.Api.{Outcome, returns}
use thassa.Create.Ids.{is_empty}
use thassa.Warp.{
  WarpTarget, boot, keep, parsed, read, hydrate, persist_warp_target, reads, persists, step, run,
}
use thassa.Warp.Reloads.{set_in_turn, run-restart}

-- A text that ends with 0 and has 1 before each of its characters, and one that may be missing.
abbrev put : Text → List ℕ → List ℕ
put [] r = 0 ∷ r
put (c ∷ t) r = 1 ∷ c ∷ put t r

abbrev get : List ℕ → Text × List ℕ
get [] = ([], [])
get (zero ∷ r) = ([], r)
get (suc n ∷ []) = ([], [])
get (suc n ∷ c ∷ r) = (c ∷ (get r).0, (get r).1)

abbrev put_option : Option Text → List ℕ → List ℕ
put_option none r = 0 ∷ r
put_option (some t) r = 1 ∷ put t r

abbrev get_option : List ℕ → Option Text × List ℕ
get_option [] = (none, [])
get_option (zero ∷ r) = (none, r)
get_option (suc n ∷ r) = (some (get r).0, (get r).1)

abbrev write : WarpTarget → Text
write t = put t.id (put_option t.username (put_option t.email (put_option t.avatar_url [])))

abbrev parse : Text → Outcome (Option WarpTarget)
parse raw =
    let id = get raw in
    let username = get_option id.1 in
    let email = get_option username.1 in
    returns (
      some (record {
        id = id.0;
        username = username.0;
        email = email.0;
        avatar_url = (get_option email.1).0;
      }))

get-put : (t : Text) (r : List ℕ) → get (put t r) ≡ (t, r)
get-put [] r = refl
get-put (c ∷ t) r = rw (get-put t r) refl

get_option-put_option : (o : Option Text) (r : List ℕ) → get_option (put_option o r) ≡ (o, r)
get_option-put_option none r = refl
get_option-put_option (some t) r = rw (get-put t r) refl

parse-write : (t : WarpTarget) → parse (write t) ≡ returns (some t)
parse-write t =
    rw
      (
        get-put t.id _,
        get_option-put_option t.username _,
        get_option-put_option t.email _,
        get_option-put_option t.avatar_url [],
      )
      refl

is_empty-put : (t : Text) (r : List ℕ) → is_empty (put t r) ≡ false
is_empty-put [] r = refl
is_empty-put (c ∷ t) r = refl

abbrev ann : WarpTarget
ann = record { id = codes "u1"; username = some (codes "ann"); email = none; avatar_url = none }

abbrev bob : WarpTarget
bob = record { id = codes "u2"; username = none; email = none; avatar_url = none }

run-restart_example :
    (run parse write (reads (returns (some (write bob))) ∷ []) (boot (some (write bob)))).current
    ≡ (run parse write
        (reads (returns (some (write ann))) ∷ set_in_turn (none ∷ some bob ∷ []))
        (boot (some (write ann)))).current
unfolding step persist_warp_target keep
run-restart_example =
    run-restart parse write parse-write (λ t. is_empty-put t.id _) (some (write ann))
      (none ∷ some bob ∷ [])

-- The read of a target of the last time answers after a new one was set, and takes its place.
late :
    (run parse write
      (persists true (some bob) ∷ reads (returns (some (write ann))) ∷ [])
      (boot (some (write ann)))).current
    ≡ some ann
unfolding step persist_warp_target hydrate read parsed
late = refl
