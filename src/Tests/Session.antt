-- ===== src/Tests/Session.antt =====
-- A sign-out while the profile is on its way.
use thassa.Base.{◌≡◌, refl, true, false, codes, List, [], ◌∷◌, none, some}
use thassa.Api.{returns}
use thassa.Session.{
  Session, Me, ready, initial, load, loaded, answer_load, sync, effects, auth_changes, Event, auth,
  runs_effects, answers, refreshes, handle, step, run,
}

abbrev ann : Me
ann = record { id = codes "u1"; username = none; onboarded = none; wallet_address = none }

abbrev signed_in : List Event
signed_in = auth true true ∷ runs_effects ∷ answers (returns ann) ∷ refreshes ∷ []

-- A sign-in is rendered with the status of before it, ready and without a profile.
in_between :
    let s : Session = run (auth true false ∷ runs_effects ∷ auth true true ∷ []) initial in
    (s.is_signed_in ≡ true) × (s.status ≡ ready) × (s.me ≡ none)
unfolding step handle auth_changes effects sync
in_between = (refl, refl, refl)

-- The profile comes after the sign-out: the session has the user's profile again.
late_profile :
    let s : Session =
      run
        (auth true true
          ∷ runs_effects
          ∷ auth true false
          ∷ runs_effects
          ∷ answers (returns ann)
          ∷ [])
        initial in
    (s.is_signed_in ≡ false) × (s.me ≡ some ann)
unfolding step handle auth_changes effects sync load answer_load loaded
late_profile = (refl, refl)
