-- ===== src/Social/Followed.antt =====
-- The two follow buttons do the same.
use thassa.Base.{
  ◌||◌, not, arith, ◌≡◌, refl, ap, ◌∙◌, Bool, true, false, List, [], ◌∷◌, Option, none, some,
}
use thassa.Social.{FollowTarget, Event, presses, succeeds, fails}
use thassa.Social.Follow.{
  Follow, not_followed, requested, following, label, Mobile, Web, mobile_label, mobile_initial,
  web_initial, toggle, toggled, act, acted, mobile_step, web_step, mobile_run, web_run,
}

-- Whether the label is `Follow`.
abbrev pub is_off : Follow → Bool
is_off not_followed = true
is_off requested = false
is_off following = false

abbrev pub is_off_mobile : Mobile → Bool
is_off_mobile m = not (m.following || m.requested)

abbrev saved_off : Option Follow → Option Bool
saved_off none = none
saved_off (some f) = some (is_off f)

abbrev saved_off_mobile : Option (Bool × Bool) → Option Bool
saved_off_mobile none = none
saved_off_mobile (some p) = some (not (p.0 || p.1))

-- What the two buttons have in common, whatever each takes for a private account.
record Agree (w : Web) (m : Mobile) : Type 0 where
  off : is_off w.state ≡ is_off_mobile m
  busy : w.busy ≡ m.busy
  saved : saved_off w.saved ≡ saved_off_mobile m.saved
  sent : w.sent ≡ m.sent
  changes : w.changes ≡ m.changes

act-Agree :
    (user : FollowTarget) (w : Web) (m : Mobile) → Agree w m → Agree (act user w) (toggle user m)
unfolding act toggle
act-Agree user w m a = record {
  off = ground (arith, a.off, a.busy);
  busy = ground (arith, a.off, a.busy);
  saved = ground (arith, a.off, a.busy, a.saved);
  sent = ground (arith, a.off, a.busy, a.sent);
  changes = ground (arith, a.off, a.busy, a.changes);
}

acted-Agree : (ok : Bool) (w : Web) (m : Mobile) → Agree w m → Agree (acted ok w) (toggled ok m)
unfolding acted toggled
acted-Agree ok w m a = record {
  off = ground (arith, a.off, a.saved);
  busy = ground (arith, a.busy, a.saved);
  saved = ground (arith, a.saved);
  sent = ground (arith, a.sent, a.saved);
  changes = ground (arith, a.changes, a.saved);
}

step-Agree :
    (user : FollowTarget) (e : Event) (w : Web) (m : Mobile)
    → Agree w m
    → Agree (web_step user e w) (mobile_step user e m)
unfolding web_step mobile_step
step-Agree user presses w m a = act-Agree user w m a
step-Agree user succeeds w m a = acted-Agree true w m a
step-Agree user fails w m a = acted-Agree false w m a

run-Agree :
    (user : FollowTarget) (es : List Event) (w : Web) (m : Mobile)
    → Agree w m
    → Agree (web_run user es w) (mobile_run user es m)
run-Agree user [] w m a = a
run-Agree user (e ∷ es) w m a =
    run-Agree user es (web_step user e w) (mobile_step user e m) (step-Agree user e w m a)

initial-Agree : (user : FollowTarget) → Agree (web_initial user) (mobile_initial user)
initial-Agree user = record {
  off = ground arith;
  busy = refl;
  saved = refl;
  sent = refl;
  changes = refl;
}

-- For any user, presses and answers in any order, whatever each client takes for private: the two
-- buttons say `Follow` at the same times, send the same requests, report as many changes and are
-- busy at the same times.
pub web-mobile :
    (user : FollowTarget) (es : List Event)
    → let w = web_run user es (web_initial user) in
      let m = mobile_run user es (mobile_initial user) in
      (is_off w.state ≡ is_off_mobile m)
      × (w.sent ≡ m.sent)
      × (w.changes ≡ m.changes)
      × (w.busy ≡ m.busy)
web-mobile user es =
    let a = run-Agree user es (web_initial user) (mobile_initial user) (initial-Agree user) in
    (a.off, a.sent, a.changes, a.busy)

-- The state that the two flags of the mobile button stand for.
abbrev pub shown : Bool → Bool → Follow
shown true r = following
shown false true = requested
shown false false = not_followed

abbrev shown_both : Bool × Bool → Follow
shown_both p = shown p.0 p.1

abbrev shown_saved : Option (Bool × Bool) → Option Follow
shown_saved none = none
shown_saved (some p) = some (shown_both p)

-- The web button with the state of the mobile one.
abbrev web_of : Mobile → Web
web_of m = record {
  state = shown m.following m.requested;
  busy = m.busy;
  saved = shown_saved m.saved;
  sent = m.sent;
  changes = m.changes;
}

act-web_of :
    (user : FollowTarget) (m : Mobile)
    → user.is_private_web ≡ user.is_private
    → act user (web_of m) ≡ web_of (toggle user m)
unfolding act toggle
act-web_of user m p = ground (arith, p)

acted-web_of : (ok : Bool) (m : Mobile) → acted ok (web_of m) ≡ web_of (toggled ok m)
unfolding acted toggled
acted-web_of ok m = ground arith

label-shown : (m : Mobile) → label (shown m.following m.requested) ≡ mobile_label m
label-shown m = ground arith

module _ (user : FollowTarget) (p : user.is_private_web ≡ user.is_private) where
  step-web_of :
      (e : Event) (m : Mobile) → web_step user e (web_of m) ≡ web_of (mobile_step user e m)
  unfolding web_step mobile_step
  step-web_of presses m = act-web_of user m p
  step-web_of succeeds m = acted-web_of true m
  step-web_of fails m = acted-web_of false m

  run-web_of :
      (es : List Event) (m : Mobile) → web_run user es (web_of m) ≡ web_of (mobile_run user es m)
  run-web_of [] m = refl
  run-web_of (e ∷ es) m =
      ap (web_run user es) (step-web_of e m) ∙ run-web_of es (mobile_step user e m)

  initial-web_of : web_initial user ≡ web_of (mobile_initial user)
  initial-web_of = ground arith

  -- Where both take the account for private, or both for public, the labels are the same, too.
  web_label-mobile_label :
      (es : List Event)
      → label (web_run user es (web_initial user)).state
        ≡ mobile_label (mobile_run user es (mobile_initial user))
  web_label-mobile_label es =
      ap (λ (w : Web). label w.state)
        (ap (web_run user es) initial-web_of ∙ run-web_of es (mobile_initial user))
      ∙ label-shown (mobile_run user es (mobile_initial user))
