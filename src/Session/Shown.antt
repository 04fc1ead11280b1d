-- ===== src/Session/Shown.antt =====
-- What the entry to the app relies on.
use thassa.Base.{false, ◌≡◌, true}
use thassa.Session.{Session, ready, is_some}

-- With the effects of the sign-in done, a session of a signed-in user whose status is ready has a
-- profile.
abbrev pub Shown : Session → Type 0
Shown s =
    s.effects_due ≡ false
    → s.is_ready ≡ true
    → s.is_signed_in ≡ true
    → s.status ≡ ready
    → is_some s.me ≡ true

record Kept (s : Session) : Type 0 where
  shown : Shown s
  ref : s.has_me ≡ is_some s.me
