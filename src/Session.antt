-- ===== src/Session.antt =====
-- The session of the mobile client: mobile/lib/session.tsx. What the provider holds is one state; the
-- sign-in, the answers of the backend, the frames of the user's channel and the app's return to the
-- foreground are events, in any order.
pub mod Shown
use thassa.Base.{
  ℕ, zero, suc, ◌&&◌, not, or_else, if◌then◌else◌, Bool, true, false, Text, text_eq, codes, List,
  [], ◌∷◌, Option, none, some,
}
use thassa.Api.{Outcome, returns, throws}

pub data Status : Type 0 where
  loading : Status
  ready : Status
  error : Status

pub record Me : Type 0 where
  pub id : Text
  pub username : Option Text
  pub onboarded : Option Bool
  pub wallet_address : Option Text

-- `has_me` is `hasMeRef`, `pinned` what `setCachePinnedIdentity` was given last, and `socket_on`
-- whether `startSocket` was called last, or `stopSocket`. `loads` and `links` count the requests of
-- `load` that are under way: those of the profile and those that register the wallet. `effects_due`
-- says that the sign-in has changed and was rendered, and that the effects on it have not run yet.
pub record Session : Type 0 where
  pub me : Option Me
  pub status : Status
  pub unread_notifications : ℕ
  pub unread_messages : ℕ
  pub has_me : Bool
  pub is_ready : Bool
  pub is_signed_in : Bool
  pub embedded_address : Option Text
  pub pinned : Option Text
  pub socket_on : Bool
  pub loads : ℕ
  pub links : ℕ
  pub effects_due : Bool

abbrev pub initial : Session
initial = record {
  me = none;
  status = loading;
  unread_notifications = 0;
  unread_messages = 0;
  has_me = false;
  is_ready = false;
  is_signed_in = false;
  embedded_address = none;
  pinned = none;
  socket_on = false;
  loads = 0;
  links = 0;
  effects_due = false;
}

abbrev pub is_some : Option Me → Bool
is_some none = false
is_some (some m) = true

-- A text that is there and not empty counts as true.
abbrev pub is_given : Option Text → Bool
is_given none = false
is_given (some []) = false
is_given (some (c ∷ t)) = true

abbrev pub is_status_ready : Status → Bool
is_status_ready loading = false
is_status_ready ready = true
is_status_ready error = false

-- `load` up to its request.
unfoldable pub load : Session → Session
load s = record s {
  status = if is_status_ready s.status && s.has_me then s.status else loading;
  loads = suc s.loads;
}

-- The rest of `load`.
unfoldable pub loaded : Outcome Me → Session → Session
loaded (throws e) s = record s { status = error }
loaded (returns me) s = record s {
  me = some me;
  links =
      if not (is_given me.wallet_address) && is_given s.embedded_address
      then suc s.links
      else s.links;
  pinned = me.username;
  status = ready;
}

unfoldable pub linked : Outcome Me → Session → Session
linked (throws e) s = s
linked (returns me) s = record s { me = some me }

unfoldable pub answer_load : ℕ → Outcome Me → Session → Session
answer_load zero o s = s
answer_load (suc n) o s = loaded o (record s { loads = n })

unfoldable pub answer_link : ℕ → Outcome Me → Session → Session
answer_link zero o s = s
answer_link (suc n) o s = linked o (record s { links = n })

-- The effect on `isReady` and `isSignedIn`.
unfoldable pub sync : Session → Session
sync s =
    if not s.is_ready
    then s
    else if not s.is_signed_in
    then record s { status = ready; me = none; pinned = none }
    else load s

abbrev pub same : Bool → Bool → Bool
same true b = b
same false b = not b

-- The effects run, where they are due: those on `isSignedIn` alone start and stop the socket.
unfoldable pub effects : Session → Session
effects s =
    if s.effects_due then sync (record s { socket_on = s.is_signed_in; effects_due = false }) else s

-- A render with another `isReady` or `isSignedIn`. Effects that are still due run before it.
unfoldable pub auth_changes : Bool → Bool → Session → Session
auth_changes r i s =
    let t : Session = effects s in
    if same r t.is_ready && same i t.is_signed_in
    then t
    else record t { is_ready = r; is_signed_in = i; effects_due = true }

-- The handler of the user's channel, on its own state.
unfoldable pub notified : Text → Session → Session
notified kind s =
    if text_eq kind (codes "dm.message")
    then record s { unread_messages = suc s.unread_messages }
    else record s { unread_notifications = suc s.unread_notifications }

-- `refreshBadges`, once it is answered.
unfoldable pub badges : Option ℕ → Option ℕ → Session → Session
badges notifications messages s = record s {
  unread_notifications = or_else notifications 0;
  unread_messages = or_else messages 0;
}

unfoldable pub set_me : (Me → Me) → Session → Session
set_me updater s = record s { me = elim s.me [ none ↦ none | some m ↦ some (updater m) ] }

-- `needsOnboarding`.
unfoldable pub needs_onboarding : Option Me → Bool
needs_onboarding none = false
needs_onboarding (some m) = not (or_else m.onboarded (is_given m.username))

-- `auth` is a render with `isReady` and `isSignedIn`, `runs_effects` what follows it, `wallet` one of the embedded wallet's address,
-- `foregrounds` the app's return, and `refreshes` a call of `refresh`.
pub data Event : Type 0 where
  auth : Bool → Bool → Event
  runs_effects : Event
  wallet : Option Text → Event
  answers : Outcome Me → Event
  links_answer : Outcome Me → Event
  foregrounds : Event
  refreshes : Event
  notifies : Text → Event
  counts : Option ℕ → Option ℕ → Event
  updates : (Me → Me) → Event

unfoldable pub handle : Event → Session → Session
handle (auth r i) s = auth_changes r i s
handle runs_effects s = effects s
handle (wallet a) s = record s { embedded_address = a }
handle (answers o) s = answer_load s.loads o s
handle (links_answer o) s = answer_link s.links o s
handle foregrounds s = if s.is_signed_in then load s else s
handle refreshes s = load s
handle (notifies kind) s = notified kind s
handle (counts n m) s = badges n m s
handle (updates f) s = set_me f s

-- After each event the provider renders, and `hasMeRef` follows.
unfoldable pub step : Event → Session → Session
step e s = let t = handle e s in record t { has_me = is_some t.me }

abbrev pub run : List Event → Session → Session
run [] s = s
run (e ∷ es) s = run es (step e s)
