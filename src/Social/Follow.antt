-- ===== src/Social/Follow.antt =====
-- mobile/components/FollowButton.tsx and web/components/FollowButton.tsx. `saved` is what the handler
-- keeps for a failure, while it waits for its request.
use thassa.Base.{
  ℕ, ◌+◌, Bool, true, false, ◌||◌, if◌then◌else◌, Text, codes, List, [], ◌∷◌, ◌++◌, Option, none,
  some,
}
use thassa.Social.{FollowTarget, Request, follow, unfollow, Event, presses, succeeds, fails}

pub data Follow : Type 0 where
  not_followed : Follow
  requested : Follow
  following : Follow

-- The label of the buttons.
abbrev pub label : Follow → Text
label not_followed = codes "Follow"
label requested = codes "Requested"
label following = codes "Following"

pub record Mobile : Type 0 where
  pub following : Bool
  pub requested : Bool
  pub busy : Bool
  pub saved : Option (Bool × Bool)
  pub sent : List Request
  pub changes : ℕ

pub record Web : Type 0 where
  pub state : Follow
  pub busy : Bool
  pub saved : Option Follow
  pub sent : List Request
  pub changes : ℕ

abbrev pub mobile_label : Mobile → Text
mobile_label s =
    if s.following
    then codes "Following"
    else if s.requested
    then codes "Requested"
    else codes "Follow"

abbrev pub mobile_initial : FollowTarget → Mobile
mobile_initial user = record {
  following = user.is_following;
  requested = user.follow_requested;
  busy = false;
  saved = none;
  sent = [];
  changes = 0;
}

abbrev pub web_initial : FollowTarget → Web
web_initial user = record {
  state =
      if user.is_following
      then following
      else if user.follow_requested
      then requested
      else not_followed;
  busy = false;
  saved = none;
  sent = [];
  changes = 0;
}

-- `toggle` up to its request.
unfoldable pub toggle : FollowTarget → Mobile → Mobile
toggle user s =
    if s.busy
    then s
    else if s.following || s.requested
    then record s {
      following = false;
      requested = false;
      busy = true;
      saved = some (s.following, s.requested);
      sent = s.sent ++ (unfollow ∷ []);
    }
    else if user.is_private
    then record s {
      requested = true;
      busy = true;
      saved = some (s.following, s.requested);
      sent = s.sent ++ (follow ∷ []);
    }
    else record s {
      following = true;
      busy = true;
      saved = some (s.following, s.requested);
      sent = s.sent ++ (follow ∷ []);
    }

-- The rest of `toggle`.
unfoldable pub toggled : Bool → Mobile → Mobile
toggled ok s = elim s.saved [
  | none ↦ s
  | some was ↦
      if ok
      then record s { busy = false; saved = none; changes = s.changes + 1 }
      else record s { following = was.0; requested = was.1; busy = false; saved = none }
]

-- `act` up to its request.
unfoldable pub act : FollowTarget → Web → Web
act user s = if s.busy then s else elim s.state [
  | not_followed ↦ record s {
    state = if user.is_private_web then requested else following;
    busy = true;
    saved = some s.state;
    sent = s.sent ++ (follow ∷ []);
  }
  | requested ↦ record s {
    state = not_followed;
    busy = true;
    saved = some s.state;
    sent = s.sent ++ (unfollow ∷ []);
  }
  | following ↦ record s {
    state = not_followed;
    busy = true;
    saved = some s.state;
    sent = s.sent ++ (unfollow ∷ []);
  }
]

-- The rest of `act`.
unfoldable pub acted : Bool → Web → Web
acted ok s = elim s.saved [
  | none ↦ s
  | some prev ↦
      if ok
      then record s { busy = false; saved = none; changes = s.changes + 1 }
      else record s { state = prev; busy = false; saved = none }
]

unfoldable pub mobile_step : FollowTarget → Event → Mobile → Mobile
mobile_step user presses s = toggle user s
mobile_step user succeeds s = toggled true s
mobile_step user fails s = toggled false s

unfoldable pub web_step : FollowTarget → Event → Web → Web
web_step user presses s = act user s
web_step user succeeds s = acted true s
web_step user fails s = acted false s

abbrev pub mobile_run : FollowTarget → List Event → Mobile → Mobile
mobile_run user [] s = s
mobile_run user (e ∷ es) s = mobile_run user es (mobile_step user e s)

abbrev pub web_run : FollowTarget → List Event → Web → Web
web_run user [] s = s
web_run user (e ∷ es) s = web_run user es (web_step user e s)
