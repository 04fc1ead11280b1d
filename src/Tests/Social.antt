-- ===== src/Tests/Social.antt =====
-- A private account that is followed, and two presses of the like button at once.
use thassa.Base.{◌≡◌, ◌↔◌, refl, true, false, codes, List, [], ◌∷◌, some}
use thassa.Social.{FollowTarget, Event, presses, succeeds, fails}
use thassa.Social.Follow.{
  label, mobile_label, mobile_initial, web_initial, mobile_run, web_run, mobile_step, web_step, act,
  acted, toggle, toggled,
}
use thassa.Social.Followed.{is_off, is_off_mobile, web-mobile}
use thassa.Social.Likes.{Mobile, Request, toggle_like, take_back}
use thassa.Social.Liked
use thassa.Social.Liked.{Counts, take_back-presses}

-- As the backend sends it: it has no `private`.
abbrev private_user : FollowTarget
private_user = record {
  is_private = true;
  is_private_web = false;
  is_following = false;
  follow_requested = false;
}

-- The follow is sent, a press meanwhile does nothing, and the next takes it back and fails.
abbrev events : List Event
events = presses ∷ presses ∷ succeeds ∷ presses ∷ fails ∷ []

still_requested :
    mobile_label (mobile_run private_user events (mobile_initial private_user)) ≡ codes "Requested"
unfolding mobile_step toggle toggled
still_requested = refl

-- The web client shows the same account as followed.
already_following :
    label (web_run private_user events (web_initial private_user)).state ≡ codes "Following"
unfolding web_step act acted
already_following = refl

web-mobile_example :
    let w = web_run private_user events (web_initial private_user) in
    let m = mobile_run private_user events (mobile_initial private_user) in
    (is_off w.state ≡ is_off_mobile m)
    × (w.sent ≡ m.sent)
    × (w.changes ≡ m.changes)
    × (w.busy ≡ m.busy)
web-mobile_example = web-mobile private_user events

-- Liked by three others.
abbrev card : Mobile
card = record { liked = false; ups = 3; downs = 0 }

abbrev like : Request
like = record { was = false; now = true }

like_sent : (toggle_like false card).1 ≡ some like
unfolding toggle_like
like_sent = refl

-- The like and then its end are under way, and the like fails: the heart is off, and the count is one
-- below the three.
drifted :
    let s : Mobile = take_back like (Liked.presses (false ∷ []) (toggle_like false card).0) in
    (s.liked ≡ false) × (s.ups ≡ 4) × (s.downs ≡ 2)
unfolding toggle_like take_back
drifted = (refl, refl, refl)

take_back-presses_example :
    Counts 3 (take_back like (Liked.presses (false ∷ []) (toggle_like false card).0))
    ↔ ((Liked.presses (false ∷ []) (toggle_like false card).0).liked ≡ true)
take_back-presses_example = take_back-presses 3 card false like (false ∷ []) refl like_sent
