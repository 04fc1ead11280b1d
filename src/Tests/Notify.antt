-- ===== src/Tests/Notify.antt =====
-- A mention on a market, and four toasts.
use thassa.Base.{◌≡◌, ◌↔◌, refl, true, false, codes, List, [], ◌∷◌, none, some}
use thassa.Notify.{Notification, find_kind, kind_of, given}
use thassa.Notify.Mobile.{
  Toast, href_of, path_or, data_of, notification_href, toast_of, toast_for_notification, row_href,
}
use thassa.Notify.Agree.{same_place, toast_for_notification-notification_href}
use thassa.Notify.Toasts.{Event, shows, ends, initial, run}
use thassa.Notify.Stacked.{Stacked, run-Stacked}

abbrev mention : Notification
mention = record {
  kind = codes "post.mention";
  title = none;
  body = none;
  username = some (codes "ann");
  own_username = none;
  post_id = some (codes "p1");
  market_id = some (codes "m1");
  conversation_id = none;
}

abbrev toast : Toast
toast = record {
  title = codes "@ann mentioned you";
  body = none;
  icon = codes "at";
  href = some (codes "/post/p1");
}

mentioned : toast_for_notification mention ≡ some toast
unfolding toast_for_notification toast_of kind_of find_kind given path_or
mentioned = refl

toast_for_notification-notification_href_example :
    (some (codes "/post/p1") ≡ notification_href (some (data_of mention)))
    ↔ (same_place (kind_of mention.kind) true true false true false ≡ true)
unfolding given
toast_for_notification-notification_href_example =
    toast_for_notification-notification_href mention toast mentioned

-- A request to follow: the toast leads to the list, the push to the user.
abbrev requested : Notification
requested = record {
  kind = codes "follow.request";
  title = none;
  body = none;
  username = some (codes "ann");
  own_username = none;
  post_id = none;
  market_id = none;
  conversation_id = none;
}

apart :
    (notification_href (some (data_of requested)) ≡ some (codes "/user/ann"))
    × (same_place (kind_of requested.kind) false false false true false ≡ false)
unfolding notification_href data_of href_of kind_of find_kind given path_or
apart = (refl, refl)

-- The row of the same notification leads to the market.
row : row_href mention ≡ some (codes "/market/m1")
unfolding row_href given path_or
row = refl

abbrev events : List Event
events = shows toast ∷ shows toast ∷ shows toast ∷ shows toast ∷ ends 3 ∷ []

run-Stacked_example : Stacked (run events initial)
run-Stacked_example = run-Stacked events
