-- ===== src/Notify/Mobile.antt =====
-- Where a notification leads on the phone: from the system's list, from a toast and from the screen.
use thassa.Base.{
  if◌then◌else◌, Bool, true, false, Text, codes, [], ◌∷◌, ◌++◌, Option, none, some, ◌==◌, ◌&&◌,
}
use thassa.Notify.{
  Kind, market_matched, order_filled, dm_message, post_liked, post_mention, position_swing,
  large_entry, follow, follow_new, follow_request, follow_accepted, other, Notification, kind_of,
  given,
}

-- The data of a push: a field that is no text counts as missing. `user_username` is that of its
-- user, `username` its own.
pub record PushData : Type 0 where
  pub kind : Option Text
  pub market_id : Option Text
  pub post_id : Option Text
  pub conversation_id : Option Text
  pub user_username : Option Text
  pub username : Option Text

-- The data that the backend pushes for a notification: its kind and its payload.
unfoldable pub data_of : Notification → PushData
data_of n = record {
  kind = some n.kind;
  market_id = n.market_id;
  post_id = n.post_id;
  conversation_id = n.conversation_id;
  user_username = n.username;
  username = n.own_username;
}

-- The path, if there is an id to end it, or else the rest.
unfoldable pub path_or : Text → Option Text → Option Text → Option Text
path_or path none rest = rest
path_or path (some id) rest = some (path ++ id)

abbrev pub market_or : Option Text → Option Text → Option Text
market_or = path_or (codes "/market/")

abbrev pub post_or : Option Text → Option Text → Option Text
post_or = path_or (codes "/post/")

abbrev pub conversation_or : Option Text → Option Text → Option Text
conversation_or = path_or (codes "/conversation/")

abbrev pub user_or : Option Text → Option Text → Option Text
user_or = path_or (codes "/user/")

-- `a ?? b`.
abbrev pub either_of : Option Text → Option Text → Option Text
either_of none b = b
either_of (some t) b = some t

-- The `switch` of `notificationHref`, and what comes after it.
unfoldable pub href_of : Kind → (market post conversation user : Option Text) → Option Text
unfolding path_or
href_of dm_message market post conversation user =
    conversation_or conversation (some (codes "/messages"))
href_of post_mention market post conversation user = post_or post (market_or market none)
href_of large_entry market post conversation user = market_or market (post_or post none)
href_of position_swing market post conversation user = market_or market none
href_of market_matched market post conversation user = market_or market none
href_of order_filled market post conversation user = market_or market none
href_of follow_new market post conversation user = user_or user (some (codes "/notifications"))
href_of follow market post conversation user = user_or user (some (codes "/notifications"))
href_of follow_request market post conversation user = user_or user (some (codes "/notifications"))
href_of follow_accepted market post conversation user = user_or user (some (codes "/notifications"))
href_of _ market post conversation user =
    market_or market (post_or post (conversation_or conversation (user_or user none)))

abbrev pub or_empty : Option Text → Text
or_empty none = []
or_empty (some t) = t

-- `notificationHref`.
unfoldable pub notification_href : Option PushData → Option Text
notification_href none = none
notification_href (some d) =
    href_of (kind_of (or_empty d.kind)) (given d.market_id) (given d.post_id)
      (given d.conversation_id) (either_of (given d.user_username) (given d.username))

pub record Toast : Type 0 where
  pub title : Text
  pub body : Option Text
  pub icon : Text
  pub href : Option Text

abbrev pub someone : Text → Option Text → Text
someone word none = word
someone word (some name) = codes "@" ++ name

unfoldable pub toast_of : Kind → Notification → Option Toast
unfolding given path_or
toast_of market_matched n = some (record {
  title = codes "Your bet was taken.";
  body = either_of (given n.title) n.body;
  icon = codes "flash";
  href = market_or (given n.market_id) none;
})
toast_of order_filled n = some (record {
  title = codes "Order filled";
  body = n.body;
  icon = codes "checkmark-circle";
  href = market_or (given n.market_id) none;
})
toast_of dm_message n = some (record {
  title = someone (codes "Someone") (given n.username) ++ codes " sent you a message";
  body = n.body;
  icon = codes "chatbubble";
  href = conversation_or (given n.conversation_id) (some (codes "/messages"));
})
toast_of post_liked n = some (record {
  title = someone (codes "Someone") (given n.username) ++ codes " liked your post";
  body = none;
  icon = codes "heart";
  href = post_or (given n.post_id) none;
})
toast_of post_mention n = some (record {
  title = someone (codes "Someone") (given n.username) ++ codes " mentioned you";
  body = n.body;
  icon = codes "at";
  href = post_or (given n.post_id) (market_or (given n.market_id) none);
})
toast_of position_swing n = some (record {
  title = codes "Your position moved sharply";
  body = n.body;
  icon = codes "trending-up";
  href = market_or (given n.market_id) none;
})
toast_of large_entry n = some (record {
  title = someone (codes "Someone") (given n.username) ++ codes " placed a big bet";
  body = n.body;
  icon = codes "rocket";
  href = market_or (given n.market_id) (post_or (given n.post_id) none);
})
toast_of follow_request n = some (record {
  title = someone (codes "Someone") (given n.username) ++ codes " requested to follow you";
  body = none;
  icon = codes "person-add";
  href = some (codes "/notifications");
})
toast_of follow_new n = some (record {
  title = someone (codes "Someone") (given n.username) ++ codes " started following you";
  body = none;
  icon = codes "person-add";
  href = user_or (given n.username) (some (codes "/notifications"));
})
toast_of follow n = some (record {
  title = someone (codes "Someone") (given n.username) ++ codes " started following you";
  body = none;
  icon = codes "person-add";
  href = user_or (given n.username) (some (codes "/notifications"));
})
toast_of _ n = elim (given n.title) [
  | none ↦ none
  | some title ↦
      some (record { title = title; body = n.body; icon = codes "notifications"; href = none })
]

-- `toastForNotification`.
unfoldable pub toast_for_notification : Notification → Option Toast
toast_for_notification n = toast_of (kind_of n.kind) n

-- The `href` of a row of the screen.
unfoldable pub row_href : Notification → Option Text
unfolding given path_or
row_href n = market_or (given n.market_id) (
    post_or (given n.post_id)
      (conversation_or (given n.conversation_id) (user_or (given n.username) none)))

unfoldable pub starts_with : Text → Text → Bool
starts_with [] t = true
starts_with (c ∷ s) [] = false
starts_with (c ∷ s) (d ∷ t) = d == c && starts_with s t

-- The `icon` of a row.
unfoldable pub icon_of : Kind → Text
unfolding starts_with
icon_of market_matched = codes "flash"
icon_of order_filled = codes "checkmark-circle"
icon_of dm_message = codes "chatbubble"
icon_of post_liked = codes "heart"
icon_of post_mention = codes "at"
icon_of position_swing = codes "trending-up"
icon_of large_entry = codes "rocket"
icon_of follow = codes "person-add"
icon_of follow_new = codes "person-add"
icon_of follow_request = codes "person-add"
icon_of follow_accepted = codes "person-add"
icon_of (other t) =
    if starts_with (codes "follow") t then codes "person-add" else codes "notifications"
icon_of _ = codes "notifications"

-- The `title` of a row whose payload has none.
unfoldable pub title_of : Kind → Notification → Text
unfolding given
title_of market_matched n = codes "Your bet was taken."
title_of order_filled n = codes "Order filled"
title_of post_liked n = someone (codes "someone") (given n.username) ++ codes " liked your post"
title_of post_mention n = someone (codes "someone") (given n.username) ++ codes " mentioned you"
title_of position_swing n = codes "Your position moved sharply"
title_of large_entry n = someone (codes "someone") (given n.username) ++ codes " placed a big bet"
title_of follow_new n =
    someone (codes "someone") (given n.username) ++ codes " started following you"
title_of follow n = someone (codes "someone") (given n.username) ++ codes " started following you"
title_of _ n = n.kind

unfoldable pub row_title : Notification → Text
row_title n = elim n.title [ none ↦ title_of (kind_of n.kind) n | some t ↦ t ]
