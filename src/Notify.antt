-- ===== src/Notify.antt =====
-- Notifications: where a tap leads and what the toasts show. Mobile: mobile/lib/push.ts,
-- mobile/components/Toasts.tsx and mobile/app/notifications.tsx.
pub mod Mobile
pub mod Agree
pub mod Toasts
pub mod Stacked
use thassa.Base.{if◌then◌else◌, Text, text_eq, codes, List, [], ◌∷◌, Option, none, some}

-- The kinds that the clients name; `other` is any other text.
pub data Kind : Type 0 where
  market_matched : Kind
  market_settled : Kind
  order_filled : Kind
  dm_message : Kind
  post_liked : Kind
  post_commented : Kind
  post_mention : Kind
  position_swing : Kind
  large_entry : Kind
  follow : Kind
  follow_new : Kind
  follow_request : Kind
  follow_accepted : Kind
  other : Text → Kind

unfoldable pub find_kind : Text → List (Text × Kind) → Kind
find_kind t [] = other t
find_kind t ((name, k) ∷ r) = if text_eq t name then k else find_kind t r

unfoldable pub kind_of : Text → Kind
unfolding find_kind
kind_of t = find_kind t (
    (codes "market.matched", market_matched)
    ∷ (codes "market.settled", market_settled)
    ∷ (codes "order.filled", order_filled)
    ∷ (codes "dm.message", dm_message)
    ∷ (codes "post.liked", post_liked)
    ∷ (codes "post.commented", post_commented)
    ∷ (codes "post.mention", post_mention)
    ∷ (codes "position.swing", position_swing)
    ∷ (codes "following.large_entry", large_entry)
    ∷ (codes "follow", follow)
    ∷ (codes "follow.new", follow_new)
    ∷ (codes "follow.request", follow_request)
    ∷ (codes "follow.accepted", follow_accepted)
    ∷ [])

-- `AppNotification`: its kind and the fields of its payload. `username` is that of its user,
-- `own_username` one of the payload itself, which only a push reads.
pub record Notification : Type 0 where
  pub kind : Text
  pub title : Option Text
  pub body : Option Text
  pub username : Option Text
  pub own_username : Option Text
  pub post_id : Option Text
  pub market_id : Option Text
  pub conversation_id : Option Text

-- A text that is there and is not empty.
unfoldable pub given : Option Text → Option Text
given none = none
given (some []) = none
given (some (c ∷ t)) = some (c ∷ t)
