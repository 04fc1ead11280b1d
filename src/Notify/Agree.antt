-- ===== src/Notify/Agree.antt =====
-- Where a notification leads, from a push and from its toast.
use thassa.Base.{
  ℕ, ◌≡◌, ◌↔◌, refl, ap, not, ◌&&◌, ◌||◌, Bool, true, false, Text, codes, [], ◌∷◌, Option, none,
  some, arith,
}
use thassa.Notify.{
  Kind, market_matched, order_filled, dm_message, post_liked, post_mention, position_swing,
  large_entry, follow, follow_new, follow_request, follow_accepted, Notification, kind_of, given,
}
use thassa.Notify.Mobile.{
  path_or, market_or, post_or, conversation_or, user_or, data_of, href_of, notification_href,
  either_of, Toast, toast_of, toast_for_notification,
}

abbrev pub has : Option Text → Bool
has none = false
has (some t) = true

-- Whether the toast and the push of a kind lead to the same place, by the ids that there are: those of
-- the market, the post, the conversation and the payload's user, and a name of the payload itself.
abbrev pub same_place : Kind → (market post conversation user own : Bool) → Bool
same_place market_matched market post conversation user own = true
same_place order_filled market post conversation user own = true
same_place dm_message market post conversation user own = true
same_place post_mention market post conversation user own = true
same_place position_swing market post conversation user own = true
same_place large_entry market post conversation user own = true
same_place post_liked market post conversation user own =
    not market && (post || not (conversation || (user || own)))
same_place follow market post conversation user own = user || not own
same_place follow_new market post conversation user own = user || not own
same_place follow_request market post conversation user own = not (user || own)
same_place follow_accepted market post conversation user own = false
same_place _ market post conversation user own =
    not (market || (post || (conversation || (user || own))))

-- The character after the slash tells the paths apart.
abbrev after_slash : Option Text → ℕ
after_slash none = 0
after_slash (some []) = 1
after_slash (some (c ∷ [])) = 1
after_slash (some (c ∷ d ∷ t)) = d

-- Where the toast of a kind leads.
unfoldable toast_href : Kind → (market post conversation user : Option Text) → Option Text
unfolding path_or
toast_href market_matched market post conversation user = market_or market none
toast_href order_filled market post conversation user = market_or market none
toast_href dm_message market post conversation user =
    conversation_or conversation (some (codes "/messages"))
toast_href post_liked market post conversation user = post_or post none
toast_href post_mention market post conversation user = post_or post (market_or market none)
toast_href position_swing market post conversation user = market_or market none
toast_href large_entry market post conversation user = market_or market (post_or post none)
toast_href follow market post conversation user = user_or user (some (codes "/notifications"))
toast_href follow_new market post conversation user = user_or user (some (codes "/notifications"))
toast_href follow_request market post conversation user = some (codes "/notifications")
toast_href _ market post conversation user = none

toast_of-toast_href :
    (k : Kind) (n : Notification) (t : Toast)
    → toast_of k n ≡ some t
    → t.href
      ≡ toast_href k
          (given n.market_id)
          (given n.post_id)
          (given n.conversation_id)
          (given n.username)
unfolding toast_of toast_href
toast_of-toast_href market_matched n t h = cc
toast_of-toast_href order_filled n t h = cc
toast_of-toast_href dm_message n t h = cc
toast_of-toast_href post_liked n t h = cc
toast_of-toast_href post_mention n t h = cc
toast_of-toast_href position_swing n t h = cc
toast_of-toast_href large_entry n t h = cc
toast_of-toast_href follow_new n t h = cc
toast_of-toast_href follow n t h = cc
toast_of-toast_href follow_request n t h = cc
toast_of-toast_href _ n t h = ground (arith, h)

module _ (m p c u o : Option Text) where
  abbrev Same : Kind → Type 0
  Same k =
      (toast_href k m p c u ≡ href_of k m p c (either_of u o))
      ↔ (same_place k (has m) (has p) (has c) (has u) (has o) ≡ true)

  same : (k : Kind) → Same k
  unfolding toast_href href_of
  same market_matched = (λ _. refl, λ _. refl)
  same order_filled = (λ _. refl, λ _. refl)
  same dm_message = (λ _. refl, λ _. refl)
  same post_mention = (λ _. refl, λ _. refl)
  same position_swing = (λ _. refl, λ _. refl)
  same large_entry = (λ _. refl, λ _. refl)
  same post_liked = (λ e. ground (arith, e, ap after_slash e), λ h. ground (arith, h))
  same follow = (λ e. ground (arith, e, ap after_slash e), λ h. ground (arith, h))
  same follow_new = (λ e. ground (arith, e, ap after_slash e), λ h. ground (arith, h))
  same follow_request = (λ e. ground (arith, e, ap after_slash e), λ h. ground (arith, h))
  same follow_accepted = (λ e. ground (arith, e, ap after_slash e), λ h. ground (arith, h))
  same _ = (λ e. ground (arith, e), λ h. ground (arith, h))

-- A toast leads where the tap on the system's notification leads exactly if `same_place` holds: always
-- for the kinds market.matched, order.filled, dm.message, post.mention, position.swing and
-- following.large_entry; for a new follower unless only the payload itself names the user; for a
-- request to follow if the payload names no user at all; for a like if there is no market and, without
-- a post, nothing else; never for an accepted request; and for any other kind if there is no id.
pub toast_for_notification-notification_href :
    (n : Notification) (t : Toast)
    → toast_for_notification n ≡ some t
    → (t.href ≡ notification_href (some (data_of n))) ↔ (
        same_place
          (kind_of n.kind)
          (has (given n.market_id))
          (has (given n.post_id))
          (has (given n.conversation_id))
          (has (given n.username))
          (has (given n.own_username))
        ≡ true)
unfolding toast_for_notification notification_href data_of
toast_for_notification-notification_href n t h = rw (toast_of-toast_href (kind_of n.kind) n t h) (
    same (given n.market_id) (given n.post_id) (given n.conversation_id) (given n.username)
      (given n.own_username) (kind_of n.kind))
