-- ===== src/Social.antt =====
-- What the screens show before the backend has answered, and what they take back: the follow buttons
-- and the post cards of both clients.
pub mod Follow
pub mod Followed
pub mod Likes
pub mod Liked
pub mod Reacted
use thassa.Base.{Bool}

-- A user as the buttons get it. The mobile client reads `is_private`, the web client `private`, and a
-- field that is missing counts as false.
pub record FollowTarget : Type 0 where
  pub is_private : Bool
  pub is_private_web : Bool
  pub is_following : Bool
  pub follow_requested : Bool

-- The request that a press sends: `POST` or `DELETE` on the user's `/follow`.
pub data Request : Type 0 where
  follow : Request
  unfollow : Request

-- A press of the button, and the answer to the request that is under way.
pub data Event : Type 0 where
  presses : Event
  succeeds : Event
  fails : Event
