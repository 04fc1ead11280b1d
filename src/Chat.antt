-- ===== src/Chat.antt =====
-- Conversations: mobile/app/conversation/[id].tsx and web/app/(app)/messages/[id]/page.tsx.
pub mod Mobile
pub mod Settled
pub mod Web
pub mod Merged
use thassa.Base.{ℕ, ◌==◌, leb, ◌&&◌, ◌||◌, if◌then◌else◌, Bool, Text, List, [], ◌∷◌, ◌++◌, Option}

-- `sender` is the id of the member. The texts of the times order as the times, which are numbers here.
pub record Message : Type 0 where
  pub id : Text
  pub sender : Text
  pub body : Option Text
  pub created_at : ℕ
  pub pending : Bool
  pub reactions : List (Text × ℕ)

-- The frames of a conversation's channel.
pub data Frame : Type 0 where
  message_new : Message → Frame
  typing_start : Text → Frame
  typing_stop : Text → Frame
  read_at : Text → ℕ → Frame
  message_reaction : Text → List (Text × ℕ) → Frame

abbrev pub is_space : ℕ → Bool
is_space c =
    (leb 9 c && leb c 13)
    || c == 32
    || c == 160
    || c == 5760
    || (leb 8192 c && leb c 8202)
    || c == 8232
    || c == 8233
    || c == 8239
    || c == 8287
    || c == 12288
    || c == 65279

unfoldable pub trim_start : Text → Text
trim_start [] = []
trim_start (c ∷ t) = if is_space c then trim_start t else c ∷ t

unfoldable pub trim_end : Text → Text
trim_end [] = []
trim_end (c ∷ t) =
    let rest = trim_end t in
    elim rest [ [] ↦ (if is_space c then [] else c ∷ []) | (d ∷ u) ↦ c ∷ d ∷ u ]

-- `text.trim()`.
abbrev pub trim : Text → Text
trim t = trim_end (trim_start t)
