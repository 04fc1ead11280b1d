-- ===== src/Mention.antt =====
-- @-mentions: mobile/lib/mentions.ts, and the two pure functions of
-- web/components/MentionTextarea.tsx. Offsets and lengths are numbers from 0 up; usernames are ASCII,
-- as they are citext over [A-Za-z0-9_].
pub mod Token
pub mod Scan
pub mod Segment
pub mod TokenLaws
pub mod ScanLaws
pub mod Words
pub mod Matches
pub mod Computed
pub mod Insert
pub mod Derived
pub mod SegmentLaws
pub mod Compose
use thassa.Base.{
  ℕ, Bool, true, false, ◌==◌, ◌||◌, ◌&&◌, leb, Text, List, Option, none, some, get_elem?,
}

-- `/\w/` and `/[A-Za-z0-9_]/`.
abbrev pub is_word : ℕ → Bool
is_word c =
    leb b'A' c && leb c b'Z' || leb b'a' c && leb c b'z' || leb b'0' c && leb c b'9' || c == b'_'

abbrev pub at_sign : ℕ
at_sign = b'@'

-- The test at an index of the text, which is in range wherever the source makes it.
abbrev pub word_at : Text → ℕ → Bool
word_at t i = elim (get_elem? t i) [ none ↦ false | some c ↦ is_word c ]

abbrev pub at_sign_at : Text → ℕ → Bool
at_sign_at t i = elim (get_elem? t i) [ none ↦ false | some c ↦ c == at_sign ]

pub record DraftMention : Type 0 where
  pub user_id : Text
  pub username : Text

-- What is sent with a caption.
pub record MentionInput : Type 0 where
  pub user_id : Text
  pub start : ℕ
  pub len : ℕ

-- What the backend returns: the current username of the user.
pub record Mention : Type 0 where
  pub user_id : Text
  pub start : ℕ
  pub len : ℕ
  pub username : Text
