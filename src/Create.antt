-- ===== src/Create.antt =====
-- The composer of the mobile client: mobile/app/(tabs)/create.tsx. Its photos and videos upload in the
-- background while the caption is written.
pub mod Media
pub mod Uploads
pub mod Lists
pub mod Places
pub mod Starting
pub mod Runs
pub mod Sound
pub mod Kept
pub mod Edits
pub mod Adding
pub mod Scheduled
pub mod Scheduler
pub mod Run
pub mod Waiting
pub mod Progress
pub mod Ids
pub mod Attached
pub mod Post
pub mod Posted
use thassa.Base.{ℕ, Bool, Text, List}

pub data Kind : Type 0 where
  image : Kind
  video : Kind

-- `progress` is in percent.
pub data UploadStatus : Type 0 where
  queued : UploadStatus
  uploading : ℕ → UploadStatus
  ready : Text → UploadStatus
  failed : Text → UploadStatus

-- `key` is the number in the text that `nextKey` makes, which tells items apart.
pub record MediaItem : Type 0 where
  pub key : ℕ
  pub attempt : ℕ
  pub uri : Text
  pub kind : Kind
  pub mime : Text
  pub status : UploadStatus

abbrev pub Token : Type 0
Token = ℕ × ℕ

abbrev pub token_of : MediaItem → Token
token_of m = (m.key, m.attempt)

abbrev pub upload_concurrency : ℕ
upload_concurrency = 3

abbrev pub max_media : ℕ
max_media = 10
