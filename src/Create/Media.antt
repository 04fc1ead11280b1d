-- ===== src/Create/Media.antt =====
-- The list of media of the composer: what picking, editing, retrying and dragging make of it.
use thassa.Base.{
  ℕ, zero, suc, ◌+◌, ◌==◌, ◌&&◌, if◌then◌else◌, or_else, map, Bool, true, false, Text, codes, List,
  [], ◌∷◌, ◌++◌, take, Option, none, some,
}
use thassa.Create.{
  image, video, UploadStatus, queued, uploading, ready, failed, MediaItem, Token, token_of,
  max_media,
}

abbrev pub same_token : Token → Token → Bool
same_token (k, a) (j, b) = k == j && a == b

abbrev pub is_uploading : UploadStatus → Bool
is_uploading queued = false
is_uploading (uploading f) = true
is_uploading (ready id) = false
is_uploading (failed message) = false

abbrev pub is_queued : UploadStatus → Bool
is_queued queued = true
is_queued (uploading f) = false
is_queued (ready id) = false
is_queued (failed message) = false

abbrev pub is_failed : UploadStatus → Bool
is_failed queued = false
is_failed (uploading f) = false
is_failed (ready id) = false
is_failed (failed message) = true

-- What the image library gives.
pub record Asset : Type 0 where
  pub uri : Text
  pub is_video : Bool
  pub mime_type : Option Text

abbrev pub item_of : ℕ → Asset → MediaItem
item_of key a = record {
  key = key;
  attempt = 0;
  uri = a.uri;
  kind = if a.is_video then video else image;
  mime = or_else a.mime_type (if a.is_video then codes "video/mp4" else codes "image/jpeg");
  status = queued;
}

-- One key after the other.
unfoldable pub items_from : ℕ → List Asset → List MediaItem
items_from key [] = []
items_from key (a ∷ as_) = item_of key a ∷ items_from (suc key) as_

unfoldable pub add_assets : ℕ → List Asset → List MediaItem → List MediaItem
add_assets seq assets cur = take max_media (cur ++ items_from seq assets)

abbrev pub patched : Token → UploadStatus → MediaItem → MediaItem
patched token status m = if same_token (token_of m) token then record m { status = status } else m

unfoldable pub patch : Token → UploadStatus → List MediaItem → List MediaItem
patch token status cur = map (patched token status) cur

abbrev pub progressed : Token → ℕ → MediaItem → MediaItem
progressed token f m =
    if same_token (token_of m) token && is_uploading m.status
    then record m { status = uploading f }
    else m

unfoldable pub progress_to : Token → ℕ → List MediaItem → List MediaItem
progress_to token f cur = map (progressed token f) cur

abbrev pub requeued : ℕ → MediaItem → MediaItem
requeued key m =
    if m.key == key && is_failed m.status
    then record m { attempt = m.attempt + 1; status = queued }
    else m

unfoldable pub requeue : ℕ → List MediaItem → List MediaItem
requeue key cur = map (requeued key) cur

abbrev pub edited : Text → MediaItem → MediaItem
edited uri m = record m {
  uri = uri;
  kind = image;
  mime = codes "image/jpeg";
  attempt = m.attempt + 1;
  status = queued;
}

unfoldable pub edit_at : ℕ → Text → List MediaItem → List MediaItem
edit_at i uri [] = []
edit_at zero uri (m ∷ ms) = edited uri m ∷ ms
edit_at (suc i) uri (m ∷ ms) = m ∷ edit_at i uri ms

unfoldable pub drop_at : ℕ → List MediaItem → List MediaItem
drop_at i [] = []
drop_at zero (m ∷ ms) = ms
drop_at (suc i) (m ∷ ms) = m ∷ drop_at i ms

unfoldable pub item_at : ℕ → List MediaItem → Option MediaItem
item_at i [] = none
item_at zero (m ∷ ms) = some m
item_at (suc i) (m ∷ ms) = item_at i ms

-- `next.splice(to, 0, it)`: behind the last where `to` is too large.
unfoldable pub insert_at : ℕ → MediaItem → List MediaItem → List MediaItem
insert_at i it [] = it ∷ []
insert_at zero it (m ∷ ms) = it ∷ m ∷ ms
insert_at (suc i) it (m ∷ ms) = m ∷ insert_at i it ms

-- A drag moves only what is there.
unfoldable pub move_item : ℕ → ℕ → List MediaItem → List MediaItem
move_item from to cur = elim (item_at from cur) [
  | none ↦ cur
  | some it ↦ insert_at to it (drop_at from cur)
]

unfoldable pub active : List MediaItem → ℕ
active [] = 0
active (m ∷ ms) = if is_uploading m.status then suc (active ms) else active ms

unfoldable pub waiting : List MediaItem → List MediaItem
waiting [] = []
waiting (m ∷ ms) = if is_queued m.status then m ∷ waiting ms else waiting ms

unfoldable pub has_token : List MediaItem → Token → Bool
has_token [] t = false
has_token (m ∷ ms) t = if same_token (token_of m) t then true else has_token ms t

abbrev pub started : List MediaItem → MediaItem → MediaItem
started starting m =
    if has_token starting (token_of m) then record m { status = uploading 0 } else m

unfoldable pub start : List MediaItem → List MediaItem → List MediaItem
start starting cur = map (started starting) cur
