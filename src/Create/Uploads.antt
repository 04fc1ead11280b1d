-- ===== src/Create/Uploads.antt =====
-- The upload engine of the composer: its references next to the media, and what can happen to them. A
-- run of `runUpload` stands under its token until it ends, with whether its controller is aborted.
use thassa.Base.{
  ℕ, ◌+◌, ◌-◌, leb, if◌then◌else◌, Bool, true, false, Text, List, [], ◌∷◌, length, take, Option,
  none, some,
}
use thassa.Create.{
  UploadStatus, ready, failed, MediaItem, Token, token_of, upload_concurrency, max_media,
}
use thassa.Create.Media.{
  same_token, Asset, add_assets, patch, progress_to, requeue, edit_at, drop_at, item_at, move_item,
  active, waiting, start,
}

pub record Composer : Type 0 where
  pub media : List MediaItem
  pub item_seq : ℕ
  pub in_flight : Token → Bool
  pub controllers : Token → Bool
  pub running : Token → Option Bool

abbrev pub empty : Composer
empty = record {
  media = [];
  item_seq = 0;
  in_flight = λ t. false;
  controllers = λ t. false;
  running = λ t. none;
}

unfoldable pub put {ℓ} : {A : Type ℓ} → Token → A → (Token → A) → Token → A
put t a f u = if same_token u t then a else f u

-- `runUpload` up to its upload.
unfoldable pub run_upload : MediaItem → Composer → Composer
run_upload item s =
    let t = token_of item in
    if s.in_flight t then s else record s {
      in_flight = put t true s.in_flight;
      controllers = put t true s.controllers;
      running = put t (some false) s.running;
    }

unfoldable pub run_all : List MediaItem → Composer → Composer
run_all [] s = s
run_all (m ∷ ms) s = run_all ms (run_upload m s)

-- The scheduler, on the media that were rendered last.
unfoldable pub schedule : Composer → Composer
schedule s =
    let slots = upload_concurrency - active s.media in
    let to_start = take slots (waiting s.media) in
    run_all to_start (record s { media = start to_start s.media })

abbrev pub aborted_run : Option Bool → Option Bool
aborted_run none = none
aborted_run (some b) = some true

-- `controllers.current.get(token)?.abort()`.
unfoldable pub abort : Token → Composer → Composer
abort t s =
    if s.controllers t
    then record s { running = put t (aborted_run (s.running t)) s.running }
    else s

abbrev pub abort_item : Option MediaItem → Composer → Composer
abort_item none s = s
abort_item (some m) s = abort (token_of m) s

-- The rest of `runUpload`: the status that the upload comes to, unless it was aborted.
unfoldable pub finish : Token → UploadStatus → Composer → Composer
finish t status s = elim (s.running t) [
  | none ↦ s
  | some aborted ↦ record s {
    media = if aborted then s.media else patch t status s.media;
    in_flight = put t false s.in_flight;
    controllers = put t false s.controllers;
    running = put t none s.running;
  }
]

-- `pick`, with the assets that are chosen.
unfoldable pub pick : List Asset → Composer → Composer
pick assets s = if leb max_media (length s.media) then s else record s {
  media = add_assets s.item_seq assets s.media;
  item_seq = s.item_seq + length assets;
}

unfoldable pub remove_at : ℕ → Composer → Composer
remove_at i s =
    let s' = abort_item (item_at i s.media) s in record s' { media = drop_at i s'.media }

unfoldable pub apply_edit : ℕ → Text → Composer → Composer
apply_edit i uri s =
    let s' = abort_item (item_at i s.media) s in record s' { media = edit_at i uri s'.media }

-- Every controller that is left is aborted.
unfoldable pub reset : Composer → Composer
reset s = record s {
  media = [];
  in_flight = λ t. false;
  controllers = λ t. false;
  running = λ t. if s.controllers t then aborted_run (s.running t) else s.running t;
}

pub data Event : Type 0 where
  picks : List Asset → Event
  removes : ℕ → Event
  edits : ℕ → Text → Event
  retries : ℕ → Event
  moves : ℕ → ℕ → Event
  schedules : Event
  progresses : Token → ℕ → Event
  uploads : Token → Text → Event
  fails : Token → Text → Event
  resets : Event

unfoldable pub step : Event → Composer → Composer
step (picks assets) s = pick assets s
step (removes i) s = remove_at i s
step (edits i uri) s = apply_edit i uri s
step (retries key) s = record s { media = requeue key s.media }
step (moves i j) s = record s { media = move_item i j s.media }
step schedules s = schedule s
step (progresses t f) s = record s { media = progress_to t f s.media }
step (uploads t id) s = finish t (ready id) s
step (fails t message) s = finish t (failed message) s
step resets s = reset s

unfoldable pub run : List Event → Composer → Composer
run [] s = s
run (e ∷ es) s = run es (step e s)
