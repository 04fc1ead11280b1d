-- ===== src/Publish.antt =====
-- Publishing from the web client: web/app/(app)/create/page.tsx.
pub mod Trimmed
pub mod Uploaded
pub mod Following
use thassa.Base.{
  ℕ, zero, suc, ◌+◌, ◌-◌, ◌^◌, min, leb, ltb, ◌==◌, not, ◌&&◌, ◌||◌, if◌then◌else◌, Bool, true,
  false, Text, List, [], ◌∷◌, ◌++◌, Option, none, some, length,
}
use thassa.Chat.{trim_start, trim}
use thassa.Mention.{MentionInput}
use thassa.Pricing.{unit, escrow_units}

-- `key` is the number in the text that tells uploads apart, `media` the id of what was uploaded.
-- `progress` is in percent.
pub record Upload : Type 0 where
  pub key : ℕ
  pub progress : ℕ
  pub media : Option Text
  pub failed : Bool

pub record Attachment : Type 0 where
  pub is_new : Bool
  pub price_cents : ℕ
  pub shares : ℕ

pub record Page : Type 0 where
  pub uploads : List Upload
  pub next_key : ℕ

abbrev pub initial : Page
initial = record { uploads = []; next_key = 0 }

-- The entries of that many files, from a key on.
unfoldable pub fresh_uploads : ℕ → ℕ → List Upload
fresh_uploads zero key = []
fresh_uploads (suc n) key =
    record { key = key; progress = 0; media = none; failed = false } ∷ fresh_uploads n (suc key)

abbrev pub max_uploads : ℕ
max_uploads = 10

-- `addFiles`, with the number of files.
unfoldable pub add_files : ℕ → Page → Page
unfolding fresh_uploads
add_files files s =
    let n = min files (max_uploads - length s.uploads) in
    record { uploads = s.uploads ++ fresh_uploads n s.next_key; next_key = s.next_key + n }

-- `u.map((x) => (x.key === key ? f(x) : x))`.
unfoldable pub update : ℕ → (Upload → Upload) → List Upload → List Upload
update key f [] = []
update key f (u ∷ us) = (if u.key == key then f u else u) ∷ update key f us

unfoldable pub remove : ℕ → List Upload → List Upload
remove key [] = []
remove key (u ∷ us) = let rest = remove key us in if u.key == key then rest else u ∷ rest

unfoldable pub uploads_pending : List Upload → Bool
uploads_pending [] = false
uploads_pending (u ∷ us) = elim u.media [
  | none ↦ not u.failed || uploads_pending us
  | some id ↦ uploads_pending us
]

unfoldable pub media_ids : List Upload → List Text
media_ids [] = []
media_ids (u ∷ us) = let rest = media_ids us in elim u.media [ none ↦ rest | some id ↦ id ∷ rest ]

-- A new market is opened with a dollar at least.
unfoldable pub attachment_valid : ℕ → Option Attachment → Bool
attachment_valid decimals none = true
attachment_valid decimals (some a) =
    ltb 0 a.shares
    && (not a.is_new || leb (unit decimals) (escrow_units decimals a.shares a.price_cents))

abbrev is_empty {ℓ} : {A : Type ℓ} → List A → Bool
is_empty [] = true
is_empty (x ∷ xs) = false

unfoldable pub can_post :
    (decimals : ℕ) (posting warped : Bool) → Option Attachment → Text → Page → Bool
can_post decimals posting warped attachment caption s =
    not posting
    && not (uploads_pending s.uploads)
    && not warped
    && attachment_valid decimals attachment
    && (not (is_empty (media_ids s.uploads)) || not (is_empty (trim caption)))

-- What the requests and the user do to the uploads.
pub data Event : Type 0 where
  adds : ℕ → Event
  progresses : ℕ → ℕ → Event
  uploaded : ℕ → Text → Event
  fails : ℕ → Event
  removes : ℕ → Event

unfoldable pub step : Event → Page → Page
step (adds files) s = add_files files s
step (progresses key percent) s = record s {
  uploads = update key (λ u. record u { progress = percent }) s.uploads;
}
step (uploaded key id) s = record s {
  uploads = update key (λ u. record u { media = some id }) s.uploads;
}
step (fails key) s = record s { uploads = update key (λ u. record u { failed = true }) s.uploads }
step (removes key) s = record s { uploads = remove key s.uploads }

abbrev pub run : List Event → Page → Page
run [] s = s
run (e ∷ es) s = run es (step e s)

-- `leadTrim`.
abbrev pub lead_trim : Text → ℕ
lead_trim caption = length caption - length (trim_start caption)

-- The mentions that are sent, with offsets into the trimmed caption.
unfoldable pub final_mentions : Text → List MentionInput → List MentionInput
final_mentions caption [] = []
final_mentions caption (m ∷ ms) =
    let rest = final_mentions caption ms in
    if leb (lead_trim caption) m.start
      && leb (m.start - lead_trim caption + m.len) (length (trim caption))
    then record m { start = m.start - lead_trim caption } ∷ rest
    else rest
