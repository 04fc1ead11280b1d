-- ===== src/Cache.antt =====
-- mobile/lib/cache.ts: the data of `RotatingCache`, its constants and the pure functions above the
-- class. Times are milliseconds. An entry stands under its own key in `entries`, which keeps the
-- order of insertion as an object with such keys does.
--
-- The score is a float in the source. Here it is the exact fraction `score_num / score_den` of which
-- the source computes an approximation, with an hour as 3 600 000 ms.
pub mod Entries
pub mod Evict
pub mod Files
pub mod Reads
pub mod Media
pub mod Invariant
pub mod Budget
pub mod Append
pub mod Writes
pub mod Run
pub mod Victim
pub mod Apart
pub mod ReadBack
pub mod Reload
pub mod Bytes
use thassa.Base.{
  ℕ, zero, suc, ◌+◌, ◌-◌, ◌*◌, ◌^◌, Bool, true, false, ◌&&◌, ltb, leb, ◌==◌, if◌then◌else◌, Text,
  List, [], ◌∷◌, Option, none, some,
}

pub data CacheTier : Type 0 where
  pinned normal media : CacheTier

-- `<seq>.dat` and `<seq>.bin`.
pub data FileName : Type 0 where
  dat bin : ℕ → FileName

pub record CacheMeta : Type 0 where
  pub key : Text
  pub file : FileName
  pub bytes : ℕ
  pub tier : CacheTier
  pub is_json : Bool
  pub last_access : ℕ
  pub hits : ℕ
  pub created_at : ℕ

pub record Manifest : Type 0 where
  pub version : ℕ
  pub seq : ℕ
  pub total_bytes : ℕ
  pub entries : List CacheMeta

abbrev pub manifest_version : ℕ
manifest_version = 1

abbrev pub budget_bytes : ℕ
budget_bytes = 500 * 1024 * 1024

abbrev pub pinned_bonus : ℕ
pinned_bonus = 10 ^ 12

abbrev pub json_max_age_ms : ℕ
json_max_age_ms = 7 * 24 * 60 * 60 * 1000

abbrev pub media_max_age_ms : ℕ
media_max_age_ms = 30 * 24 * 60 * 60 * 1000

abbrev pub hour_ms : ℕ
hour_ms = 3600000

abbrev pub empty_manifest : Manifest
empty_manifest = record { version = manifest_version; seq = 0; total_bytes = 0; entries = [] }

-- A high surrogate counts for the pair that it starts.
unfoldable pub utf8_bytes : Text → ℕ
utf8_bytes [] = 0
utf8_bytes (c ∷ []) =
    if ltb c 0x80
    then 1
    else if ltb c 0x800
    then 2
    else if leb 0xd800 c && leb c 0xdbff
    then 4
    else 3
utf8_bytes (c ∷ d ∷ s) =
    let next = utf8_bytes (d ∷ s) in
    let after_pair = utf8_bytes s in
    if ltb c 0x80
    then 1 + next
    else if ltb c 0x800
    then 2 + next
    else if leb 0xd800 c && leb c 0xdbff
    then 4 + after_pair
    else 3 + next

-- What the tier adds to the score.
abbrev pub bonus : CacheTier → ℕ
bonus pinned = pinned_bonus
bonus normal = 0
bonus media = 0

-- `Math.max(0, now - lastAccess)`.
abbrev pub age_ms : CacheMeta → ℕ → ℕ
age_ms m now = now - m.last_access

-- (hits + 1) / (1 + age / hour) + bonus, over the common denominator.
unfoldable pub score_den : CacheMeta → ℕ → ℕ
score_den m now = hour_ms + age_ms m now

unfoldable pub score_num : CacheMeta → ℕ → ℕ
score_num m now = (m.hits + 1) * hour_ms + bonus m.tier * (hour_ms + age_ms m now)

-- The comparator `scoreOf(a, now) - scoreOf(b, now)` is negative.
unfoldable pub score_lt : ℕ → CacheMeta → CacheMeta → Bool
score_lt now a b = ltb (score_num a now * score_den b now) (score_num b now * score_den a now)

abbrev pub max_age : CacheTier → ℕ
max_age media = media_max_age_ms
max_age pinned = json_max_age_ms
max_age normal = json_max_age_ms

unfoldable pub is_stale : CacheMeta → ℕ → Bool
is_stale m now = ltb (max_age m.tier) (now - m.created_at)

abbrev pub file_eq : FileName → FileName → Bool
file_eq (dat a) (dat b) = a == b
file_eq (bin a) (bin b) = a == b
file_eq (dat a) (bin b) = false
file_eq (bin a) (dat b) = false
