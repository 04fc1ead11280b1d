-- ===== src/Cache/Reads.antt =====
-- mobile/lib/cache.ts: reads of the JSON cache, the tier of a path, and the diagnostics.
use thassa.Base.{
  lower, ℕ, ◌+◌, Bool, true, not, ◌==◌, if◌then◌else◌, Text, codes, text_eq, [], ◌∷◌, ◌++◌, map,
  length, Option, none, some,
}
use thassa.Cache.{CacheTier, pinned, normal, CacheMeta, budget_bytes, is_stale}
use thassa.Cache.Entries.{find, modify}
use thassa.Cache.Evict.{Cache, Deletes, remove_entry}

-- The result, the state, and the key that a job put in the queue will drop.
pub record Got {ℓ} (A : Type ℓ) : Type ℓ where
  pub value : Option A
  pub after : Cache
  pub job : Option Text

-- `meta.hits += 1; meta.lastAccess = now`.
abbrev pub touch : ℕ → CacheMeta → CacheMeta
touch now m = record m { hits = m.hits + 1; last_access = now }

unfoldable pub touch_entry : ℕ → Text → Cache → Cache
touch_entry now key c = record c {
  manifest = record (c.manifest) { entries = modify key (touch now) c.manifest.entries };
  dirty = true;
}

-- `parse` is `JSON.parse`, `none` where it throws; `reads` is whether a read of a file succeeds.
unfoldable pub get_json {ℓ} : {A : Type ℓ} → (Text → Option A) → ℕ → Bool → Text → Cache → Got A
get_json parse now reads key c = elim (find key c.manifest.entries) [
  | none ↦ record { value = none; after = c; job = none }
  | some m ↦
      if not m.is_json
      then record { value = none; after = c; job = none }
      else if is_stale m now
      then record { value = none; after = c; job = some key }
      else elim (if reads then c.disk m.file else none) [
        | none ↦ record { value = none; after = c; job = some key }
        | some raw ↦ elim (parse raw) [
          | none ↦ record { value = none; after = c; job = none }
          | some value ↦ record { value = some value; after = touch_entry now key c; job = none }
        ]
      ]
]

-- The queued job: the entry may be another one, or gone, when it runs.
unfoldable pub drop_job : Deletes → Text → Cache → Cache
drop_job deletes key c = elim (find key c.manifest.entries) [
  | none ↦ c
  | some m ↦ record (remove_entry deletes m c) { dirty = true }
]

-- Usernames are ASCII, so `toLowerCase` is `lower` on each letter.
unfoldable pub set_pinned_identity : Option Text → Cache → Cache
set_pinned_identity none c = record c { pinned_username = none }
set_pinned_identity (some []) c = record c { pinned_username = none }
set_pinned_identity (some (x ∷ u)) c = record c { pinned_username = some (map lower (x ∷ u)) }

-- `path.split("?")[0]`.
unfoldable pub before_query : Text → Text
before_query [] = []
before_query (x ∷ s) = if x == b'?' then [] else x ∷ before_query s

unfoldable pub tier_for_path : Cache → Text → CacheTier
tier_for_path c path =
    let p = before_query path in
    if text_eq p (codes "/v1/me") then pinned else elim c.pinned_username [
      | none ↦ normal
      | some u ↦
          let own = codes "/v1/users/" ++ u in
          if text_eq p own
          then pinned
          else if text_eq p (own ++ codes "/posts")
          then pinned
          else normal
    ]

pub record Stats : Type 0 where
  pub total_bytes : ℕ
  pub budget : ℕ
  pub count : ℕ

unfoldable pub stats : Cache → Stats
stats c = record {
  total_bytes = c.manifest.total_bytes;
  budget = budget_bytes;
  count = length c.manifest.entries;
}
