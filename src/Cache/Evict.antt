-- ===== src/Cache/Evict.antt =====
-- mobile/lib/cache.ts: the state of the class, and its eviction. The outcome of each file operation
-- is an argument: what the file system does is not decided here.
--
-- The sort of the source is stable, and is an insertion sort here; its first entry is the one to go.
use thassa.Base.{
  ℕ, zero, suc, ◌+◌, ◌-◌, Bool, true, false, ltb, leb, if◌then◌else◌, Text, List, [], ◌∷◌, length,
  Option, none,
}
use thassa.Cache.{CacheMeta, Manifest, FileName, file_eq, budget_bytes, score_lt, is_stale}
use thassa.Cache.Entries.{delete}

-- `has_dir` is whether the platform has a documents folder, `disk` the files of the cache's folder,
-- `manifest_file` and `manifest_async` the two stored copies of the manifest. `dirty` asks for a
-- flush of it.
pub record Cache : Type 0 where
  pub manifest : Manifest
  pub has_dir : Bool
  pub disk : FileName → Option Text
  pub manifest_file : Option Text
  pub manifest_async : Option Text
  pub dirty : Bool
  pub pinned_username : Option Text

-- Whether the file system deletes a file when it is asked to.
abbrev pub Deletes : Type 0
Deletes = FileName → Bool

abbrev pub update_disk : (FileName → Option Text) → FileName → Option Text → FileName → Option Text
update_disk disk f v g = if file_eq f g then v else disk g

-- `totalBytes` is held at 0 from below, as `-` is here.
unfoldable pub remove_entry : Deletes → CacheMeta → Cache → Cache
remove_entry deletes m c = record c {
  manifest = record (c.manifest) {
    total_bytes = c.manifest.total_bytes - m.bytes;
    entries = delete m.key c.manifest.entries;
  };
  disk = if deletes m.file then update_disk c.disk m.file none else c.disk;
}

-- The loop over the entries that stand when it starts.
unfoldable pub drop_stale : Deletes → ℕ → List CacheMeta → Cache → Cache
drop_stale deletes now [] c = c
drop_stale deletes now (m ∷ ms) c =
    drop_stale deletes now ms (if is_stale m now then remove_entry deletes m c else c)

unfoldable pub insert_by_score : ℕ → CacheMeta → List CacheMeta → List CacheMeta
insert_by_score now m [] = m ∷ []
insert_by_score now m (x ∷ xs) =
    if score_lt now x m then x ∷ insert_by_score now m xs else m ∷ x ∷ xs

unfoldable pub sort_by_score : ℕ → List CacheMeta → List CacheMeta
sort_by_score now [] = []
sort_by_score now (m ∷ ms) = insert_by_score now m (sort_by_score now ms)

-- The `while` loop; it breaks when no entry is left.
unfoldable pub evict_loop : ℕ → Deletes → ℕ → ℕ → Cache → Cache
evict_loop zero deletes now incoming c = c
evict_loop (suc fuel) deletes now incoming c =
    elim (ltb budget_bytes (c.manifest.total_bytes + incoming)) [
      | false ↦ c
      | true ↦ elim (sort_by_score now c.manifest.entries) [
        | [] ↦ c
        | victim ∷ _ ↦ evict_loop fuel deletes now incoming (remove_entry deletes victim c)
      ]
    ]

-- Each round removes an entry, so that a round for each and one more are enough.
unfoldable pub evict_to_fit : Deletes → ℕ → ℕ → Cache → Cache × Bool
evict_to_fit deletes now incoming c =
    if ltb budget_bytes incoming
    then (c, false)
    else let fresh = drop_stale deletes now c.manifest.entries c in
      let fitted = evict_loop (suc (length fresh.manifest.entries)) deletes now incoming fresh in
      (fitted, leb (fitted.manifest.total_bytes + incoming) budget_bytes)
