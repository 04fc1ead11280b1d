-- ===== src/Cache/Files.antt =====
-- mobile/lib/cache.ts: the paths that write, and the life cycle of the manifest. They run one at a
-- time in the class's queue, so each is one step here. The JSON text of a manifest is what `encode`
-- makes of it.
use thassa.Base.{
  ℕ, suc, ◌+◌, Bool, true, false, ◌&&◌, ◌==◌, if◌then◌else◌, Text, [], ◌∷◌, ◌++◌, Option, none,
  some,
}
use thassa.Cache.{
  CacheTier, CacheMeta, Manifest, FileName, dat, bin, empty_manifest, manifest_version, utf8_bytes,
}
use thassa.Cache.Entries.{find}
use thassa.Cache.Evict.{Cache, Deletes, update_disk, remove_entry, evict_to_fit}

-- What the clock reads and the file system answers during one write: at the eviction and after the
-- write, on deletes, on the write of the payload or the move of a download, and on the two copies
-- of the manifest.
pub record Env : Type 0 where
  pub evict_at : ℕ
  pub write_at : ℕ
  pub deletes : Deletes
  pub writes : Bool
  pub saves_file : Bool
  pub saves_async : Bool

abbrev pub new_meta : ℕ → Text → FileName → ℕ → CacheTier → Bool → CacheMeta
new_meta now key file bytes tier is_json = record {
  key = key;
  file = file;
  bytes = bytes;
  tier = tier;
  is_json = is_json;
  last_access = now;
  hits = 1;
  created_at = now;
}

-- `const prev = entries[key]; if (prev) await this.removeEntry(prev)`.
unfoldable pub remove_prev : Deletes → Text → Cache → Cache
remove_prev deletes key c = elim (find key c.manifest.entries) [
  | none ↦ c
  | some prev ↦ remove_entry deletes prev c
]

-- `++this.manifest.seq`.
abbrev pub bump_seq : Cache → Cache
bump_seq c = record c { manifest = record (c.manifest) { seq = suc c.manifest.seq } }

-- The payload is on disk: enter it in the manifest.
unfoldable pub add_entry : CacheMeta → Text → Cache → Cache
add_entry m contents c = record c {
  manifest = record (c.manifest) {
    entries = c.manifest.entries ++ m ∷ [];
    total_bytes = c.manifest.total_bytes + m.bytes;
  };
  disk = update_disk c.disk m.file (some contents);
}

module _ (encode : Manifest → Text) where
  unfoldable pub persist_now : Bool → Bool → Cache → Cache
  persist_now saves_file saves_async c = record c {
    dirty = false;
    manifest_file = if c.has_dir && saves_file then some (encode c.manifest) else c.manifest_file;
    manifest_async = if saves_async then some (encode c.manifest) else c.manifest_async;
  }

  -- From the end of the eviction on, with the file name of the new sequence number.
  unfoldable pub store : Env → Text → FileName → Text → ℕ → CacheTier → Bool → Cache → Cache
  store env key file contents bytes tier is_json c =
      if env.writes
      then persist_now env.saves_file env.saves_async
          (add_entry (new_meta env.write_at key file bytes tier is_json) contents c)
      else c

  unfoldable pub write_entry : Env → Text → Text → ℕ → CacheTier → Bool → Cache → Cache
  write_entry env key contents bytes tier is_json c =
      let (c', fit) = evict_to_fit env.deletes env.evict_at bytes (remove_prev env.deletes key c) in
      if c.has_dir
      then if fit
        then store env key (dat (suc c'.manifest.seq)) contents bytes tier is_json (bump_seq c')
        else c'
      else c

  -- The new file, unless the download did not fit or could not be moved.
  unfoldable pub adopt_file : Env → Text → Text → ℕ → CacheTier → Cache → Cache × Option FileName
  adopt_file env key blob bytes tier c =
      let (c', fit) = evict_to_fit env.deletes env.evict_at bytes (remove_prev env.deletes key c) in
      let file = bin (suc c'.manifest.seq) in
      if c.has_dir
      then if fit
        then (
          store env key file blob bytes tier false (bump_seq c'),
          if env.writes then some file else none,
        )
        else (c', none)
      else (c, none)

  -- `stringify` is `JSON.stringify`, `none` where it throws or gives `undefined`.
  unfoldable pub put_json {ℓ} :
      {A : Type ℓ} → (A → Option Text) → Env → Text → A → CacheTier → Cache → Cache
  put_json stringify env key value tier c = elim (stringify value) [
    | none ↦ c
    | some raw ↦ if c.has_dir then write_entry env key raw (utf8_bytes raw) tier true c else c
  ]

  -- The folder goes with every file in it, `manifest.json` too.
  unfoldable pub hard_reset : Bool → Bool → Cache → Cache
  hard_reset deletes_dir removes_async c = elim c.has_dir [
    | false ↦ record c { manifest = empty_manifest }
    | true ↦ record c {
      manifest = empty_manifest;
      disk = if deletes_dir then (λ _. none) else c.disk;
      manifest_file = if deletes_dir then none else c.manifest_file;
      manifest_async = if removes_async then none else c.manifest_async;
    }
  ]

  unfoldable pub clear : Bool → Bool → Bool → Bool → Cache → Cache
  clear deletes_dir removes_async saves_file saves_async c =
      persist_now saves_file saves_async (hard_reset deletes_dir removes_async c)

-- What the checks of `load` let through: `decode` is `JSON.parse` with the shape of a manifest.
unfoldable pub accept_manifest : (Text → Option Manifest) → Text → Option Manifest
accept_manifest decode raw = elim (decode raw) [
  | none ↦ none
  | some m ↦ if m.version == manifest_version then some m else none
]

-- The copy that is read: the file, or else the one in the asynchronous storage.
abbrev pub stored_copy : Bool → Bool → Cache → Option Text
stored_copy reads_file reads_async c = elim (if reads_file then c.manifest_file else none) [
  | some raw ↦ some raw
  | none ↦ if reads_async then c.manifest_async else none
]

module _ (encode : Manifest → Text) (decode : Text → Option Manifest) where
  unfoldable pub load : Bool → Bool → Bool → Bool → Cache → Cache
  load reads_file reads_async deletes_dir removes_async c =
      if c.has_dir
      then elim (stored_copy reads_file reads_async c) [
        | none ↦ c
        | some [] ↦ c
        | some (x ∷ raw) ↦ elim (accept_manifest decode (x ∷ raw)) [
          | some m ↦ record c { manifest = m }
          | none ↦ hard_reset encode deletes_dir removes_async c
        ]
      ]
      else c
