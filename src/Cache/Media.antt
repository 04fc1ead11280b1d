-- ===== src/Cache/Media.antt =====
-- mobile/lib/cache.ts: `cachedMediaUri`. A download is what the network answers.
use thassa.Base.{
  lower, ℕ, Bool, true, false, not, ◌&&◌, ◌||◌, leb, ltb, ◌==◌, if◌then◌else◌, Text, codes, [], ◌∷◌,
  ◌++◌, Option, none, some,
}
use thassa.Cache.{media, CacheMeta, Manifest, FileName, is_stale}
use thassa.Cache.Entries.{find}
use thassa.Cache.Evict.{Cache}
use thassa.Cache.Files.{Env, adopt_file}
use thassa.Cache.Reads.{touch_entry}

pub data Uri : Type 0 where
  remote : Text → Uri
  local : FileName → Uri

-- A response has its status, the size that the file system reports, and the bytes.
pub data Download : Type 0 where
  fails : Download
  responds : ℕ → ℕ → Text → Download

abbrev pub has_prefix : Text → Text → Bool
has_prefix [] s = true
has_prefix (c ∷ p) [] = false
has_prefix (c ∷ p) (d ∷ s) = c == lower d && has_prefix p s

-- `/^https?:\/\//i`.
abbrev pub is_remote : Text → Bool
is_remote url = has_prefix (codes "http://") url || has_prefix (codes "https://") url

abbrev pub media_key : Text → Text
media_key url = codes "MEDIA:" ++ url

-- The entry that is shown without a download; `stats_file` is whether the file can be looked up.
unfoldable pub usable : ℕ → Bool → Text → Cache → Option CacheMeta
usable now stats_file key c = elim (find key c.manifest.entries) [
  | none ↦ none
  | some m ↦
      if m.is_json || is_stale m now || not stats_file
      then none
      else elim (c.disk m.file) [ none ↦ none | some _ ↦ some m ]
]

module _ (encode : Manifest → Text) where
  unfoldable pub adopt_download : Env → Text → Download → Cache → Cache × Uri
  adopt_download env url fails c = (c, remote url)
  adopt_download env url (responds status size blob) c =
      let (c', adopted) = adopt_file encode env (media_key url) blob size media c in
      if ltb status 200 || leb 300 status
      then (c, remote url)
      else (c', elim adopted [ none ↦ remote url | some file ↦ local file ])

  unfoldable pub cached_media_uri : ℕ → Bool → Env → Download → Text → Cache → Cache × Uri
  cached_media_uri now stats_file env download url c =
      if c.has_dir && is_remote url
      then elim (usable now stats_file (media_key url) c) [
        | some m ↦ (touch_entry now (media_key url) c, local m.file)
        | none ↦ adopt_download env url download c
      ]
      else (c, remote url)
