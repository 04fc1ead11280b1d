-- ===== src/Cache/Reload.antt =====
-- The manifest across a restart, and the tiers of paths.
use thassa.Base.{
  ℕ, ◌≡◌, refl, ◌≢◌, ◌⊎◌, ◌↔◌, Bool, true, false, Text, codes, text_eq_iff, [], ◌∷◌, ◌++◌, Option,
  none, some, arith,
}
use mathlib.Core.Path.{subst}
use thassa.Cache.{pinned, Manifest, manifest_version, empty_manifest}
use thassa.Cache.Evict.{Cache}
use thassa.Cache.Files.{persist_now, accept_manifest, load}
use thassa.Cache.Reads.{before_query, tier_for_path}

-- A new start, with what the last run left on the device.
abbrev pub restarted : Cache → Cache
restarted c = record c { manifest = empty_manifest; dirty = false; pinned_username = none }

load_hit :
    (encode : Manifest → Text) (decode : Text → Option Manifest)
    (reads_async deletes_dir removes_async : Bool) (c : Cache) (m : Manifest) (x : ℕ) (raw : Text)
    → c.has_dir ≡ true
    → c.manifest_file ≡ some (x ∷ raw)
    → decode (x ∷ raw) ≡ some m
    → m.version ≡ manifest_version
    → (load encode decode true reads_async deletes_dir removes_async c).manifest ≡ m
unfolding load accept_manifest
load_hit encode decode reads_async deletes_dir removes_async c m x raw dir stored parsed version =
    ground arith

-- A manifest whose file was written is what the next start loads, if its JSON text is not empty and
-- parses back to it, on a platform with a folder.
pub load-persist_now :
    (encode : Manifest → Text) (decode : Text → Option Manifest)
    (saves_async reads_async deletes_dir removes_async : Bool) (c : Cache)
    → decode (encode c.manifest) ≡ some c.manifest
    → encode c.manifest ≢ []
    → c.has_dir ≡ true
    → c.manifest.version ≡ manifest_version
    → (load encode decode true reads_async deletes_dir removes_async
        (restarted (persist_now encode true saves_async c))).manifest
      ≡ c.manifest
unfolding persist_now
load-persist_now encode decode saves_async reads_async deletes_dir removes_async c back filled dir
      version =
    go (encode c.manifest) refl
  where
    go :
        (raw : Text)
        → encode c.manifest ≡ raw
        → (load encode decode true reads_async deletes_dir removes_async
            (restarted (persist_now encode true saves_async c))).manifest
          ≡ c.manifest
    go [] e = absurd (filled e)
    go (x ∷ raw) e =
        load_hit encode decode reads_async deletes_dir removes_async _ c.manifest x raw dir
          (rw (dir, e)) (subst (λ t. decode t ≡ some c.manifest) e back) version

-- A path is pinned exactly when, up to its query, it is the own account's, or the profile or the posts of the
-- registered username.
pub tier_for_path-pinned :
    (c : Cache) (u path : Text)
    → c.pinned_username ≡ some u
    → (tier_for_path c path ≡ pinned) ↔ (
        (before_query path ≡ codes "/v1/me")
        ⊎ (before_query path ≡ codes "/v1/users/" ++ u)
        ⊎ (before_query path ≡ (codes "/v1/users/" ++ u) ++ codes "/posts"))
unfolding tier_for_path
tier_for_path-pinned c u path h = rw h (
    ground (
      arith,
      text_eq_iff p (codes "/v1/me"),
      text_eq_iff p own,
      text_eq_iff p (own ++ codes "/posts"),
    ))
  where
    p : Text
    p = before_query path

    own : Text
    own = codes "/v1/users/" ++ u
