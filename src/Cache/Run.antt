-- ===== src/Cache/Run.antt =====
-- Every operation of the cache as an event, and what holds after any history of them.
use thassa.Base.{
  ℕ, ◌≤◌, ◌<◌, ◌≡◌, refl, Bool, true, inl, inr, if_cases, if◌then◌else◌, Option-cases, Text,
  text_eq, List, [], ◌∷◌, All, Option, none, some, ◌&&◌, ◌||◌, ltb, leb, arith,
}
use thassa.Cache.{CacheTier, CacheMeta, Manifest, budget_bytes, empty_manifest, utf8_bytes, media}
use thassa.Cache.Entries.{find, modify, sum_bytes, Distinct, find-key}
use thassa.Cache.Evict.{Cache, Deletes, remove_entry}
use thassa.Cache.Files.{Env, put_json, hard_reset, clear, persist_now}
use thassa.Cache.Invariant.{number, Rising, remove_entry-Inv}
use thassa.Cache.Media.{
  Download, fails, responds, Uri, adopt_download, cached_media_uri, usable, media_key, is_remote,
}
use thassa.Cache.Reads.{touch, touch_entry, get_json, drop_job, set_pinned_identity}
use thassa.Cache.Writes.{IsSound, write_entry-IsSound, adopt_file-IsSound}
use mathlib.Core.Path.{subst, sym}

module _ (now : ℕ) (key : Text) where
  modify-All {κ} :
      (P : CacheMeta → Type κ) (ms : List CacheMeta)
      → ((m : CacheMeta) → P m → P (touch now m))
      → All P ms
      → All P (modify key (touch now) ms)
  unfolding modify
  modify-All P [] keep h = h
  modify-All P (m ∷ ms) keep h =
      if_cases (All P) (text_eq m.key key) (λ _. (keep m h.0, h.1))
        (λ _. (h.0, modify-All P ms keep h.1))

  sum_bytes-modify : (ms : List CacheMeta) → sum_bytes (modify key (touch now) ms) ≡ sum_bytes ms
  unfolding modify
  sum_bytes-modify [] = refl
  sum_bytes-modify (m ∷ ms) = ground (arith, sum_bytes-modify ms)

  find-modify-none :
      (k : Text) (ms : List CacheMeta)
      → find k ms ≡ none
      → find k (modify key (touch now) ms) ≡ none
  unfolding modify find
  find-modify-none k [] h = refl
  find-modify-none k (m ∷ ms) h = ground (arith, find-modify-none k ms)

  modify-Distinct : (ms : List CacheMeta) → Distinct ms → Distinct (modify key (touch now) ms)
  unfolding modify
  modify-Distinct [] d = d
  modify-Distinct (m ∷ ms) d =
      if_cases Distinct (text_eq m.key key) (λ _. d)
        (λ _. (find-modify-none m.key ms d.0, modify-Distinct ms d.1))

  modify-Rising : (ms : List CacheMeta) → Rising ms → Rising (modify key (touch now) ms)
  unfolding modify
  modify-Rising [] d = d
  modify-Rising (m ∷ ms) d =
      if_cases Rising (text_eq m.key key) (λ _. d)
        (λ _.
          (modify-All (λ x. number m.file < number x.file) ms (λ x h. h) d.0, modify-Rising ms d.1))

  touch_entry-IsSound : (c : Cache) → IsSound c → IsSound (touch_entry now key c)
  unfolding touch_entry
  touch_entry-IsSound c v = record {
    inv = record {
      counted = omega (arith, v.inv.counted, sum_bytes-modify c.manifest.entries);
      distinct = modify-Distinct c.manifest.entries v.inv.distinct;
      rising = modify-Rising c.manifest.entries v.inv.rising;
      used =
          modify-All (λ x. number x.file ≤ c.manifest.seq) c.manifest.entries (λ x h. h) v.inv.used;
    };
    within = v.within;
  }

  drop_job-IsSound : (d : Deletes) (c : Cache) → IsSound c → IsSound (drop_job d key c)
  unfolding drop_job remove_entry
  drop_job-IsSound d c v = elim (Option-cases (find key c.manifest.entries)) [
    | inl absent ↦ rw (absent, drop_job) v
    | inr (m, found) ↦
        let standing =
          subst (λ k. find k c.manifest.entries ≡ some m)
            (sym (find-key key c.manifest.entries m found)) found in
        let j = remove_entry-Inv d m c standing v.inv in
        rw (found, drop_job)
          (record {
            inv = record {
              counted = j.counted;
              distinct = j.distinct;
              rising = j.rising;
              used = j.used;
            };
            within = omega (arith, v.within);
          })
  ]

module _ {ℓ} {A : Type ℓ} (parse : Text → Option A) where
  get_json-IsSound :
      (now : ℕ) (reads : Bool) (key : Text) (c : Cache)
      → IsSound c
      → IsSound (get_json parse now reads key c).after
  unfolding get_json
  get_json-IsSound now reads key c v = ground (arith, touch_entry-IsSound now key c v)

same-IsSound : (c e : Cache) → e.manifest ≡ c.manifest → IsSound c → IsSound e
same-IsSound c e h v = record {
  inv = record {
    counted = subst (λ m. m.total_bytes ≡ sum_bytes m.entries) (sym h) v.inv.counted;
    distinct = subst (λ m. Distinct m.entries) (sym h) v.inv.distinct;
    rising = subst (λ m. Rising m.entries) (sym h) v.inv.rising;
    used = subst (λ m. All (λ x. number x.file ≤ m.seq) m.entries) (sym h) v.inv.used;
  };
  within = subst (λ m. m.total_bytes ≤ budget_bytes) (sym h) v.within;
}

empty-IsSound : (c : Cache) → c.manifest ≡ empty_manifest → IsSound c
empty-IsSound c h = record {
  inv = record {
    counted = subst (λ m. m.total_bytes ≡ sum_bytes m.entries) (sym h) (omega arith);
    distinct = subst (λ m. Distinct m.entries) (sym h) tt;
    rising = subst (λ m. Rising m.entries) (sym h) tt;
    used = subst (λ m. All (λ x. number x.file ≤ m.seq) m.entries) (sym h) tt;
  };
  within = subst (λ m. m.total_bytes ≤ budget_bytes) (sym h) (omega arith);
}

set_pinned_identity-manifest :
    (u : Option Text) (c : Cache) → (set_pinned_identity u c).manifest ≡ c.manifest
unfolding set_pinned_identity
set_pinned_identity-manifest none c = refl
set_pinned_identity-manifest (some []) c = refl
set_pinned_identity-manifest (some (x ∷ u)) c = refl

-- What can happen to the cache of one app: a call of a public method, a job of the queue that drops
-- an entry, or the flush of the timer. Each carries what the world answers to it.
pub data Event (A : Type 0) : Type 0 where
  puts : Env → Text → A → CacheTier → Event A
  gets : ℕ → Bool → Text → Event A
  drops : Deletes → Text → Event A
  fetches : ℕ → Bool → Env → Download → Text → Event A
  clears : Bool → Bool → Bool → Bool → Event A
  identifies : Option Text → Event A
  flushes : Bool → Bool → Event A

module _ {A : Type 0} (encode : Manifest → Text) (stringify : A → Option Text)
    (parse : Text → Option A) where
  unfoldable pub step : Cache → Event A → Cache
  step c (puts env key value tier) = put_json encode stringify env key value tier c
  step c (gets now reads key) = (get_json parse now reads key c).after
  step c (drops d key) = drop_job d key c
  step c (fetches now stats_file env download url) =
      (cached_media_uri encode now stats_file env download url c).0
  step c (clears deletes_dir removes_async saves_file saves_async) =
      clear encode deletes_dir removes_async saves_file saves_async c
  step c (identifies u) = set_pinned_identity u c
  step c (flushes saves_file saves_async) =
      if c.dirty then persist_now encode saves_file saves_async c else c

  unfoldable pub run : Cache → List (Event A) → Cache
  run c [] = c
  run c (e ∷ es) = run (step c e) es

  put_json-IsSound :
      (env : Env) (key : Text) (value : A) (tier : CacheTier) (c : Cache)
      → IsSound c
      → IsSound (put_json encode stringify env key value tier c)
  unfolding put_json
  put_json-IsSound env key value tier c v = elim (Option-cases (stringify value)) [
    | inl failed ↦ rw (failed, put_json) v
    | inr (raw, made) ↦
        rw (made, put_json)
          (if_cases IsSound c.has_dir
            (λ _. write_entry-IsSound encode env key raw (utf8_bytes raw) tier true c v) (λ _. v))
  ]

  adopt_download-IsSound :
      (env : Env) (url : Text) (download : Download) (c : Cache)
      → IsSound c
      → IsSound (adopt_download encode env url download c).0
  unfolding adopt_download
  adopt_download-IsSound env url fails c v = v
  adopt_download-IsSound env url (responds status size blob) c v =
      if_cases (λ (r : Cache × Uri). IsSound r.0) (ltb status 200 || leb 300 status) (λ _. v)
        (λ _. adopt_file-IsSound encode env (media_key url) blob size media c v)

  cached_media_uri-IsSound :
      (now : ℕ) (stats_file : Bool) (env : Env) (download : Download) (url : Text) (c : Cache)
      → IsSound c
      → IsSound (cached_media_uri encode now stats_file env download url c).0
  unfolding cached_media_uri
  cached_media_uri-IsSound now stats_file env download url c v =
      if_cases (λ (r : Cache × Uri). IsSound r.0) (c.has_dir && is_remote url)
        (λ _. elim (Option-cases (usable now stats_file (media_key url) c)) [
          | inl e ↦ rw e (adopt_download-IsSound env url download c v)
          | inr (m, e) ↦ rw e (touch_entry-IsSound now (media_key url) c v)
        ])
        (λ _. v)

  step-IsSound : (c : Cache) (e : Event A) → IsSound c → IsSound (step c e)
  unfolding step persist_now clear hard_reset
  step-IsSound c (puts env key value tier) v = put_json-IsSound env key value tier c v
  step-IsSound c (gets now reads key) v = get_json-IsSound parse now reads key c v
  step-IsSound c (drops d key) v = drop_job-IsSound 0 key d c v
  step-IsSound c (fetches now stats_file env download url) v =
      cached_media_uri-IsSound now stats_file env download url c v
  step-IsSound c (clears deletes_dir removes_async saves_file saves_async) v =
      empty-IsSound _ (ground arith)
  step-IsSound c (identifies u) v = same-IsSound c _ (set_pinned_identity-manifest u c) v
  step-IsSound c (flushes saves_file saves_async) v =
      if_cases IsSound c.dirty (λ _. same-IsSound c _ refl v) (λ _. v)

  -- After any history the recorded total is the sum of the entries' sizes and within the budget, no key
  -- stands twice, and no two entries share a file.
  pub run-IsSound : (c : Cache) (es : List (Event A)) → IsSound c → IsSound (run c es)
  unfolding run
  run-IsSound c [] v = v
  run-IsSound c (e ∷ es) v = run-IsSound (step c e) es (step-IsSound c e v)
