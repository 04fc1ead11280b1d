-- ===== src/Cache/ReadBack.antt =====
-- What is read after a write: the value that was put, and of the other entries what stood there.
use mathlib.Core.Path.{subst}
use thassa.Base.{
  ℕ, suc, ◌-◌, ◌≤◌, ◌≡◌, refl, ◌∙◌, ◌≢◌, Bool, true, false, if◌then◌else◌, if_cases, Text, text_eq,
  text_eq_iff, text_eq_refl, [], ◌∷◌, ◌++◌, Option, none, some, arith,
}
use thassa.Cache.{
  CacheTier, CacheMeta, Manifest, FileName, dat, budget_bytes, max_age, is_stale, utf8_bytes,
}
use thassa.Cache.Append.{find-append}
use thassa.Cache.Entries.{find, find-All}
use thassa.Cache.Evict.{Cache}
use thassa.Cache.Files.{
  Env, new_meta, bump_seq, add_entry, persist_now, store, write_entry, put_json,
}
use thassa.Cache.Invariant.{number, Inv, Shrinks, Shrinks-Inv}
use thassa.Cache.Reads.{get_json}
use thassa.Cache.Writes.{IsSound, prepared, prepared-Shrinks, prepared-find, prepared-fits}
use thassa.Cache.Apart.{file_eq_refl, file_ne, Shrinks-survivor}

module _ (encode : Manifest → Text) (env : Env) (key : Text) (contents : Text) (bytes : ℕ)
    (tier : CacheTier) (is_json : Bool) (file : FileName) where
  abbrev entry : CacheMeta
  entry = new_meta env.write_at key file bytes tier is_json

  store-find :
      (c : Cache)
      → find key c.manifest.entries ≡ none
      → env.writes ≡ true
      → (find key
            (store encode env key file contents bytes tier is_json (bump_seq c)).manifest.entries
          ≡ some entry)
        × ((store encode env key file contents bytes tier is_json (bump_seq c)).disk file
            ≡ some contents)
  unfolding store persist_now add_entry
  store-find c absent w =
      rw w (find-append key c.manifest.entries entry ∙ rest, rw (file_eq_refl file))
    where
      rest :
          elim (find key c.manifest.entries) [
            | some x ↦ some x
            | none ↦ if text_eq key key then some entry else none
          ]
          ≡ some entry
      rest = rw (absent, text_eq_refl key)

  appended_other :
      (c : Cache) (j : Text) (x : CacheMeta)
      → j ≢ key
      → find j (c.manifest.entries ++ entry ∷ []) ≡ some x
      → find j c.manifest.entries ≡ some x
  appended_other c j x ne f =
      ground (arith, find-append j c.manifest.entries entry, text_eq_iff key j)

  store-other :
      (c : Cache) (j : Text) (x : CacheMeta)
      → j ≢ key
      → Inv c
      → number file ≡ suc c.manifest.seq
      → find j (store encode env key file contents bytes tier is_json (bump_seq c)).manifest.entries
        ≡ some x
      → (find j c.manifest.entries ≡ some x)
        × ((store encode env key file contents bytes tier is_json (bump_seq c)).disk x.file
            ≡ c.disk x.file)
  unfolding store persist_now add_entry
  store-other c j x ne i fresh =
      if_cases
        (λ (e : Cache).
          find j e.manifest.entries ≡ some x
          → (find j c.manifest.entries ≡ some x) × (e.disk x.file ≡ c.disk x.file))
        env.writes
        (λ w f.
          let stood = appended_other c j x ne f in
          let used : number x.file ≤ c.manifest.seq =
            find-All (λ z. number z.file ≤ c.manifest.seq) j c.manifest.entries x stood i.used in
          (stood, rw (file_ne file x.file (λ q. omega arith))))
        (λ w f. (f, refl))

module _ (encode : Manifest → Text) (env : Env) (key : Text) (contents : Text) (bytes : ℕ)
    (tier : CacheTier) (is_json : Bool) where
  -- A write leaves of any other entry that is still there the entry itself and its file.
  pub write_entry-other :
      (c : Cache) (j : Text) (x : CacheMeta)
      → IsSound c
      → j ≢ key
      → find j (write_entry encode env key contents bytes tier is_json c).manifest.entries ≡ some x
      → (find j c.manifest.entries ≡ some x)
        × ((write_entry encode env key contents bytes tier is_json c).disk x.file ≡ c.disk x.file)
  unfolding write_entry
  write_entry-other c j x v ne =
      if_cases
        (λ (e : Cache).
          find j e.manifest.entries ≡ some x
          → (find j c.manifest.entries ≡ some x) × (e.disk x.file ≡ c.disk x.file))
        c.has_dir
        (λ dir.
          if_cases
            (λ (e : Cache).
              find j e.manifest.entries ≡ some x
              → (find j c.manifest.entries ≡ some x) × (e.disk x.file ≡ c.disk x.file))
            (prepared env key bytes c).1
            (λ fit f.
              let (stood, same_file) =
                store-other encode env key contents bytes tier is_json (dat (suc e.manifest.seq)) e
                  j x ne (Shrinks-Inv s v.inv) refl f in
              let (stood', same_file') = Shrinks-survivor j x v.inv s stood in
              (stood', same_file ∙ same_file'))
            (λ unfit. Shrinks-survivor j x v.inv s))
        (λ no_dir f. (f, refl))
    where
      e : Cache
      e = (prepared env key bytes c).0

      s : Shrinks env.deletes c e
      s = prepared-Shrinks env key bytes c v.inv

  write_entry-find :
      (c : Cache)
      → IsSound c
      → c.has_dir ≡ true
      → bytes ≤ budget_bytes
      → env.writes ≡ true
      → (m : CacheMeta) × (find key
            (write_entry encode env key contents bytes tier is_json c).manifest.entries
          ≡ some m)
        × ((write_entry encode env key contents bytes tier is_json c).disk m.file ≡ some contents)
        × (m.tier ≡ tier)
        × (m.is_json ≡ is_json)
        × (m.created_at ≡ env.write_at)
  unfolding write_entry
  write_entry-find c v =
      if_cases
        (λ (r : Cache).
          c.has_dir ≡ true
          → bytes ≤ budget_bytes
          → env.writes ≡ true
          → (m : CacheMeta) × (find key r.manifest.entries ≡ some m)
            × (r.disk m.file ≡ some contents)
            × (m.tier ≡ tier)
            × (m.is_json ≡ is_json)
            × (m.created_at ≡ env.write_at))
        c.has_dir
        (λ dir.
          if_cases
            (λ (r : Cache).
              c.has_dir ≡ true
              → bytes ≤ budget_bytes
              → env.writes ≡ true
              → (m : CacheMeta) × (find key r.manifest.entries ≡ some m)
                × (r.disk m.file ≡ some contents)
                × (m.tier ≡ tier)
                × (m.is_json ≡ is_json)
                × (m.created_at ≡ env.write_at))
            (prepared env key bytes c).1
            (λ fit d l w.
              let (f, g) =
                store-find encode env key contents bytes tier is_json (dat (suc e.manifest.seq)) e
                  (prepared-find env key bytes c v.inv) w in
              (
                new_meta env.write_at key (dat (suc e.manifest.seq)) bytes tier is_json,
                f,
                g,
                refl,
                refl,
                refl,
              ))
            (λ unfit d l w. absurd (ground (arith, prepared-fits env key bytes c v.inv))))
        (λ no_dir d l w. absurd (ground arith))
    where
      e : Cache
      e = (prepared env key bytes c).0

get_json_hit {ℓ} :
    {A : Type ℓ} (parse : Text → Option A) (now : ℕ) (key : Text) (c : Cache) (m : CacheMeta)
    (raw : Text) (value : A)
    → find key c.manifest.entries ≡ some m
    → m.is_json ≡ true
    → is_stale m now ≡ false
    → c.disk m.file ≡ some raw
    → parse raw ≡ some value
    → (get_json parse now true key c).value ≡ some value
unfolding get_json
get_json_hit parse now key c m raw value f j s g back =
    rw (f, get_json) (rw (s, j) (rw (g) (rw back)))

put_json-eq {ℓ} :
    {A : Type ℓ} (encode : Manifest → Text) (stringify : A → Option Text) (env : Env) (key : Text)
    (value : A) (tier : CacheTier) (c : Cache) (raw : Text)
    → c.has_dir ≡ true
    → stringify value ≡ some raw
    → write_entry encode env key raw (utf8_bytes raw) tier true c
      ≡ put_json encode stringify env key value tier c
unfolding put_json
put_json-eq encode stringify env key value tier c raw dir made = ground arith

is_stale_fresh :
    (m : CacheMeta) (now at : ℕ) (tier : CacheTier)
    → m.tier ≡ tier
    → m.created_at ≡ at
    → now - at ≤ max_age tier
    → is_stale m now ≡ false
unfolding is_stale
is_stale_fresh m now at tier t a h = rw (t, a) (ground arith)

-- What `putJSON` stores `getJSON` gives back, until it is stale: on a sound cache with a folder, for a
-- value whose text fits the budget and is parsed back, where the write succeeds, and the read too.
pub get_json-put_json {ℓ} :
    {A : Type ℓ} (encode : Manifest → Text) (stringify : A → Option Text) (parse : Text → Option A)
    (env : Env) (key : Text) (value : A) (tier : CacheTier) (c : Cache) (raw : Text) (now : ℕ)
    → IsSound c
    → c.has_dir ≡ true
    → stringify value ≡ some raw
    → parse raw ≡ some value
    → utf8_bytes raw ≤ budget_bytes
    → env.writes ≡ true
    → now - env.write_at ≤ max_age tier
    → (get_json parse now true key (put_json encode stringify env key value tier c)).value
      ≡ some value
get_json-put_json encode stringify parse env key value tier c raw now v dir made back fits w fresh =
    let (m, f, g, t, j, a) =
      write_entry-find encode env key raw (utf8_bytes raw) tier true c v dir fits w in
    subst (λ (e : Cache). (get_json parse now true key e).value ≡ some value)
      (put_json-eq encode stringify env key value tier c raw dir made)
      (get_json_hit parse now key _ m raw value f j
        (is_stale_fresh m now env.write_at tier t a fresh) g back)
