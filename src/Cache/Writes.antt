-- ===== src/Cache/Writes.antt =====
-- The writes keep the cache well formed and within the budget.
use thassa.Base.{
  ℕ, suc, ◌+◌, ◌≤◌, ◌≡◌, refl, sym, ◌⊎◌, inl, inr, Bool, true, false, leb, Bool-cases, if_cases,
  Option-cases, Text, Option, none, some, arith,
}
use mathlib.Core.Path.{subst}
use thassa.Cache.{CacheTier, CacheMeta, Manifest, FileName, dat, bin, budget_bytes}
use thassa.Cache.Append.{sum_bytes-append, append-Distinct, append-All, append-Rising}
use thassa.Cache.Budget.{evict_to_fit-fits}
use thassa.Cache.Entries.{find, find-key, find-delete_self, find-none-delete}
use thassa.Cache.Evict.{Cache, Deletes, remove_entry, evict_to_fit}
use thassa.Cache.Files.{
  Env, new_meta, remove_prev, bump_seq, add_entry, persist_now, store, write_entry, adopt_file,
}
use thassa.Cache.Invariant.{
  number, Inv, Shrinks, here, next, Shrinks-Inv, evict_to_fit-Shrinks, All-map,
}

-- Well formed, and no more than the budget.
pub record IsSound (c : Cache) : Type 0 where
  pub inv : Inv c
  pub within : c.manifest.total_bytes ≤ budget_bytes

pub Shrinks-seq :
    {d : Deletes} {c e : Cache}
    → Shrinks d c e
    → (e.manifest.seq ≡ c.manifest.seq)
      × (e.has_dir ≡ c.has_dir)
      × (e.manifest.total_bytes ≤ c.manifest.total_bytes)
unfolding remove_entry
Shrinks-seq here = (refl, refl, omega arith)
Shrinks-seq (next e m s found) = let (q, h, l) = Shrinks-seq s in (q, h, omega arith)

pub Shrinks-none :
    {d : Deletes} {c e : Cache} (k : Text)
    → Shrinks d c e
    → find k c.manifest.entries ≡ none
    → find k e.manifest.entries ≡ none
unfolding remove_entry
Shrinks-none k here h = h
Shrinks-none k (next e m s found) h =
    find-none-delete m.key k e.manifest.entries (Shrinks-none k s h)

pub Shrinks-trans : {d : Deletes} {b c e : Cache} → Shrinks d b c → Shrinks d c e → Shrinks d b e
Shrinks-trans s here = s
Shrinks-trans s (next e m t found) = next e m (Shrinks-trans s t) found

remove_prev-Shrinks : (d : Deletes) (key : Text) (c : Cache) → Shrinks d c (remove_prev d key c)
unfolding remove_prev
remove_prev-Shrinks d key c = elim (Option-cases (find key c.manifest.entries)) [
  | inl absent ↦ rw (absent, remove_prev) here
  | inr (m, found) ↦
      rw (found, remove_prev)
        (next c m here (
          subst (λ k. find k c.manifest.entries ≡ some m)
            (sym (find-key key c.manifest.entries m found)) found))
]

remove_prev-find :
    (d : Deletes) (key : Text) (c : Cache)
    → Inv c
    → find key (remove_prev d key c).manifest.entries ≡ none
unfolding remove_prev remove_entry
remove_prev-find d key c i = elim (Option-cases (find key c.manifest.entries)) [
  | inl absent ↦ rw (absent, remove_prev) absent
  | inr (m, found) ↦
      rw (found, remove_prev, find-key key c.manifest.entries m found)
        (find-delete_self key c.manifest.entries i.distinct)
]

-- The cache and the verdict with which a write goes on.
abbrev pub prepared : Env → Text → ℕ → Cache → Cache × Bool
prepared env key bytes c =
    evict_to_fit env.deletes env.evict_at bytes (remove_prev env.deletes key c)

pub prepared-Shrinks :
    (env : Env) (key : Text) (bytes : ℕ) (c : Cache)
    → Inv c
    → Shrinks env.deletes c (prepared env key bytes c).0
prepared-Shrinks env key bytes c i =
    let s = remove_prev-Shrinks env.deletes key c in
    Shrinks-trans s (
      evict_to_fit-Shrinks env.deletes env.evict_at bytes (remove_prev env.deletes key c)
        (Shrinks-Inv s i))

pub prepared-find :
    (env : Env) (key : Text) (bytes : ℕ) (c : Cache)
    → Inv c
    → find key (prepared env key bytes c).0.manifest.entries ≡ none
prepared-find env key bytes c i =
    let s = remove_prev-Shrinks env.deletes key c in
    Shrinks-none key
      (evict_to_fit-Shrinks env.deletes env.evict_at bytes (remove_prev env.deletes key c)
        (Shrinks-Inv s i))
      (remove_prev-find env.deletes key c i)

pub prepared-fits :
    (env : Env) (key : Text) (bytes : ℕ) (c : Cache)
    → Inv c
    → ((prepared env key bytes c).1 ≡ leb bytes budget_bytes)
      × (((prepared env key bytes c).1 ≡ false)
          ⊎ ((prepared env key bytes c).0.manifest.total_bytes + bytes ≤ budget_bytes))
prepared-fits env key bytes c i =
    evict_to_fit-fits env.deletes env.evict_at bytes _
      (Shrinks-Inv (remove_prev-Shrinks env.deletes key c) i)

add_entry-Inv :
    (m : CacheMeta) (contents : Text) (c : Cache)
    → find m.key c.manifest.entries ≡ none
    → number m.file ≡ suc c.manifest.seq
    → Inv c
    → Inv (add_entry m contents (bump_seq c))
unfolding add_entry
add_entry-Inv m contents c absent fresh i = record {
  counted = omega (arith, i.counted, sum_bytes-append c.manifest.entries m);
  distinct = append-Distinct c.manifest.entries m absent i.distinct;
  rising = append-Rising c.manifest.seq c.manifest.entries m i.used (omega arith) i.rising;
  used =
      append-All (λ x. number x.file ≤ suc c.manifest.seq) c.manifest.entries m
        (All-map (λ x. number x.file ≤ c.manifest.seq) _ c.manifest.entries (λ x h. omega arith)
          i.used)
        (omega arith);
}

prepared-IsSound :
    (env : Env) (key : Text) (bytes : ℕ) (c : Cache)
    → IsSound c
    → IsSound (prepared env key bytes c).0
prepared-IsSound env key bytes c v =
    let s = prepared-Shrinks env key bytes c v.inv in
    record { inv = Shrinks-Inv s v.inv; within = omega (arith, (Shrinks-seq s).2, v.within) }

module _ (encode : Manifest → Text) where
  store-IsSound :
      (env : Env) (key : Text) (file : FileName) (contents : Text) (bytes : ℕ) (tier : CacheTier)
      (is_json : Bool) (c : Cache)
      → find key c.manifest.entries ≡ none
      → number file ≡ suc c.manifest.seq
      → Inv c
      → c.manifest.total_bytes + bytes ≤ budget_bytes
      → IsSound (store encode env key file contents bytes tier is_json (bump_seq c))
  unfolding store persist_now add_entry
  store-IsSound env key file contents bytes tier is_json c absent fresh i fits =
      elim (Bool-cases env.writes) [
        | inl w ↦
            let j = add_entry-Inv m contents c absent fresh i in
            rw w (record {
              inv = record {
                counted = j.counted;
                distinct = j.distinct;
                rising = j.rising;
                used = j.used;
              };
              within = fits;
            })
        | inr f ↦ rw f (record {
          inv = record {
            counted = i.counted;
            distinct = i.distinct;
            rising = i.rising;
            used =
                All-map (λ x. number x.file ≤ c.manifest.seq) _ c.manifest.entries
                  (λ x h. omega arith) i.used;
          };
          within = omega arith;
        })
      ]
    where
      m : CacheMeta
      m = new_meta env.write_at key file bytes tier is_json

  -- What `write_entry` and `adopt_file` do after the eviction.
  write-IsSound :
      (env : Env) (key : Text) (file : ℕ → FileName) (contents : Text) (bytes : ℕ)
      (tier : CacheTier) (is_json : Bool) (c : Cache)
      → ((n : ℕ) → number (file n) ≡ n)
      → IsSound c
      → (prepared env key bytes c).1 ≡ true
      → IsSound (
          store encode env key
            (file (suc (prepared env key bytes c).0.manifest.seq))
            contents
            bytes
            tier
            is_json
            (bump_seq (prepared env key bytes c).0))
  write-IsSound env key file contents bytes tier is_json c numbered v fit =
      let e = (prepared env key bytes c).0 in
      store-IsSound env key (file (suc e.manifest.seq)) contents bytes tier is_json e
        (prepared-find env key bytes c v.inv) (numbered _)
        (Shrinks-Inv (prepared-Shrinks env key bytes c v.inv) v.inv)
        (ground (arith, prepared-fits env key bytes c v.inv))

  -- sound
  pub write_entry-IsSound :
      (env : Env) (key contents : Text) (bytes : ℕ) (tier : CacheTier) (is_json : Bool) (c : Cache)
      → IsSound c
      → IsSound (write_entry encode env key contents bytes tier is_json c)
  unfolding write_entry
  write_entry-IsSound env key contents bytes tier is_json c v =
      if_cases IsSound c.has_dir
        (λ dir.
          if_cases IsSound (prepared env key bytes c).1
            (λ fit. write-IsSound env key dat contents bytes tier is_json c (λ n. refl) v fit)
            (λ unfit. prepared-IsSound env key bytes c v))
        (λ no_dir. v)

  -- sound
  pub adopt_file-IsSound :
      (env : Env) (key blob : Text) (bytes : ℕ) (tier : CacheTier) (c : Cache)
      → IsSound c
      → IsSound (adopt_file encode env key blob bytes tier c).0
  unfolding adopt_file
  adopt_file-IsSound env key blob bytes tier c v =
      if_cases (λ (r : Cache × Option FileName). IsSound r.0) c.has_dir
        (λ dir.
          if_cases (λ (r : Cache × Option FileName). IsSound r.0) (prepared env key bytes c).1
            (λ fit. write-IsSound env key bin blob bytes tier false c (λ n. refl) v fit)
            (λ unfit. prepared-IsSound env key bytes c v))
        (λ no_dir. v)
