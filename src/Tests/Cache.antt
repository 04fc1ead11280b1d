-- ===== src/Tests/Cache.antt =====
-- A cache of two entries, one pinned, and writes, reads and a restart of it. JSON values are texts that
-- stand for themselves.
use thassa.Base.{
  ◌+◌, ◌≤◌, ◌≡◌, refl, ◌≢◌, ◌⊎◌, true, false, leb, Text, codes, text_eq_iff, [], ◌∷◌, none, some,
  arith,
}
use thassa.Cache.{
  CacheMeta, Manifest, dat, pinned, normal, manifest_version, budget_bytes, is_stale, utf8_bytes,
  score_lt, score_num, score_den,
}
use thassa.Cache.Budget.{evict_to_fit-fits}
use thassa.Cache.Bytes.{utf16_all, utf16}
use thassa.Cache.Entries.{find, delete}
use thassa.Cache.Evict.{
  Cache, Deletes, sort_by_score, insert_by_score, evict_to_fit, evict_loop, drop_stale,
  remove_entry,
}
use thassa.Cache.Files.{
  Env, put_json, write_entry, persist_now, load, remove_prev, store, add_entry,
}
use thassa.Cache.Media.{responds}
use thassa.Cache.ReadBack.{get_json-put_json}
use thassa.Cache.Reads.{get_json}
use thassa.Cache.Reload.{restarted, load-persist_now}
use thassa.Cache.Run.{Event, run, run-IsSound}
use thassa.Cache.Writes.{IsSound}

abbrev deletes_all : Deletes
deletes_all _ = true

abbrev pub env : Env
env = record {
  evict_at = 1000;
  write_at = 1001;
  deletes = deletes_all;
  writes = true;
  saves_file = true;
  saves_async = false;
}

abbrev me : CacheMeta
me = record {
  key = codes "GET:/v1/me";
  file = dat 1;
  bytes = 300;
  tier = pinned;
  is_json = true;
  last_access = 500;
  hits = 2;
  created_at = 400;
}

abbrev feed : CacheMeta
feed = record me {
  key = codes "GET:/v1/feed";
  file = dat 2;
  bytes = 524287700;
  tier = normal;
  hits = 9;
}

abbrev pub full : Cache
full = record {
  manifest = record {
    version = manifest_version;
    seq = 2;
    total_bytes = 524288000;
    entries = me ∷ feed ∷ [];
  };
  has_dir = true;
  disk = λ _. some (codes "{}");
  manifest_file = none;
  manifest_async = none;
  dirty = false;
  pinned_username = some (codes "ada");
}

abbrev pub encode : Manifest → Text
encode m = codes "manifest"

abbrev key : Text
key = codes "GET:/v1/wallet"

pub full-IsSound : IsSound full
unfolding find
full-IsSound = record {
  inv = record {
    counted = refl;
    distinct = (refl, (refl, tt));
    rising = (((omega arith), tt), (tt, tt));
    used = omega arith;
  };
  within = omega arith;
}

-- The full cache gives up the entry that is not pinned, in spite of its hits.
sort_full : sort_by_score 1000 full.manifest.entries ≡ feed ∷ me ∷ []
unfolding sort_by_score insert_by_score score_lt score_num score_den
sort_full = refl

put_full : (put_json encode some env key (codes "[]") normal full).manifest.total_bytes ≡ 302
unfolding put_json write_entry remove_prev find evict_to_fit drop_stale is_stale evict_loop
    sort_by_score insert_by_score score_lt score_num score_den remove_entry delete store add_entry
    persist_now utf8_bytes
put_full = refl

evict_to_fit-fits_example :
    ((evict_to_fit deletes_all 1000 2 full).1 ≡ leb 2 budget_bytes)
    × (((evict_to_fit deletes_all 1000 2 full).1 ≡ false)
        ⊎ ((evict_to_fit deletes_all 1000 2 full).0.manifest.total_bytes + 2 ≤ budget_bytes))
evict_to_fit-fits_example = evict_to_fit-fits deletes_all 1000 2 full full-IsSound.inv

run-IsSound_example : IsSound (
    run encode some some full (
      Event.puts env key (codes "[]") normal
      ∷ Event.gets 2000 true key
      ∷ Event.drops deletes_all key
      ∷ Event.fetches 2000 true env
          (responds 200 5 (codes "media"))
          (codes "https://thassa.xyz/a.png")
      ∷ []))
run-IsSound_example = run-IsSound encode some some full _ full-IsSound

get_json-put_json_example :
    (get_json some 2000 true key (put_json encode some env key (codes "[]") normal full)).value
    ≡ some (codes "[]")
unfolding utf8_bytes
get_json-put_json_example =
    get_json-put_json encode some some env key (codes "[]") normal full (codes "[]") 2000
      full-IsSound refl refl refl (omega arith) refl (omega arith)

me_left :
    find me.key (write_entry encode env key (codes "[]") 2 normal true full).manifest.entries
    ≡ some me
unfolding write_entry remove_prev find evict_to_fit drop_stale is_stale evict_loop sort_by_score
    insert_by_score score_lt score_num score_den remove_entry delete store add_entry persist_now
    utf8_bytes
me_left = refl

me_ne_key : me.key ≢ key
me_ne_key e = ground (arith, text_eq_iff me.key key)

only_me : sort_by_score 1000 (me ∷ []) ≡ me ∷ []
unfolding sort_by_score insert_by_score
only_me = refl

load-persist_now_example :
    (load encode
      (λ _. some full.manifest)
      true
      true
      true
      true
      (restarted (persist_now encode true false full))).manifest
    ≡ full.manifest
load-persist_now_example =
    load-persist_now encode (λ _. some full.manifest) false true true true full refl (λ e. cc) refl
      refl

ten_bytes : utf8_bytes (utf16_all (0x41 ∷ 0xa2 ∷ 0x20ac ∷ 0x1f600 ∷ [])) ≡ 10
unfolding utf8_bytes utf16_all utf16
ten_bytes = refl
