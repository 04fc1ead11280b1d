-- ===== src/Api/Offline.antt =====
-- Reads of the mobile client that fall back to the cache: `get` with the cache of mobile/lib/cache.ts.
use thassa.Base.{ℕ, ◌-◌, ◌≤◌, ◌≡◌, ◌≢◌, refl, ap, ◌∙◌, Bool, true, Text, codes, Option, none, some}
use thassa.Json.{Json, null, num, str, obj}
use thassa.Api.{network_error, Outcome, returns, throws}
use thassa.Api.Mobile.{Sent, unreachable, Net, cached_or, cache_key, after_req, req, get}
use thassa.Api.Attempts.{settled, req-Settled}
use thassa.Cache.{Manifest, budget_bytes, max_age, utf8_bytes}
use thassa.Cache.Evict.{Cache}
use thassa.Cache.Writes.{IsSound}
use thassa.Cache.Files.{Env}
use thassa.Cache.Reads.{tier_for_path}
use thassa.Cache.ReadBack.{get_json-put_json}

-- Nothing is reached.
abbrev pub IsOffline : Net → Type 0
IsOffline net = (n : ℕ) (s : Sent) → net.answer n s ≡ unreachable

pub req-offline :
    (net : Net) (method path : Text) (body : Option Json) (idem_key : Option Text)
    → IsOffline net
    → (req net method path body idem_key).0 ≡ throws network_error
req-offline net method path body idem_key off =
    let (n, e, r, q) = req-Settled net method path body idem_key in
    ap (λ p. p.0) q ∙ ap (settled net method path body idem_key) (off e _)

cached_or-some :
    (failure : Outcome Json) (value : Json)
    → value ≢ null
    → cached_or failure (some value) ≡ returns value
cached_or-some failure null h = absurd (h refl)
cached_or-some failure (num n) h = refl
cached_or-some failure (str t) h = refl
cached_or-some failure (obj fs) h = refl

-- What was read online is what is read offline, as long as the cache keeps it: on a sound cache with a
-- folder, for a value other than null whose text fits the budget and is parsed back, where the file is
-- written and read, and before the age that is set for the path.
pub get-get :
    (encode : Manifest → Text) (stringify : Json → Option Text) (net off : Net) (env env' : Env)
    (now now' : ℕ) (reads : Bool) (path raw : Text) (c : Cache) (value : Json)
    → IsSound c
    → c.has_dir ≡ true
    → (req net (codes "GET") path none none).0 ≡ returns value
    → value ≢ null
    → stringify value ≡ some raw
    → off.parse raw ≡ some value
    → utf8_bytes raw ≤ budget_bytes
    → env.writes ≡ true
    → now' - env.write_at ≤ max_age (tier_for_path c path)
    → IsOffline off
    → (get encode stringify off env' now' true path
        (get encode stringify net env now reads path c).1).0
      ≡ returns value
unfolding get after_req
get-get encode stringify net off env env' now now' reads path raw c value v dir online some_value
      made back fits w fresh offline =
    rw
      (
        online,
        req-offline off (codes "GET") path none none offline,
        get_json-put_json encode stringify off.parse env (cache_key path) value
            (tier_for_path c path) c raw now' v dir made back fits w fresh,
      )
      (cached_or-some (throws network_error) value some_value)
