-- ===== src/Api/Mobile.antt =====
-- mobile/lib/api.ts: the class `Api`. What happens while a request is tried is kept in a list, attempt by
-- attempt: what `fetch` was given, and the waits between. The token and the warp target are there, and
-- a response comes with its text.
use thassa.Base.{
  ℕ, zero, suc, ◌+◌, ◌-◌, ◌*◌, ◌^◌, ◌==◌, ltb, leb, ◌&&◌, ◌||◌, if◌then◌else◌, min, Bool, true,
  false, Text, codes, text_eq, List, [], ◌∷◌, ◌++◌, Option, none, some,
}
use thassa.Json.{Json, null, num, str, obj, field}
use thassa.Api.{network_error, api_error, other_error, Outcome, returns, throws}
use thassa.Cache.{Manifest}
use thassa.Cache.Evict.{Cache}
use thassa.Cache.Files.{Env, put_json}
use thassa.Cache.Reads.{get_json, tier_for_path}

pub record Sent : Type 0 where
  pub method : Text
  pub path : Text
  pub body : Option Json
  pub authorization : Option Text
  pub warp : Option Text
  pub idempotency_key : Option Text

pub data Event : Type 0 where
  fetched : Sent → Event
  slept : ℕ → Event

-- `fetch` rejects, or there is a response with a status and a text.
pub data Answer : Type 0 where
  unreachable : Answer
  responds : ℕ → Text → Answer

-- What the world answers at each attempt. `jitter` is `Math.floor(Math.random() * 150)`, and `parse` is
-- `JSON.parse`, `none` where it throws.
pub record Net : Type 0 where
  pub token : ℕ → Option Text
  pub warp_target : ℕ → Option Text
  pub answer : ℕ → Sent → Answer
  pub jitter : ℕ → ℕ
  pub parse : Text → Option Json

abbrev pub max_retries : ℕ
max_retries = 4

abbrev pub is_retryable : ℕ → Bool
is_retryable status = status == 502 || status == 503 || status == 504

abbrev pub backoff_ms : Net → ℕ → ℕ
backoff_ms net attempt = min (400 * 2 ^ attempt) 5000 + net.jitter attempt

abbrev pub safe_parse : (Text → Option Json) → Text → Json
safe_parse parse [] = null
safe_parse parse (c ∷ t) = elim (parse (c ∷ t)) [ none ↦ null | some json ↦ json ]

-- An empty text is none in a test.
abbrev pub present : Option Text → Option Text
present none = none
present (some []) = none
present (some (c ∷ t)) = some (c ∷ t)

abbrev pub has_text : Option Text → Bool
has_text none = false
has_text (some []) = false
has_text (some (c ∷ t)) = true

abbrev pub is_ok : ℕ → Bool
is_ok status = leb 200 status && leb status 299

abbrev text_of : Json → Option Text
text_of null = none
text_of (num n) = none
text_of (str t) = some t
text_of (obj fs) = none

-- `body?.error`, where it is a text.
unfoldable pub error_of : Json → Option Text
error_of null = none
error_of (num n) = none
error_of (str t) = none
error_of (obj fs) = elim (field (codes "error") fs) [ none ↦ none | some j ↦ text_of j ]

abbrev pub sent_at : Net → Text → Text → Option Json → Option Text → ℕ → Sent
sent_at net method path body idem_key attempt = record {
  method = method;
  path = path;
  body = body;
  authorization = present (net.token attempt);
  warp = present (net.warp_target attempt);
  idempotency_key = present idem_key;
}

-- `req` from the answer to `fetch` on, where `again` is what another attempt comes to.
unfoldable pub after_answer :
    Net
    → Text
    → Option Text
    → ℕ
    → Sent
    → Outcome Json × List Event
    → Answer
    → Outcome Json × List Event
after_answer net method idem_key attempt sent again unreachable =
    if ltb attempt (max_retries - 1)
    then (again.0, fetched sent ∷ slept (backoff_ms net attempt) ∷ again.1)
    else (throws network_error, fetched sent ∷ [])
after_answer net method idem_key attempt sent again (responds status text) =
    let json = safe_parse net.parse text in
    if is_ok status
    then (returns json, fetched sent ∷ [])
    else if is_retryable status
        && (text_eq method (codes "GET") || has_text idem_key)
        && ltb attempt (max_retries - 1)
    then (again.0, fetched sent ∷ slept (backoff_ms net attempt) ∷ again.1)
    else (throws (api_error status (error_of json)), fetched sent ∷ [])

-- On as much fuel as there are attempts left.
unfoldable pub req_from :
    Net → Text → Text → Option Json → Option Text → ℕ → ℕ → Outcome Json × List Event
req_from net method path body idem_key zero attempt = (throws network_error, [])
req_from net method path body idem_key (suc fuel) attempt =
    let again = req_from net method path body idem_key fuel (suc attempt) in
    let sent = sent_at net method path body idem_key attempt in
    after_answer net method idem_key attempt sent again (net.answer attempt sent)

abbrev pub req : Net → Text → Text → Option Json → Option Text → Outcome Json × List Event
req net method path body idem_key = req_from net method path body idem_key max_retries 0

-- The mutations, with the key that `Crypto.randomUUID` makes.
abbrev pub post : Net → Text → Text → Option Json → Outcome Json × List Event
post net key path body = req net (codes "POST") path body (some key)

abbrev pub put : Net → Text → Text → Option Json → Outcome Json × List Event
put net key path body = req net (codes "PUT") path body (some key)

abbrev pub patch : Net → Text → Text → Option Json → Outcome Json × List Event
patch net key path body = req net (codes "PATCH") path body (some key)

abbrev pub del : Net → Text → Text → Outcome Json × List Event
del net key path = req net (codes "DELETE") path none (some key)

abbrev pub del_with_body : Net → Text → Text → Json → Outcome Json × List Event
del_with_body net key path body = req net (codes "DELETE") path (some body) (some key)

-- `cached !== null`.
abbrev pub cached_or : Outcome Json → Option Json → Outcome Json
cached_or failure none = failure
cached_or failure (some null) = failure
cached_or failure (some (num n)) = returns (num n)
cached_or failure (some (str t)) = returns (str t)
cached_or failure (some (obj fs)) = returns (obj fs)

abbrev pub cache_key : Text → Text
cache_key path = codes "GET:" ++ path

-- With the cache: `encode` writes its manifest and `stringify` a value, `env` and `reads` are how the
-- files answer, and `now` is the clock of the read.
module _ (encode : Manifest → Text) (stringify : Json → Option Text) (net : Net) (env : Env)
    (now : ℕ) (reads : Bool) where
  -- `get` from the end of its request on.
  unfoldable pub after_req : Text → Cache → Outcome Json → Outcome Json × Cache
  after_req path c (returns value) =
      (returns value, put_json encode stringify env (cache_key path) value (tier_for_path c path) c)
  after_req path c (throws network_error) =
      let got = get_json net.parse now reads (cache_key path) c in
      (cached_or (throws network_error) got.value, got.after)
  after_req path c (throws (api_error status error)) = (throws (api_error status error), c)
  after_req path c (throws (other_error message)) = (throws (other_error message), c)

  unfoldable pub get : Text → Cache → Outcome Json × Cache
  get path c = after_req path c (req net (codes "GET") path none none).0
