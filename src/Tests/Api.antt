-- ===== src/Tests/Api.antt =====
-- A request that a gateway turns down once, one without a network, and one of the web client.
use mathlib.Core.Path.{subst}
use thassa.Base.{
  false, ℕ, suc, zero, ◌≡◌, ◌≢◌, refl, true, Text, codes, [], Option, none, some, arith,
}
use thassa.Json.{Json, null, num, str, obj}
use thassa.Api.{returns, throws, network_error, other_error}
use thassa.Api.Mobile.{
  Sent, Answer, unreachable, responds, Net, req, get, post, req_from, after_answer,
}
use thassa.Api.Attempts.{Settled, req-Settled}
use thassa.Api.Retries.{Bounded, req-Bounded}
use thassa.Api.Offline.{get-get}
use thassa.Api.Web
use thassa.Format.Money.{digits}
use thassa.Api.Upload.{Storage, store_file, upload_media}
use thassa.Api.WebRetries.{Kept, req-Kept}
use thassa.Cache.{utf8_bytes}
use thassa.Cache.Reads.{tier_for_path, before_query}
use thassa.Tests.Cache.{encode, env, full, full-IsSound}

abbrev parse : Text → Option Json
parse t = some (str t)

abbrev stringify : Json → Option Text
stringify j = some (codes "ok")

-- The first answer is a 502, the second the response.
abbrev flaky : ℕ → Sent → Answer
flaky zero s = responds 502 []
flaky (suc n) s = responds 200 (codes "ok")

abbrev net : Net
net = record {
  token = λ n. some (codes "t");
  warp_target = λ n. none;
  answer = flaky;
  jitter = λ n. 7;
  parse = parse;
}

abbrev off : Net
off = record {
  token = λ n. none;
  warp_target = λ n. none;
  answer = λ n s. unreachable;
  jitter = λ n. 7;
  parse = parse;
}

second_answer : (post net (codes "k") (codes "/v1/orders") none).0 ≡ returns (str (codes "ok"))
unfolding req_from after_answer
second_answer = refl

four_attempts : (req off (codes "GET") (codes "/v1/feed") none none).0 ≡ throws network_error
unfolding req_from after_answer
four_attempts = refl

online : (req net (codes "GET") (codes "/v1/feed") none none).0 ≡ returns (str (codes "ok"))
unfolding req_from after_answer
online = refl

req-Settled_example : Settled net (codes "POST") (codes "/v1/orders") none (some (codes "k")) 4 0
req-Settled_example = req-Settled net (codes "POST") (codes "/v1/orders") none (some (codes "k"))

req-Bounded_example :
    Bounded net
      (codes "POST")
      (codes "/v1/orders")
      none
      (some (codes "k"))
      (req net (codes "POST") (codes "/v1/orders") none (some (codes "k"))).1
req-Bounded_example =
    req-Bounded net (codes "POST") (codes "/v1/orders") none (some (codes "k")) (λ n. omega arith)

IsStr : Json → Type 0
IsStr (str t) = Unit {0}
IsStr null = ⊥
IsStr (num n) = ⊥
IsStr (obj fs) = ⊥

not_null : str (codes "ok") ≢ null
unfolding IsStr
not_null e = subst IsStr e tt

get-get_example :
    (get encode stringify off env 2000 true
      (codes "/v1/feed")
      (get encode stringify net env 1000 true (codes "/v1/feed") full).1).0
    ≡ returns (str (codes "ok"))
unfolding utf8_bytes tier_for_path before_query
get-get_example =
    get-get encode stringify net off env env 1000 2000 true (codes "/v1/feed") (codes "ok") full
      (str (codes "ok")) full-IsSound refl online not_null refl refl (omega arith) refl
      (omega arith) (λ n s. refl)

abbrev web_net : Web.Net
web_net = record {
  token = none;
  warp_target = none;
  key = codes "k";
  first = λ s. Web.rejects (codes "Failed to fetch");
  second = λ s. Web.responds 200 (codes "ok");
  parse = λ t. returns (str t);
}

req-Kept_example :
    Kept web_net
      (codes "POST")
      (codes "/v1/orders")
      none
      none
      (Web.req web_net (codes "POST") (codes "/v1/orders") none none).1
req-Kept_example = req-Kept web_net (codes "POST") (codes "/v1/orders") none none

abbrev storage : Storage
storage = record {
  is_web = false;
  aborted_at_start = false;
  aborted_after = false;
  blob = returns tt;
  put = returns (some 200);
}

-- The storage turns the file down.
rejected :
    upload_media net
      (codes "k")
      net
      (codes "l")
      (record storage { put = returns (some 403) })
      (codes "image/png")
    ≡ throws (other_error (codes "upload failed (403)"))
unfolding upload_media store_file req_from after_answer digits
rejected = refl
