-- ===== src/Api/Web.antt =====
-- web/lib/api.ts: the class `Api` and its error texts.
use thassa.Base.{
  ℕ, ◌==◌, leb, ◌&&◌, ◌||◌, if◌then◌else◌, or_else, lower, map, Bool, Text, codes, text_eq, List,
  [], ◌∷◌, ◌++◌, Option, none, some,
}
use thassa.Json.{Json, null, num, str, obj, fields}
use thassa.Api.{Thrown, network_error, api_error, other_error, Outcome, returns, throws}
use thassa.Api.Errors.{contains, read_only, says, text_or}
use thassa.Api.Mobile.{Sent, Event, fetched, slept, present, is_ok, error_of}
use thassa.Format.Money.{decimal}

-- `fetch` rejects with an `Error` of that message, or there is a response with a status and a text.
pub data Answer : Type 0 where
  rejects : Text → Answer
  responds : ℕ → Text → Answer

-- `key` is what `newIdempotencyKey` makes, `first` and `second` what `fetch` answers; `parse` is
-- `JSON.parse`, with what it throws.
pub record Net : Type 0 where
  pub token : Option Text
  pub warp_target : Option Text
  pub key : Text
  pub first : Sent → Answer
  pub second : Sent → Answer
  pub parse : Text → Outcome Json

abbrev pub is_mutating : Text → Bool
is_mutating method =
    text_eq method (codes "POST")
    || text_eq method (codes "PUT")
    || text_eq method (codes "PATCH")
    || text_eq method (codes "DELETE")

-- `key` is the key of the options.
abbrev pub idempotency_key_of : Net → Text → Option Text → Option Text
idempotency_key_of net method key = if is_mutating method then some (or_else key net.key) else none

abbrev pub sent_of : Net → Text → Text → Option Json → Option Text → Sent
sent_of net method path body key = record {
  method = method;
  path = path;
  body = body;
  authorization = present net.token;
  warp = present net.warp_target;
  idempotency_key = present (idempotency_key_of net method key);
}

-- An empty text is no JSON.
abbrev pub read_body : (Text → Outcome Json) → Text → Outcome Json
read_body parse [] = returns null
read_body parse (c ∷ t) = parse (c ∷ t)

-- `req` from a response on.
unfoldable pub after_response : Net → ℕ → Text → Outcome Json
after_response net status text = elim (read_body net.parse text) [
  | throws e ↦ throws e
  | returns json ↦ if is_ok status then returns json else throws (api_error status (error_of json))
]

-- The second answer is the last.
unfoldable pub after_retry : Net → Answer → Outcome Json
after_retry net (rejects message) = throws (other_error message)
after_retry net (responds status text) = after_response net status text

unfoldable pub after_first : Net → Text → Sent → Answer → Outcome Json × List Event
after_first net method sent (responds status text) =
    (after_response net status text, fetched sent ∷ [])
after_first net method sent (rejects message) =
    if is_mutating method
    then (after_retry net (net.second sent), fetched sent ∷ slept 600 ∷ fetched sent ∷ [])
    else (throws (other_error message), fetched sent ∷ [])

unfoldable pub req : Net → Text → Text → Option Json → Option Text → Outcome Json × List Event
req net method path body key =
    let sent = sent_of net method path body key in after_first net method sent (net.first sent)

abbrev pub get : Net → Text → Outcome Json × List Event
get net path = req net (codes "GET") path none none

abbrev pub post : Net → Text → Option Json → Option Text → Outcome Json × List Event
post net path body key = req net (codes "POST") path body key

abbrev pub patch : Net → Text → Option Json → Option Text → Outcome Json × List Event
patch net path body key = req net (codes "PATCH") path body key

abbrev pub put : Net → Text → Option Json → Option Text → Outcome Json × List Event
put net path body key = req net (codes "PUT") path body key

abbrev pub del : Net → Text → Option Json → Option Text → Outcome Json × List Event
del net path body key = req net (codes "DELETE") path body key

-- `new ApiError(status, body).message`.
abbrev pub message_of : ℕ → Option Text → Text
message_of status error = text_or error (codes "request failed (" ++ decimal status ++ codes ")")

-- `/fetch|network/i`.
abbrev pub is_connection : Text → Bool
is_connection message =
    let m = map lower message in contains (codes "fetch") m || contains (codes "network") m

-- What is thrown is an `Error` always; the web client has no error of its own for the connection.
unfoldable pub error_message : Thrown → Text
error_message (api_error status error) =
    if status == 401
    then codes "Please sign in again."
    else if status == 429
    then codes "Slow down a little and try again in a moment."
    else if status == 403 && says error read_only
    then codes "You're viewing as another user — exit warp to make changes."
    else if leb 500 status
    then codes "Something went wrong on our end. Try again."
    else message_of status error
error_message (other_error message) =
    if is_connection message then codes "Can't reach Thassa. Check your connection." else message
error_message network_error = codes "Can't reach Thassa. Check your connection."

pub record Upload : Type 0 where
  pub name : Text
  pub content_type : Text
  pub size : ℕ

abbrev type_of : Upload → Text
type_of file = text_or (some file.content_type) (codes "application/octet-stream")

-- The body of the first request of `uploadMedia`.
abbrev pub media_body : Upload → Json
media_body file = obj (
    fields (
      (codes "filename", str file.name)
      ∷ (codes "content_type", str (type_of file))
      ∷ (codes "size", num file.size)
      ∷ []))
