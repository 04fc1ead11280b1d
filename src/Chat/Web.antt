-- ===== src/Chat/Web.antt =====
-- The conversation of the web client.
use thassa.Base.{
  ltb, if◌then◌else◌, Bool, true, false, Text, text_eq, List, [], ◌∷◌, ◌++◌, Option, none, some,
}
use thassa.Chat.{
  Message, Frame, message_new, typing_start, typing_stop, read_at, message_reaction, trim,
}
use thassa.Chat.Mobile.{nothing_to_send, without_typer, has_typer}

-- `history` is `history.data`, page by page, and `seeded` what the list of conversations left.
pub record Thread : Type 0 where
  pub history : Option (List (List Message))
  pub seeded : Option (List Message)
  pub live : List Message
  pub typing_users : List Text
  pub text : Text
  pub sending : Bool

unfoldable pub concat : List (List Message) → List Message
concat [] = []
concat (page ∷ pages) = page ++ concat pages

unfoldable pub from_history : Thread → List Message
unfolding concat
from_history s = elim s.history [
  | none ↦ elim s.seeded [ none ↦ [] | some ms ↦ ms ]
  | some pages ↦ concat pages
]

-- `seen.has(id)`.
unfoldable pub seen_id : Text → List Text → Bool
seen_id id [] = false
seen_id id (i ∷ seen) = if text_eq i id then true else seen_id id seen

-- The `filter`: the first message with an id stays.
unfoldable pub unseen : List Text → List Message → List Message
unseen seen [] = []
unseen seen (m ∷ ms) =
    let rest = unseen (m.id ∷ seen) ms in if seen_id m.id seen then unseen seen ms else m ∷ rest

-- The `sort`, which is stable: of two messages of one time the earlier stays first.
unfoldable pub insert : Message → List Message → List Message
insert m [] = m ∷ []
insert m (n ∷ ns) =
    let rest = insert m ns in if ltb n.created_at m.created_at then n ∷ rest else m ∷ n ∷ ns

unfoldable pub sort : List Message → List Message
unfolding insert
sort [] = []
sort (m ∷ ms) = insert m (sort ms)

-- `messages`.
unfoldable pub merged : Thread → List Message
merged s = sort (unseen [] (from_history s ++ s.live))

-- `new Set(s).add(user_id)`.
unfoldable pub add_user : Text → List Text → List Text
unfolding has_typer
add_user u users = if has_typer u users then users else users ++ (u ∷ [])

-- The handler of the channel.
unfoldable pub receive : Text → Frame → Thread → Thread
receive me (message_new msg) s = record s {
  live = s.live ++ (msg ∷ []);
  typing_users = without_typer msg.sender s.typing_users;
}
receive me (typing_start u) s = record s {
  typing_users = if text_eq u me then s.typing_users else add_user u s.typing_users;
}
receive me (typing_stop u) s = record s { typing_users = without_typer u s.typing_users }
receive me (read_at u at) s = s
receive me (message_reaction id reactions) s = s

-- `send` up to its request, with the text that a failure puts back.
unfoldable pub send : Option Text → Thread → Thread × Option Text
send media_id s =
    let body = trim s.text in
    if nothing_to_send body media_id
    then (s, none)
    else (record s { sending = true; text = [] }, some body)

unfoldable pub sent : Message → Thread → Thread
sent message s = record s { live = s.live ++ (message ∷ []); sending = false }

unfoldable pub not_sent : Text → Thread → Thread
not_sent body s = record s { text = body; sending = false }

-- The newest message of the user: `[...messages].reverse().find(...)`.
unfoldable pub last_mine : Text → List Message → Option Message
last_mine me [] = none
last_mine me (m ∷ ms) = elim (last_mine me ms) [
  | some n ↦ some n
  | none ↦ (if text_eq m.sender me then some m else none)
]
