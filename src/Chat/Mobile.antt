-- ===== src/Chat/Mobile.antt =====
-- The conversation of the mobile client.
use thassa.Base.{
  ℕ, zero, suc, ◌-◌, ltb, not, ◌&&◌, ◌||◌, if◌then◌else◌, Bool, true, false, Text, text_eq, List,
  [], ◌∷◌, ◌++◌, map, Option, none, some,
}
use thassa.Chat.{
  Message, Frame, message_new, typing_start, typing_stop, read_at, message_reaction, trim,
}

-- `older_loads` counts the requests of `loadOlder` that are under way.
pub record Thread : Type 0 where
  pub messages : List Message
  pub loading : Bool
  pub cursor : Option Text
  pub has_more : Bool
  pub text : Text
  pub sending : Bool
  pub typers : List Text
  pub last_typing_sent : ℕ
  pub other_last_read : Option ℕ
  pub older_loads : ℕ

unfoldable pub has_id : Text → List Message → Bool
has_id id [] = false
has_id id (m ∷ ms) = text_eq m.id id || has_id id ms

unfoldable pub without_id : Text → List Message → List Message
without_id id [] = []
without_id id (m ∷ ms) = let rest = without_id id ms in if text_eq m.id id then rest else m ∷ rest

unfoldable pub has_typer : Text → List Text → Bool
has_typer u [] = false
has_typer u (v ∷ vs) = text_eq v u || has_typer u vs

unfoldable pub without_typer : Text → List Text → List Text
without_typer u [] = []
without_typer u (v ∷ vs) = let rest = without_typer u vs in if text_eq v u then rest else v ∷ rest

-- `!!cursor`.
abbrev pub more_of : Option Text → Bool
more_of none = false
more_of (some []) = false
more_of (some (c ∷ t)) = true

-- `load`, with a page and the cursor after it.
unfoldable pub loaded : List Message → Option Text → Thread → Thread
loaded page next s = record s {
  messages = page;
  cursor = next;
  has_more = more_of next;
  loading = false;
}

unfoldable pub load_failed : Thread → Thread
load_failed s = record s { loading = false }

abbrev pub may_load_older : Thread → Bool
may_load_older s = s.has_more && more_of s.cursor

-- `loadOlder` up to its request, and the rest of it, with a page or with an error.
unfoldable pub load_older : Thread → Thread
load_older s = if may_load_older s then record s { older_loads = suc s.older_loads } else s

unfoldable pub older_loaded : List Message → Option Text → ℕ → Thread → Thread
older_loaded page next zero s = s
older_loaded page next (suc n) s = record s {
  messages = s.messages ++ page;
  cursor = next;
  has_more = more_of next;
  older_loads = n;
}

unfoldable pub older_failed : ℕ → Thread → Thread
older_failed zero s = s
older_failed (suc n) s = record s { older_loads = n }

abbrev pub with_reactions : Text → List (Text × ℕ) → Message → Message
with_reactions id reactions m = if text_eq m.id id then record m { reactions = reactions } else m

-- The handler of the channel, for the member `me`.
unfoldable pub receive : Text → Frame → Thread → Thread
receive me (message_new msg) s = record s {
  messages = if has_id msg.id s.messages then s.messages else msg ∷ s.messages;
  typers = without_typer msg.sender s.typers;
}
receive me (typing_start u) s = record s {
  typers =
      if text_eq u me
      then s.typers
      else if has_typer u s.typers
      then s.typers
      else s.typers ++ (u ∷ []);
}
receive me (typing_stop u) s = record s { typers = without_typer u s.typers }
receive me (read_at u at) s = record s {
  other_last_read = if text_eq u me then s.other_last_read else some at;
}
receive me (message_reaction id reactions) s = record s {
  messages = map (with_reactions id reactions) s.messages;
}

-- `onType`, with whether it sends that the user types.
unfoldable pub on_type : Text → ℕ → Thread → Thread × Bool
on_type v now s =
    if ltb 2500 (now - s.last_typing_sent)
    then (record s { text = v; last_typing_sent = now }, true)
    else (record s { text = v }, false)

-- A send that is under way.
pub record Sending : Type 0 where
  pub tmp_id : Text
  pub body : Text
  pub media_id : Option Text

abbrev pub body_of : Text → Option Text
body_of [] = none
body_of (c ∷ t) = some (c ∷ t)

abbrev pub optimistic : Text → Text → Text → ℕ → Message
optimistic me tmp_id body now = record {
  id = tmp_id;
  sender = me;
  body = body_of body;
  created_at = now;
  pending = true;
  reactions = [];
}

abbrev pub nothing_to_send : Text → Option Text → Bool
nothing_to_send [] none = true
nothing_to_send [] (some m) = false
nothing_to_send (c ∷ t) media = false

-- `send` up to its request. `tmp_id` is the id made of the clock.
unfoldable pub send : Text → Text → ℕ → Option Text → Thread → Thread × Option Sending
send me tmp_id now media_id s =
    let body = trim s.text in
    if nothing_to_send body media_id then (s, none) else (
      record s {
        sending = true;
        text = [];
        messages = elim media_id [
          | none ↦ optimistic me tmp_id body now ∷ s.messages
          | some id ↦ s.messages
        ];
      },
      some (record { tmp_id = tmp_id; body = body; media_id = media_id }),
    )

-- The rest of `send`: with the message of the answer, and in the `catch`.
unfoldable pub sent : Sending → Message → Thread → Thread
sent w message s = record s { messages = message ∷ without_id w.tmp_id s.messages; sending = false }

unfoldable pub not_sent : Sending → Thread → Thread
not_sent w s = record s {
  messages = without_id w.tmp_id s.messages;
  text = w.body;
  sending = false;
}

-- What happens while a request is under way.
pub data Event : Type 0 where
  receives : Frame → Event
  loads : List Message → Option Text → Event
  load_fails : Event
  asks_older : Event
  loads_older : List Message → Option Text → Event
  older_fails : Event
  types : Text → ℕ → Event

unfoldable pub step : Text → Event → Thread → Thread
step me (receives f) s = receive me f s
step me (loads page next) s = loaded page next s
step me load_fails s = load_failed s
step me asks_older s = load_older s
step me (loads_older page next) s = older_loaded page next s.older_loads s
step me older_fails s = older_failed s.older_loads s
step me (types v now) s = (on_type v now s).0

abbrev pub run : Text → List Event → Thread → Thread
run me [] s = s
run me (e ∷ es) s = run me es (step me e s)

-- The newest message of the user, and whether the other member has seen it.
unfoldable pub last_mine : Text → List Message → Option Message
last_mine me [] = none
last_mine me (m ∷ ms) = if text_eq m.sender me then some m else last_mine me ms

unfoldable pub seen_by_other : Text → Thread → Bool
seen_by_other me s = elim (last_mine me s.messages) [
  | none ↦ false
  | some m ↦ elim s.other_last_read [ none ↦ false | some at ↦ not (ltb at m.created_at) ]
]
