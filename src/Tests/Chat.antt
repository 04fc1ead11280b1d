-- ===== src/Tests/Chat.antt =====
-- A message that is sent while others come in.
use thassa.Base.{ℕ, ◌≡◌, ◌↔◌, refl, true, false, Text, codes, List, [], ◌∷◌, ◌++◌, map, none, some}
use thassa.Chat
use thassa.Chat.{Message, Frame, message_new, typing_start, trim_start, trim_end}
use thassa.Chat.Mobile.{
  Thread, Sending, Event, receives, types, has_id, without_id, without_typer, receive, send, sent,
  not_sent, step, run,
}
use thassa.Chat.Settled.{Distinct, not_sent-send, sent-send}
use thassa.Chat.Web
use thassa.Chat.Merged.{Sorted, find_id, merged-from_history}

abbrev message : Text → Text → ℕ → Message
message id sender at = record {
  id = id;
  sender = sender;
  body = some (codes "hi");
  created_at = at;
  pending = false;
  reactions = [];
}

abbrev me : Text
me = codes "u1"

abbrev thread : Thread
thread = record {
  messages = message (codes "m1") (codes "u2") 10 ∷ [];
  loading = false;
  cursor = none;
  has_more = false;
  text = codes " yes ";
  sending = false;
  typers = [];
  last_typing_sent = 0;
  other_last_read = none;
  older_loads = 0;
}

-- The other member types and writes, and the user goes on writing.
abbrev meanwhile : List Event
meanwhile =
    receives (typing_start (codes "u2"))
    ∷ receives (message_new (message (codes "m2") (codes "u2") 20))
    ∷ types (codes "and") 30
    ∷ []

abbrev under_way : Sending
under_way = record { tmp_id = codes "tmp-15"; body = codes "yes"; media_id = none }

sends : (send me (codes "tmp-15") 15 none thread).1 ≡ some under_way
unfolding send trim_start trim_end
sends = refl

fresh : has_id (codes "tmp-15") thread.messages ≡ false
unfolding has_id
fresh = refl

not_sent-send_example :
    let after : Thread =
      not_sent under_way (run me meanwhile (send me (codes "tmp-15") 15 none thread).0) in
    (after.messages ≡ (run me meanwhile thread).messages)
    × (after.text ≡ Chat.trim thread.text)
    × (after.sending ≡ false)
not_sent-send_example =
    not_sent-send me (codes "tmp-15") 15 none meanwhile thread under_way fresh
      (tt, (refl, (tt, tt))) sends

sent-send_example :
    let after : Thread =
      sent under_way
        (message (codes "m3") me 16)
        (run me meanwhile (send me (codes "tmp-15") 15 none thread).0) in
    let others : List Message = (run me meanwhile thread).messages in
    (after.messages ≡ message (codes "m3") me 16 ∷ others)
    × (after.sending ≡ false)
    × (Distinct after.messages ↔ (has_id (codes "m3") others ≡ false) × Distinct others)
sent-send_example =
    sent-send me (codes "tmp-15") 15 none meanwhile thread under_way fresh (tt, (refl, (tt, tt)))
      sends (message (codes "m3") me 16)

-- The channel brings the message before the answer: it stands there twice.
twice :
    map
      (λ (m : Message). m.id)
      (sent under_way (message (codes "m3") me 16) (
        run me
          (receives (message_new (message (codes "m3") me 16)) ∷ [])
          (send me (codes "tmp-15") 15 none thread).0)).messages
    ≡ codes "m3" ∷ codes "m3" ∷ codes "m1" ∷ []
unfolding send sent step receive has_id without_id without_typer trim_start trim_end
twice = refl

abbrev web_thread : Web.Thread
web_thread = record {
  history = some ((message (codes "m2") me 20 ∷ message (codes "m1") me 10 ∷ []) ∷ []);
  seeded = none;
  live = message (codes "m2") me 20 ∷ message (codes "m3") me 30 ∷ [];
  typing_users = [];
  text = [];
  sending = true;
}

shown :
    map (λ (m : Message). m.id) (Web.merged web_thread) ≡ codes "m1" ∷ codes "m2" ∷ codes "m3" ∷ []
unfolding Web.merged Web.from_history Web.concat Web.unseen Web.seen_id Web.sort Web.insert
shown = refl

merged-from_history_example :
    Sorted (Web.merged web_thread)
    × Distinct (Web.merged web_thread)
    × ((id : Text)
        → find_id id (Web.merged web_thread)
          ≡ find_id id (Web.from_history web_thread ++ web_thread.live))
merged-from_history_example = merged-from_history web_thread

-- Another message of the same time comes between the two.
abbrev answer : Message
answer = message (codes "m4") me 40

abbrev between : List Frame
between = message_new (message (codes "m5") (codes "u2") 40) ∷ []
