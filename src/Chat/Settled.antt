-- ===== src/Chat/Settled.antt =====
-- What a send leaves in the conversation of the mobile client, whatever comes while it is under way.
use mathlib.Core.Path.{subst}
use thassa.Base.{
  ℕ, zero, suc, ◌≡◌, ◌↔◌, refl, ap, ◌∙◌, false, Text, text_eq, text_eq_iff, text_eq_refl, List, [],
  ◌∷◌, ◌++◌, map, Option, some, arith,
}
use thassa.Chat.{
  Message, Frame, message_new, typing_start, typing_stop, read_at, message_reaction, trim,
}
use thassa.Chat.Mobile.{
  Thread, has_id, without_id, with_reactions, receive, loaded, load_failed, load_older,
  older_loaded, older_failed, asks_older, older_fails, on_type, Sending, send, sent, not_sent,
  Event, receives, loads, load_fails, loads_older, types, step, run,
}

-- No two messages have the same id.
abbrev pub Distinct : List Message → Type 0
Distinct [] = Unit {0}
Distinct (m ∷ ms) = (has_id m.id ms ≡ false) × Distinct ms

without_id_none : (id : Text) (ms : List Message) → has_id id ms ≡ false → without_id id ms ≡ ms
unfolding has_id without_id
without_id_none id [] h = refl
without_id_none id (m ∷ ms) h = ground (arith, h, without_id_none id ms)

without_id-append :
    (id : Text) (ms ns : List Message)
    → without_id id (ms ++ ns) ≡ without_id id ms ++ without_id id ns
unfolding without_id
without_id-append id [] ns = refl
without_id-append id (m ∷ ms) ns = ground (arith, without_id-append id ms ns)

-- Only the id of a message says whether it stays.
without_id-map :
    (id other : Text) (reactions : List (Text × ℕ)) (ms : List Message)
    → without_id id (map (with_reactions other reactions) ms)
      ≡ map (with_reactions other reactions) (without_id id ms)
unfolding without_id
without_id-map id other reactions [] = refl
without_id-map id other reactions (m ∷ ms) = ground (arith, without_id-map id other reactions ms)

has_id-without_id :
    (a id : Text) (ms : List Message)
    → text_eq a id ≡ false
    → has_id a (without_id id ms) ≡ has_id a ms
unfolding has_id without_id
has_id-without_id a id [] h = refl
has_id-without_id a id (m ∷ ms) h = ground (
  arith,
  h,
  has_id-without_id a id ms h,
  text_eq_iff m.id a,
  text_eq_iff m.id id,
  text_eq_iff a id,
)

-- What comes does not carry the id, which the client made up.
abbrev pub Lacks : Text → Event → Type 0
Lacks id (receives (message_new msg)) = text_eq msg.id id ≡ false
Lacks id (loads page next) = has_id id page ≡ false
Lacks id (loads_older page next) = has_id id page ≡ false
Lacks id _ = Unit {0}

abbrev pub AllLacks : Text → List Event → Type 0
AllLacks id [] = Unit {0}
AllLacks id (e ∷ es) = Lacks id e × AllLacks id es

-- The two threads differ in the message with the id, and in nothing that a page turns on.
record Agree (id : Text) (s t : Thread) : Type 0 where
  messages : without_id id s.messages ≡ t.messages
  cursor : s.cursor ≡ t.cursor
  has_more : s.has_more ≡ t.has_more
  older : s.older_loads ≡ t.older_loads

module _ (me id : Text) (s t : Thread) (g : Agree id s t) where
  receive-Agree : (f : Frame) → Lacks id (receives f) → Agree id (receive me f s) (receive me f t)
  unfolding receive without_id
  receive-Agree (message_new msg) h = record {
    messages = ground (
      arith,
      h,
      g.messages,
      has_id-without_id msg.id id s.messages h,
      ap (has_id msg.id) g.messages,
    );
    cursor = g.cursor;
    has_more = g.has_more;
    older = g.older;
  }
  receive-Agree (typing_start u) h = record {
    messages = g.messages;
    cursor = g.cursor;
    has_more = g.has_more;
    older = g.older;
  }
  receive-Agree (typing_stop u) h = record {
    messages = g.messages;
    cursor = g.cursor;
    has_more = g.has_more;
    older = g.older;
  }
  receive-Agree (read_at u at) h = record {
    messages = g.messages;
    cursor = g.cursor;
    has_more = g.has_more;
    older = g.older;
  }
  receive-Agree (message_reaction m rs) h = record {
    messages = without_id-map id m rs s.messages ∙ ap (map (with_reactions m rs)) g.messages;
    cursor = g.cursor;
    has_more = g.has_more;
    older = g.older;
  }

  load_older-Agree : Agree id (load_older s) (load_older t)
  unfolding load_older
  load_older-Agree = record {
    messages = ground (arith, g.messages, g.cursor, g.has_more);
    cursor = ground (arith, g.cursor, g.has_more);
    has_more = ground (arith, g.cursor, g.has_more);
    older = ground (arith, g.cursor, g.has_more, g.older);
  }

  older_loaded-Agree :
      (page : List Message) (next : Option Text) (n : ℕ)
      → has_id id page ≡ false
      → Agree id (older_loaded page next n s) (older_loaded page next n t)
  unfolding older_loaded
  older_loaded-Agree page next zero h = g
  older_loaded-Agree page next (suc n) h = record {
    messages =
        without_id-append id s.messages page
        ∙ ap (λ (ms : List Message). without_id id s.messages ++ ms) (without_id_none id page h)
        ∙ ap (λ (ms : List Message). ms ++ page) g.messages;
    cursor = refl;
    has_more = refl;
    older = refl;
  }

  older_failed-Agree : (n : ℕ) → Agree id (older_failed n s) (older_failed n t)
  unfolding older_failed
  older_failed-Agree zero = g
  older_failed-Agree (suc n) = record {
    messages = g.messages;
    cursor = g.cursor;
    has_more = g.has_more;
    older = refl;
  }

  step-Agree : (e : Event) → Lacks id e → Agree id (step me e s) (step me e t)
  unfolding step loaded load_failed on_type
  step-Agree (receives f) h = receive-Agree f h
  step-Agree (loads page next) h = record {
    messages = without_id_none id page h;
    cursor = refl;
    has_more = refl;
    older = g.older;
  }
  step-Agree load_fails h = record {
    messages = g.messages;
    cursor = g.cursor;
    has_more = g.has_more;
    older = g.older;
  }
  step-Agree asks_older h = load_older-Agree
  step-Agree (loads_older page next) h =
      subst (λ n. Agree id (older_loaded page next s.older_loads s) (older_loaded page next n t))
        g.older (older_loaded-Agree page next s.older_loads h)
  step-Agree older_fails h =
      subst (λ n. Agree id (older_failed s.older_loads s) (older_failed n t)) g.older
        (older_failed-Agree s.older_loads)
  step-Agree (types v now) h = record {
    messages = ground (arith, g.messages);
    cursor = ground (arith, g.cursor);
    has_more = ground (arith, g.has_more);
    older = ground (arith, g.older);
  }

run-Agree :
    (me id : Text) (es : List Event) (s t : Thread)
    → AllLacks id es
    → Agree id s t
    → Agree id (run me es s) (run me es t)
run-Agree me id [] s t h g = g
run-Agree me id (e ∷ es) s t h g =
    run-Agree me id es (step me e s) (step me e t) h.1 (step-Agree me id s t g e h.0)

send-Agree :
    (me id : Text) (now : ℕ) (media_id : Option Text) (s : Thread)
    → has_id id s.messages ≡ false
    → Agree id (send me id now media_id s).0 s
unfolding send without_id
send-Agree me id now media_id s h = record {
  messages = ground (arith, h, without_id_none id s.messages h, text_eq_refl id);
  cursor = ground arith;
  has_more = ground arith;
  older = ground arith;
}

send-Sending :
    (me id : Text) (now : ℕ) (media_id : Option Text) (s : Thread) (w : Sending)
    → (send me id now media_id s).1 ≡ some w
    → (w.tmp_id ≡ id) × (w.body ≡ trim s.text)
unfolding send
send-Sending me id now media_id s w h = ground (arith, h)

module _ (me id : Text) (now : ℕ) (media_id : Option Text) (es : List Event) (s : Thread)
    (w : Sending) (fresh : has_id id s.messages ≡ false) (lacks : AllLacks id es)
    (under_way : (send me id now media_id s).1 ≡ some w) where
  without_tmp :
      without_id w.tmp_id (run me es (send me id now media_id s).0).messages
      ≡ (run me es s).messages
  without_tmp =
      ap (λ (i : Text). without_id i (run me es (send me id now media_id s).0).messages)
        (send-Sending me id now media_id s w under_way).0
      ∙ (run-Agree me id es (send me id now media_id s).0 s lacks
          (send-Agree me id now media_id s fresh)).messages

  -- When the request of a send fails, the messages are those that the same events would have left
  -- had nothing been sent, whatever came while the request was under way: frames of the channel,
  -- a first page, older pages and typing. The field holds the trimmed text that was to be sent, and
  -- the conversation is not sending. The id that the send made up is in none of what comes.
  pub not_sent-send :
      let after : Thread = not_sent w (run me es (send me id now media_id s).0) in
      (after.messages ≡ (run me es s).messages)
      × (after.text ≡ trim s.text)
      × (after.sending ≡ false)
  unfolding not_sent
  not_sent-send = (without_tmp, (send-Sending me id now media_id s w under_way).1, refl)

  -- When the request of a send is answered, the messages are the message of the answer before
  -- those that the same events would have left had nothing been sent. So no message has its id
  -- twice exactly if this holds of those, and the channel did not bring the message first.
  pub sent-send :
      (answer : Message)
      → let after : Thread = sent w answer (run me es (send me id now media_id s).0) in
        let others : List Message = (run me es s).messages in
        (after.messages ≡ answer ∷ others)
        × (after.sending ≡ false)
        × (Distinct after.messages ↔ (has_id answer.id others ≡ false) × Distinct others)
  unfolding sent
  sent-send answer = (
    ap (λ (ms : List Message). answer ∷ ms) without_tmp,
    refl,
    rw without_tmp ((λ d. d), (λ d. d)),
  )
