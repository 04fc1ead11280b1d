-- ===== src/WebSocket/Mounted.antt =====
-- The handlers that the components of the web client have mounted.
use mathlib.Core.Path.{subst}
use thassa.Base.{
  ℕ, ◌≡◌, ◌∙◌, refl, sym, ap, not, ◌&&◌, false, Bool-cases, inl, inr, if_cases, if◌then◌else◌, Text,
  text_eq, text_eq_iff, List, [], ◌∷◌, none, some, arith,
}
use thassa.Socket.{Ready, connecting, ready_open, closing, closed, subscribe, unsubscribe}
use thassa.Socket.Channels.{has, set, delete, subscribed}
use thassa.Socket.Hub.{Hub, is_user, own, accepts, joined, joined-subscribed}
use thassa.WebSocket.{WebSocket, initial}
use thassa.WebSocket.Step
use thassa.WebSocket.Step.{
  Event, start, stop, mount, unmount, send, token, fired, opened, errored, closed_by, send_open,
  connect, connect_with, schedule_reconnect, on_open, on_close, reconnect, start_socket,
  close_current, stop_socket, handlers, holds, add, remove, on_message, add_handler, keep_handlers,
  remove_handler, mount_effect, cleanup, opens, closes, answer, fire, step, run,
}
use thassa.WebSocket.InStep.{resubscribe-subs}
use thassa.WebSocket.Events.{send_open-subs, run-InStep}
use thassa.WebSocket.Handlers.{
  is_empty, NonEmpty, handlers-set, handlers_none, has-handlers, set-NonEmpty, add_some, kept_map,
  handlers-kept_map, kept_map-NonEmpty, at_channel,
}

-- The handlers of the channel after an effect or a cleanup.
abbrev pub mounted : Text → Event → List ℕ → List ℕ
mounted c (mount (some (d ∷ t)) h) hs = if text_eq (d ∷ t) c then add h hs else hs
mounted c (unmount (some (d ∷ t)) h) hs = if text_eq (d ∷ t) c then remove h hs else hs
mounted c _ hs = hs

abbrev pub mounted_after : Text → List Event → List ℕ → List ℕ
mounted_after c [] hs = hs
mounted_after c (e ∷ es) hs = mounted_after c es (mounted c e hs)

-- What an event makes of the map.
record Turns (e : Event) (m n : List (Text × List ℕ)) : Type 0 where
  hands : (c : Text) → handlers c n ≡ mounted c e (handlers c m)
  full : NonEmpty m → NonEmpty n

idle :
    (e : Event) {m n : List (Text × List ℕ)}
    → ((c : Text) (hs : List ℕ) → mounted c e hs ≡ hs)
    → n ≡ m
    → Turns e m n
idle e {m} same q = record {
  hands = λ c. ap (handlers c) q ∙ sym (same c (handlers c m));
  full = λ h. subst NonEmpty (sym q) h;
}

add_handler-subs :
    (c : Text) (h : ℕ) (s : WebSocket)
    → (add_handler c h s).subs ≡ set c (add h (handlers c s.subs)) s.subs
unfolding add_handler
add_handler-subs c h s =
    if_cases (λ (t : WebSocket). t.subs ≡ set c (add h (handlers c s.subs)) s.subs) (has c s.subs)
      (λ _. refl)
      (λ _.
        send_open-subs (subscribe c) (record s { subs = set c (add h (handlers c s.subs)) s.subs }))

add_handler-Turns :
    (d : ℕ) (t : Text) (h : ℕ) (s : WebSocket)
    → Turns (mount (some (d ∷ t)) h) s.subs (add_handler (d ∷ t) h s).subs
add_handler-Turns d t h s = rw (add_handler-subs (d ∷ t) h s) (record {
  hands = λ c.
      handlers-set c (d ∷ t) (add h (handlers (d ∷ t) s.subs)) s.subs
      ∙ at_channel (d ∷ t) c (add h) s.subs;
  full =
      set-NonEmpty (d ∷ t) (add h (handlers (d ∷ t) s.subs)) s.subs
        (add_some h (handlers (d ∷ t) s.subs));
})

keep_handlers-subs :
    (c : Text) (hs : List ℕ) (s : WebSocket) → (keep_handlers c hs s).subs ≡ kept_map c hs s.subs
unfolding keep_handlers
keep_handlers-subs c [] s = send_open-subs (unsubscribe c) (record s { subs = delete c s.subs })
keep_handlers-subs c (h ∷ hs) s = refl

remove_handler-Turns :
    (d : ℕ) (t : Text) (h : ℕ) (s : WebSocket)
    → Turns (unmount (some (d ∷ t)) h) s.subs (remove_handler (d ∷ t) h s).subs
unfolding remove_handler remove
remove_handler-Turns d t h s =
    if_cases (λ (u : WebSocket). Turns (unmount (some (d ∷ t)) h) s.subs u.subs)
      (has (d ∷ t) s.subs)
      (λ _. rw (keep_handlers-subs (d ∷ t) left s) (record {
        hands =
            λ c. handlers-kept_map c (d ∷ t) left s.subs ∙ at_channel (d ∷ t) c (remove h) s.subs;
        full = kept_map-NonEmpty (d ∷ t) left s.subs;
      }))
      (λ n. record { hands = λ c. nobody c n; full = λ x. x })
  where
    left : List ℕ
    left = remove h (handlers (d ∷ t) s.subs)

    nobody :
        (c : Text)
        → has (d ∷ t) s.subs ≡ false
        → handlers c s.subs
          ≡ (if text_eq (d ∷ t) c then remove h (handlers c s.subs) else handlers c s.subs)
    nobody c n = elim (Bool-cases (text_eq (d ∷ t) c)) [
      | inl e ↦
          let no =
            ap (λ (x : Text). handlers x s.subs) (sym ((text_eq_iff (d ∷ t) c).0 e))
            ∙ handlers_none (d ∷ t) s.subs n in
          rw e (no ∙ sym (ap (remove h) no))
      | inr q ↦ rw q refl
    ]

opens-subs : (i : ℕ) (r : Ready) (s : WebSocket) → (opens i r s).subs ≡ s.subs
unfolding opens on_open
opens-subs i connecting s = resubscribe-subs i _ _
opens-subs i ready_open s = refl
opens-subs i closing s = refl
opens-subs i closed s = refl

step-Turns : (e : Event) (s : WebSocket) → Turns e s.subs (step e s).subs
unfolding step start_socket stop_socket mount_effect cleanup connect connect_with close_current
    closes on_close schedule_reconnect answer fire reconnect Step.close
step-Turns start s = idle start (λ _ _. refl) (ground arith)
step-Turns stop s = idle stop (λ _ _. refl) (ground arith)
step-Turns (mount none h) s = idle (mount none h) (λ _ _. refl) refl
step-Turns (mount (some []) h) s = idle (mount (some []) h) (λ _ _. refl) refl
step-Turns (mount (some (c ∷ t)) h) s = add_handler-Turns c t h s
step-Turns (unmount none h) s = idle (unmount none h) (λ _ _. refl) refl
step-Turns (unmount (some []) h) s = idle (unmount (some []) h) (λ _ _. refl) refl
step-Turns (unmount (some (c ∷ t)) h) s = remove_handler-Turns c t h s
step-Turns (send d) s = idle (send d) (λ _ _. refl) (send_open-subs _ s)
step-Turns (token b) s = idle (token b) (λ _ _. refl) (ground arith)
step-Turns fired s = idle fired (λ _ _. refl) (ground arith)
step-Turns (opened i) s = idle (opened i) (λ _ _. refl) (opens-subs i (s.connections i).ready s)
step-Turns (errored i) s = idle (errored i) (λ _ _. refl) refl
step-Turns (closed_by i) s = idle (closed_by i) (λ _ _. refl) (ground arith)

run-Turns :
    (es : List Event) (s : WebSocket) (c : Text)
    → NonEmpty s.subs
    → (handlers c (run es s).subs ≡ mounted_after c es (handlers c s.subs))
      × NonEmpty (run es s).subs
run-Turns [] s c h = (refl, h)
run-Turns (e ∷ es) s c h =
    let turn = step-Turns e s in
    let rest = run-Turns es (step e s) c (turn.full h) in
    (rest.0 ∙ ap (mounted_after c es) (turn.hands c), rest.1)

-- Whatever happens to the connection and in whatever order, a frame of a channel is handed to the
-- handlers that are mounted on the channel, in the order in which they were mounted, and to no
-- others.
pub run-on_message :
    (es : List Event) (c : Text) → on_message c (run es initial) ≡ mounted_after c es []
unfolding on_message handlers
run-on_message es c = (run-Turns es initial c tt).0

run-asked_web :
    (es : List Event) (c : Text) (i : ℕ)
    → (run es initial).ws ≡ some i
    → ((run es initial).connections i).ready ≡ ready_open
    → subscribed c ((run es initial).connections i).sent ≡ not (is_empty (mounted_after c es []))
unfolding handlers
run-asked_web es c i w o =
    (run-InStep es initial (λ j q. absurd (none_some q)) i w).view o c
    ∙ has-handlers c (run es initial).subs (run-Turns es initial c tt).1
    ∙ ap (λ (hs : List ℕ). not (is_empty hs)) (run-Turns es initial c tt).0
  where
    none_some : {j : ℕ} → none ≡ some j → ⊥
    none_some q = ground (arith, q)

-- While the current socket is open, and once the backend has handled what was sent over it: it has
-- joined a channel that is no user's exactly if it accepts the channel and a handler is mounted on
-- it, and of the users' channels just the user's own. What it accepts does not change meanwhile.
pub run-mounted_after :
    (hub : Hub) (es : List Event) (c : Text) (i : ℕ)
    → (run es initial).ws ≡ some i
    → ((run es initial).connections i).ready ≡ ready_open
    → joined hub c ((run es initial).connections i).sent ≡ (
        if is_user c
        then text_eq (own hub) c
        else accepts hub c && not (is_empty (mounted_after c es [])))
run-mounted_after hub es c i w o =
    joined-subscribed hub c ((run es initial).connections i).sent
    ∙ ap (λ b. if is_user c then text_eq (own hub) c else accepts hub c && b)
        (run-asked_web es c i w o)
