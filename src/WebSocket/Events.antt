-- ===== src/WebSocket/Events.antt =====
-- Every event keeps the web client's current socket in step with the handlers.
use mathlib.Core.Path.{subst}
use thassa.Base.{
  ℕ, ◌≡◌, ◌==◌, refl, sym, not, ◌||◌, Bool, true, false, Bool-cases, inl, inr, if_cases, Text, List,
  [], ◌∷◌, Option, none, some, arith,
}
use thassa.Socket.{
  Frame, Ready, connecting, ready_open, closing, closed, subscribe, unsubscribe, other,
}
use thassa.Socket.Channels.{has, set, delete}
use thassa.Socket.ChannelLaws.{has-set, has-set_known, has-delete}
use thassa.Socket.Step.{close_ready}
use thassa.Socket.Synced.{no_some, subscribe-Makes, unsubscribe-Makes, other-Makes}
use thassa.WebSocket.{WebSocket}
use thassa.WebSocket.Step.{
  Event, start, stop, mount, unmount, send, token, fired, opened, errored, closed_by, send_open,
  connect, connect_with, schedule_reconnect, on_close, reconnect, start_socket, set_ready, close,
  stop_socket, handlers, add, remove, add_handler, keep_handlers, remove_handler, mount_effect,
  cleanup, closes, answer, fire, step, run,
}
use thassa.WebSocket.InStep.{
  Line, SyncedTo, InStep, SyncedTo-eq, set_connection_here, send_open-SyncedTo,
}
use thassa.WebSocket.Opening.{opens-InStep}

connect-InStep : (s : WebSocket) → InStep s → InStep (connect s)
unfolding connect
connect-InStep s p = if_cases InStep (s.is_connecting || not s.has_getter) (λ _. p) (λ _. p)

opening : (s : WebSocket) → InStep (connect_with true s)
unfolding connect_with
opening s i w =
    subst (λ (n : ℕ). Line (λ c. has c s.subs) ((connect_with true s).connections n)) (eq_of w)
      (subst (Line (λ c. has c s.subs)) (sym (set_connection_here s.made _ s.connections))
        (record { fresh = λ _. refl; flag = λ _. refl; view = λ q. absurd (not_open q) }))
  where
    eq_of : some s.made ≡ some i → s.made ≡ i
    eq_of q = ground (arith, q)

    not_open : connecting ≡ ready_open → ⊥
    not_open q = ground arith

connect_with-InStep : (b : Bool) (s : WebSocket) → InStep s → InStep (connect_with b s)
unfolding connect_with
connect_with-InStep false s p = p
connect_with-InStep true s p = opening s

-- A socket that closes is neither connecting nor open.
closed-Line :
    (h : Text → Bool) (r : Ready) (f : List Frame)
    → Line h (record { ready = close_ready r; sent = f })
closed-Line h connecting f = record {
  fresh = λ q. ground (arith, q);
  flag = λ _. refl;
  view = λ q. ground (arith, q);
}
closed-Line h ready_open f = record {
  fresh = λ q. ground (arith, q);
  flag = λ _. refl;
  view = λ q. ground (arith, q);
}
closed-Line h closing f = record {
  fresh = λ q. ground (arith, q);
  flag = λ _. refl;
  view = λ q. ground (arith, q);
}
closed-Line h closed f = record {
  fresh = λ q. ground (arith, q);
  flag = λ _. refl;
  view = λ q. ground (arith, q);
}

close-InStep : (i : ℕ) (s : WebSocket) → InStep s → InStep (close i s)
unfolding close
close-InStep i s p j w = elim (Bool-cases (j == i)) [
  | inl e ↦ rw e (closed-Line _ (s.connections i).ready (s.connections i).sent)
  | inr n ↦ rw n (p j w)
]

-- Without a current socket there is nothing to show.
offline : (s : WebSocket) → s.ws ≡ none → InStep s
offline s off i w = absurd (no_some off w)

on_close-InStep : (s : WebSocket) → InStep (on_close s)
unfolding on_close schedule_reconnect
on_close-InStep s =
    let t : WebSocket = record s { ws = none } in
    if_cases InStep s.closed_by_us (λ _. offline t refl) (λ _. offline (schedule_reconnect t) refl)

closes-InStep : (i : ℕ) (r : Ready) (s : WebSocket) → InStep s → InStep (closes i r s)
unfolding closes
closes-InStep i closed s p = p
closes-InStep i connecting s p = on_close-InStep (set_ready i closed s)
closes-InStep i ready_open s p = on_close-InStep (set_ready i closed s)
closes-InStep i closing s p = on_close-InStep (set_ready i closed s)

answer-InStep : (b : Bool) (s : WebSocket) → InStep s → InStep (answer b s)
unfolding answer
answer-InStep b s p = if_cases InStep s.is_connecting (λ _. connect_with-InStep b s p) (λ _. p)

fire-InStep : (o : Option ℕ) (s : WebSocket) → InStep s → InStep (fire o s)
unfolding fire reconnect
fire-InStep none s p = p
fire-InStep (some d) s p = connect-InStep _ p

-- The map changes and then the frame that tells the server of it goes out.
pub send_open-subs : (m : Frame) (s : WebSocket) → (send_open m s).subs ≡ s.subs
unfolding send_open
send_open-subs m s = ground arith

add_handler-InStep : (c : Text) (h : ℕ) (s : WebSocket) → InStep s → InStep (add_handler c h s)
unfolding add_handler
add_handler-InStep c h s p =
    let v = add h (handlers c s.subs) in
    let t : WebSocket = record s { subs = set c v s.subs } in
    if_cases InStep (has c s.subs)
      (λ known. SyncedTo-eq _ (λ d. has d t.subs) t (λ d. sym (has-set_known d c v s.subs known)) p)
      (λ _.
        subst (λ (m : List (Text × List ℕ)). SyncedTo (λ d. has d m) (send_open (subscribe c) t))
          (sym (send_open-subs (subscribe c) t))
          (SyncedTo-eq _ (λ d. has d t.subs) (send_open (subscribe c) t)
            (λ d. sym (has-set d c v s.subs))
            (send_open-SyncedTo (subscribe c) (λ d. has d s.subs) _ t (subscribe-Makes c _) p)))

keep_handlers-InStep :
    (c : Text) (hs : List ℕ) (s : WebSocket)
    → has c s.subs ≡ true
    → InStep s
    → InStep (keep_handlers c hs s)
unfolding keep_handlers
keep_handlers-InStep c [] s known p =
    let t : WebSocket = record s { subs = delete c s.subs } in
    subst (λ (m : List (Text × List ℕ)). SyncedTo (λ d. has d m) (send_open (unsubscribe c) t))
      (sym (send_open-subs (unsubscribe c) t))
      (SyncedTo-eq _ (λ d. has d t.subs) (send_open (unsubscribe c) t)
        (λ d. sym (has-delete d c s.subs))
        (send_open-SyncedTo (unsubscribe c) (λ d. has d s.subs) _ t (unsubscribe-Makes c _) p))
keep_handlers-InStep c (h ∷ hs) s known p =
    SyncedTo-eq _ (λ d. has d (set c (h ∷ hs) s.subs)) (record s { subs = set c (h ∷ hs) s.subs })
      (λ d. sym (has-set_known d c (h ∷ hs) s.subs known)) p

remove_handler-InStep :
    (c : Text) (h : ℕ) (s : WebSocket) → InStep s → InStep (remove_handler c h s)
unfolding remove_handler
remove_handler-InStep c h s p =
    if_cases InStep (has c s.subs)
      (λ known. keep_handlers-InStep c (remove h (handlers c s.subs)) s known p) (λ _. p)

step-InStep : (e : Event) (s : WebSocket) → InStep s → InStep (step e s)
unfolding step start_socket stop_socket mount_effect cleanup
step-InStep start s p = connect-InStep _ p
step-InStep stop s p = offline (stop_socket s) refl
step-InStep (mount none h) s p = p
step-InStep (mount (some []) h) s p = p
step-InStep (mount (some (c ∷ t)) h) s p = add_handler-InStep (c ∷ t) h s p
step-InStep (unmount none h) s p = p
step-InStep (unmount (some []) h) s p = p
step-InStep (unmount (some (c ∷ t)) h) s p = remove_handler-InStep (c ∷ t) h s p
step-InStep (send d) s p =
    subst (λ (m : List (Text × List ℕ)). SyncedTo (λ c. has c m) (send_open (other d) s))
      (sym (send_open-subs (other d) s)) (send_open-SyncedTo (other d) _ _ s (other-Makes d _) p)
step-InStep (token b) s p = answer-InStep b s p
step-InStep fired s p = fire-InStep s.reconnect_timer s p
step-InStep (opened i) s p = opens-InStep i (s.connections i).ready s refl p
step-InStep (errored i) s p = close-InStep i s p
step-InStep (closed_by i) s p = closes-InStep i (s.connections i).ready s p

pub run-InStep : (es : List Event) (s : WebSocket) → InStep s → InStep (run es s)
run-InStep [] s p = p
run-InStep (e ∷ es) s p = run-InStep es (step e s) (step-InStep e s p)
