-- ===== src/Socket/Stopped.antt =====
-- After `stopSocket` nothing is opened.
use thassa.Base.{
  ℕ, zero, suc, ◌+◌, ◌≡◌, ◌∙◌, ◌==◌, leb, refl, ◌&&◌, Bool, true, false, if_cases, Text, All, List,
  [], ◌∷◌, none, some, arith,
}
use thassa.Socket.{
  Ready, connecting, ready_open, closing, closed, subscribe, unsubscribe, other, Socket,
}
use thassa.Socket.Channels.{refcount, set, delete, channels}
use thassa.Socket.Step
use thassa.Socket.Step.{
  Event, start, stop, mount, unmount, send, token, fired, opened, errored, closed_by, set_ready,
  raw_send, connect, connect_with, resubscribe, on_open, schedule, on_close, remove_timer,
  clear_timer, start_socket, close, close_current, stop_socket, add_subscription,
  remove_subscription, mount_effect, cleanup, opens, closes, answer, fire, step, run,
}
use thassa.Socket.Untouched.{raw_send_only, resubscribe_only, close_current_only, connect_only}

-- The module is stopped, and `n` sockets were made so far.
pub record Idle (n : ℕ) (s : Socket) : Type 0 where
  pub halted : s.should_run ≡ false
  pub count : s.made ≡ n

same : (n : ℕ) (s t : Socket) → t.should_run ≡ s.should_run → t.made ≡ s.made → Idle n s → Idle n t
same n s t r m p = record { halted = r ∙ p.halted; count = m ∙ p.count }

on_close-Idle : (n : ℕ) (s : Socket) → Idle n s → Idle n (on_close s)
unfolding on_close schedule
on_close-Idle n s p =
    if_cases (Idle n) s.should_run (λ _. same n s _ refl refl p) (λ _. same n s _ refl refl p)

opens-Idle : (n i : ℕ) (r : Ready) (s : Socket) → Idle n s → Idle n (opens i r s)
unfolding opens on_open
opens-Idle n i connecting s p =
    resubscribe_only (Idle n) (channels s.subscriptions)
      (record (set_ready i ready_open s) { is_open = true; backoff = 1000 })
      (λ _. same n s _ refl refl p)
opens-Idle n i ready_open s p = p
opens-Idle n i closing s p = p
opens-Idle n i closed s p = p

closes-Idle : (n i : ℕ) (r : Ready) (s : Socket) → Idle n s → Idle n (closes i r s)
unfolding closes
closes-Idle n i connecting s p = on_close-Idle n (set_ready i closed s) (same n s _ refl refl p)
closes-Idle n i ready_open s p = on_close-Idle n (set_ready i closed s) (same n s _ refl refl p)
closes-Idle n i closing s p = on_close-Idle n (set_ready i closed s) (same n s _ refl refl p)
closes-Idle n i closed s p = p

-- A token that comes late opens nothing.
answer-Idle : (n k : ℕ) (b : Bool) (s : Socket) → Idle n s → Idle n (answer k b s)
unfolding answer connect_with
answer-Idle n zero b s p = p
answer-Idle n (suc k) b s p =
    if_cases (Idle n) (s.should_run && b) (λ h. absurd (running h p.halted))
      (λ _. same n s _ refl refl p)
  where
    running : (s.should_run && b) ≡ true → s.should_run ≡ false → ⊥
    running h q = ground arith

add_subscription-Idle : (n : ℕ) (d : Text) (s : Socket) → Idle n s → Idle n (add_subscription d s)
unfolding add_subscription
add_subscription-Idle n d s p =
    if_cases (Idle n) (refcount d s.subscriptions == 0 && s.is_open)
      (λ _.
        raw_send_only (Idle n) (subscribe d)
          (record s { subscriptions = set d (refcount d s.subscriptions + 1) s.subscriptions })
          (λ _. same n s _ refl refl p))
      (λ _. same n s _ refl refl p)

remove_subscription-Idle :
    (n : ℕ) (d : Text) (s : Socket) → Idle n s → Idle n (remove_subscription d s)
unfolding remove_subscription
remove_subscription-Idle n d s p =
    if_cases (Idle n) (leb (refcount d s.subscriptions) 1)
      (λ _.
        if_cases (Idle n) s.is_open
          (λ _.
            raw_send_only (Idle n) (unsubscribe d)
              (record s { subscriptions = delete d s.subscriptions }) (λ _. same n s _ refl refl p))
          (λ _. same n s _ refl refl p))
      (λ _. same n s _ refl refl p)

stop_socket-Idle : (s : Socket) → Idle s.made (stop_socket s)
unfolding stop_socket
stop_socket-Idle s =
    close_current_only
      (λ t. Idle s.made (record t { ws = none; is_open = false; subscriptions = [] }))
      (record s { should_run = false; timers = clear_timer s.reconnect_timer s.timers })
      (λ _. record { halted = refl; count = refl })

abbrev pub is_start : Event → Bool
is_start start = true
is_start stop = false
is_start (mount c) = false
is_start (unmount c) = false
is_start (send d) = false
is_start (token b) = false
is_start (fired i) = false
is_start (opened i) = false
is_start (errored i) = false
is_start (closed_by i) = false

step-Idle : (n : ℕ) (e : Event) (s : Socket) → is_start e ≡ false → Idle n s → Idle n (step e s)
unfolding step mount_effect cleanup fire close
step-Idle n start s h p = ground arith
step-Idle n stop s h p =
    let q = stop_socket-Idle s in record { halted = q.halted; count = q.count ∙ p.count }
step-Idle n (mount none) s h p = connect_only (Idle n) s (λ _. same n s _ refl refl p)
step-Idle n (mount (some d)) s h p =
    connect_only (Idle n) (add_subscription d s)
      (λ _. same n (add_subscription d s) _ refl refl (add_subscription-Idle n d s p))
step-Idle n (unmount none) s h p = p
step-Idle n (unmount (some d)) s h p = remove_subscription-Idle n d s p
step-Idle n (send d) s h p = raw_send_only (Idle n) (other d) s (λ _. same n s _ refl refl p)
step-Idle n (token b) s h p = answer-Idle n s.waiting b s p
step-Idle n (fired i) s h p =
    if_cases (Idle n) (Step.is_pending i s.timers)
      (λ _.
        connect_only (Idle n) (record s { timers = remove_timer i s.timers })
          (λ _. same n s _ refl refl p))
      (λ _. p)
step-Idle n (opened i) s h p = opens-Idle n i (s.connections i).ready s p
step-Idle n (errored i) s h p = same n s _ refl refl p
step-Idle n (closed_by i) s h p = closes-Idle n i (s.connections i).ready s p

run-Idle :
    (n : ℕ) (es : List Event) (s : Socket)
    → All (λ e. is_start e ≡ false) es
    → Idle n s
    → Idle n (run es s)
unfolding run
run-Idle n [] s h p = p
run-Idle n (e ∷ es) s (h, k) p = run-Idle n es (step e s) k (step-Idle n e s h p)

-- From `stopSocket` to the next `startSocket` no socket is made, in any state and whatever happens,
-- though calls of `connect` still await their token and timers are pending.
pub run-stop_socket :
    (s : Socket) (es : List Event)
    → All (λ e. is_start e ≡ false) es
    → (run es (stop_socket s)).made ≡ s.made
run-stop_socket s es h = (run-Idle s.made es (stop_socket s) h (stop_socket-Idle s)).count
