-- ===== src/Socket/Backoff.antt =====
-- The delays of the reconnection.
use mathlib.Core.Path.{subst}
use thassa.Base.{
  ℕ, zero, suc, ◌+◌, ◌*◌, ◌≡◌, ◌==◌, leb, refl, sym, ◌&&◌, Bool, true, false, if_cases, Text, All,
  ◌≤◌, min, List, [], ◌∷◌, Option, none, some, arith,
}
use thassa.Socket.{
  Timer, Ready, connecting, ready_open, closing, closed, subscribe, unsubscribe, other, Socket,
  initial,
}
use thassa.Socket.Channels.{refcount, set, delete, channels}
use thassa.Socket.Step
use thassa.Socket.Step.{
  Event, start, stop, mount, unmount, send, token, fired, opened, errored, closed_by, set_ready,
  raw_send, connect, connect_with, resubscribe, on_open, schedule, on_close, remove_timer,
  clear_timer, start_socket, close, close_current, stop_socket, add_subscription,
  remove_subscription, mount_effect, cleanup, opens, closes, answer, fire, step, run,
}
use thassa.Socket.Untouched.{raw_send_only, resubscribe_only, close_current_only, connect_only}

abbrev pub InRange : ℕ → Type 0
InRange d = (1000 ≤ d) × (d ≤ 15000)

-- The next delay and those of the pending timers are from 1 to 15 seconds.
pub record Paced (s : Socket) : Type 0 where
  pub next : InRange s.backoff
  pub pending : All (λ t. InRange t.delay) s.timers

remove_timer-All :
    (P : Timer → Type 0) (i : ℕ) (ts : List Timer) → All P ts → All P (remove_timer i ts)
unfolding remove_timer
remove_timer-All P i [] p = tt
remove_timer-All P i (t ∷ ts) (p, q) =
    if_cases (All P) (t.id == i) (λ _. remove_timer-All P i ts q)
      (λ _. (p, remove_timer-All P i ts q))

clear_timer-All :
    (P : Timer → Type 0) (o : Option ℕ) (ts : List Timer) → All P ts → All P (clear_timer o ts)
unfolding clear_timer
clear_timer-All P none ts p = p
clear_timer-All P (some i) ts p = remove_timer-All P i ts p

same : (s t : Socket) → t.backoff ≡ s.backoff → t.timers ≡ s.timers → Paced s → Paced t
same s t b u p = record {
  next = subst InRange (sym b) p.next;
  pending = subst (All (λ x. InRange x.delay)) (sym u) p.pending;
}

on_close-Paced : (s : Socket) → Paced s → Paced (on_close s)
unfolding on_close schedule
on_close-Paced s p =
    if_cases Paced s.should_run
      (λ _. record { next = doubled p.next; pending = (p.next, p.pending) })
      (λ _. record { next = p.next; pending = p.pending })
  where
    doubled : {b : ℕ} → InRange b → InRange (min (b * 2) 15000)
    doubled (l, u) = (omega arith, omega arith)

opens-Paced : (i : ℕ) (r : Ready) (s : Socket) → Paced s → Paced (opens i r s)
unfolding opens on_open
opens-Paced i connecting s p =
    resubscribe_only Paced (channels s.subscriptions)
      (record (set_ready i ready_open s) { is_open = true; backoff = 1000 })
      (λ _. record { next = (omega arith, omega arith); pending = p.pending })
opens-Paced i ready_open s p = p
opens-Paced i closing s p = p
opens-Paced i closed s p = p

closes-Paced : (i : ℕ) (r : Ready) (s : Socket) → Paced s → Paced (closes i r s)
unfolding closes
closes-Paced i connecting s p = on_close-Paced (set_ready i closed s) (same s _ refl refl p)
closes-Paced i ready_open s p = on_close-Paced (set_ready i closed s) (same s _ refl refl p)
closes-Paced i closing s p = on_close-Paced (set_ready i closed s) (same s _ refl refl p)
closes-Paced i closed s p = p

answer-Paced : (n : ℕ) (b : Bool) (s : Socket) → Paced s → Paced (answer n b s)
unfolding answer connect_with
answer-Paced zero b s p = p
answer-Paced (suc n) b s p =
    if_cases Paced (s.should_run && b) (λ _. same s _ refl refl p) (λ _. same s _ refl refl p)

add_subscription-Paced : (d : Text) (s : Socket) → Paced s → Paced (add_subscription d s)
unfolding add_subscription
add_subscription-Paced d s p =
    if_cases Paced (refcount d s.subscriptions == 0 && s.is_open)
      (λ _.
        raw_send_only Paced (subscribe d)
          (record s { subscriptions = set d (refcount d s.subscriptions + 1) s.subscriptions })
          (λ _. same s _ refl refl p))
      (λ _. same s _ refl refl p)

remove_subscription-Paced : (d : Text) (s : Socket) → Paced s → Paced (remove_subscription d s)
unfolding remove_subscription
remove_subscription-Paced d s p =
    if_cases Paced (leb (refcount d s.subscriptions) 1)
      (λ _.
        if_cases Paced s.is_open
          (λ _.
            raw_send_only Paced (unsubscribe d)
              (record s { subscriptions = delete d s.subscriptions }) (λ _. same s _ refl refl p))
          (λ _. same s _ refl refl p))
      (λ _. same s _ refl refl p)

step-Paced : (e : Event) (s : Socket) → Paced s → Paced (step e s)
unfolding step start_socket stop_socket mount_effect cleanup fire close
step-Paced start s p =
    connect_only Paced (record s { has_getter = true; should_run = true })
      (λ _. same s _ refl refl p)
step-Paced stop s p =
    close_current_only (λ t. Paced (record t { ws = none; is_open = false; subscriptions = [] }))
      (record s { should_run = false; timers = clear_timer s.reconnect_timer s.timers })
      (λ _. record {
        next = p.next;
        pending = clear_timer-All _ s.reconnect_timer s.timers p.pending;
      })
step-Paced (mount none) s p = connect_only Paced s (λ _. same s _ refl refl p)
step-Paced (mount (some d)) s p =
    connect_only Paced (add_subscription d s)
      (λ _. same (add_subscription d s) _ refl refl (add_subscription-Paced d s p))
step-Paced (unmount none) s p = p
step-Paced (unmount (some d)) s p = remove_subscription-Paced d s p
step-Paced (send d) s p = raw_send_only Paced (other d) s (λ _. same s _ refl refl p)
step-Paced (token b) s p = answer-Paced s.waiting b s p
step-Paced (fired i) s p =
    if_cases Paced (Step.is_pending i s.timers)
      (λ _.
        connect_only Paced (record s { timers = remove_timer i s.timers })
          (λ _. record { next = p.next; pending = remove_timer-All _ i s.timers p.pending }))
      (λ _. p)
step-Paced (opened i) s p = opens-Paced i (s.connections i).ready s p
step-Paced (errored i) s p = same s _ refl refl p
step-Paced (closed_by i) s p = closes-Paced i (s.connections i).ready s p

each_step : (es : List Event) (s : Socket) → Paced s → Paced (run es s)
unfolding run
each_step [] s p = p
each_step (e ∷ es) s p = each_step es (step e s) (step-Paced e s p)

-- Whatever happens, in any order, every pending reconnection waits from 1 to 15 seconds, and so
-- will the next.
pub run-Paced : (es : List Event) → Paced (run es initial)
run-Paced es = each_step es initial (record { next = (omega arith, omega arith); pending = tt })
