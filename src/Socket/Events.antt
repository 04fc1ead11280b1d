-- ===== src/Socket/Events.antt =====
-- Every event keeps the state in step with the server.
use thassa.Base.{ℕ, zero, suc, ◌≡◌, refl, Bool, true, if_cases, List, [], ◌∷◌, none, some}
use thassa.Socket.{Ready, connecting, ready_open, closing, closed, Socket}
use thassa.Socket.Step
use thassa.Socket.Step.{
  Event, start, stop, mount, unmount, send, token, fired, opened, errored, closed_by, set_ready,
  raw_send, connect, connect_with, resubscribe, on_open, schedule, on_close, start_socket, close,
  close_current, stop_socket, add_subscription, remove_subscription, mount_effect, cleanup, opens,
  closes, answer, fire, step, run,
}
use thassa.Socket.InStep.{
  InStep, connect-InStep, connect_with-InStep, close-InStep, on_close-InStep, offline,
}
use thassa.Socket.Opening.{on_open-InStep}
use thassa.Socket.Counting.{raw_send_other, add_subscription-InStep, remove_subscription-InStep}

stop_socket-InStep : (s : Socket) → InStep (stop_socket s)
unfolding stop_socket
stop_socket-InStep s = offline (stop_socket s) tt refl

opens-InStep :
    (i : ℕ) (r : Ready) (s : Socket) → (s.connections i).ready ≡ r → InStep s → InStep (opens i r s)
unfolding opens
opens-InStep i connecting s e p = on_open-InStep i s e p
opens-InStep i ready_open s e p = p
opens-InStep i closing s e p = p
opens-InStep i closed s e p = p

closes-InStep : (i : ℕ) (r : Ready) (s : Socket) → InStep s → InStep (closes i r s)
unfolding closes
closes-InStep i connecting s p = on_close-InStep (set_ready i closed s) p.counted
closes-InStep i ready_open s p = on_close-InStep (set_ready i closed s) p.counted
closes-InStep i closing s p = on_close-InStep (set_ready i closed s) p.counted
closes-InStep i closed s p = p

answer-InStep : (n : ℕ) (b : Bool) (s : Socket) → InStep s → InStep (answer n b s)
unfolding answer
answer-InStep zero b s p = p
answer-InStep (suc n) b s p =
    connect_with-InStep b (record s { waiting = n })
      (record { counted = p.counted; synced = p.synced })

step-InStep : (e : Event) (s : Socket) → InStep s → InStep (step e s)
unfolding step start_socket mount_effect cleanup fire
step-InStep start s p =
    connect-InStep (record s { has_getter = true; should_run = true })
      (record { counted = p.counted; synced = p.synced })
step-InStep stop s p = stop_socket-InStep s
step-InStep (mount none) s p = connect-InStep s p
step-InStep (mount (some c)) s p =
    connect-InStep (add_subscription c s) (add_subscription-InStep c s p)
step-InStep (unmount none) s p = p
step-InStep (unmount (some c)) s p = remove_subscription-InStep c s p
step-InStep (send d) s p = raw_send_other d s p
step-InStep (token b) s p = answer-InStep s.waiting b s p
step-InStep (fired i) s p =
    if_cases InStep (Step.is_pending i s.timers)
      (λ _.
        connect-InStep (record s { timers = Step.remove_timer i s.timers })
          (record { counted = p.counted; synced = p.synced }))
      (λ _. p)
step-InStep (opened i) s p = opens-InStep i (s.connections i).ready s refl p
step-InStep (errored i) s p = close-InStep i s p
step-InStep (closed_by i) s p = closes-InStep i (s.connections i).ready s p

pub run-InStep : (es : List Event) (s : Socket) → InStep s → InStep (run es s)
unfolding run
run-InStep [] s p = p
run-InStep (e ∷ es) s p = run-InStep es (step e s) (step-InStep e s p)
