-- ===== src/Socket/Kept.antt =====
-- What leaves the map of refcounts alone.
use thassa.Base.{ℕ, zero, suc, ◌≡◌, refl, ◌&&◌, Bool, true, if_cases, Text, List}
use thassa.Socket.{Ready, connecting, ready_open, closing, closed, Socket}
use thassa.Socket.Channels.{channels}
use thassa.Socket.Step
use thassa.Socket.Step.{
  Event, start, stop, mount, unmount, send, token, fired, opened, errored, closed_by, set_ready,
  raw_send, connect, connect_with, resubscribe, on_open, schedule, on_close, start_socket, close,
  close_current, stop_socket, add_subscription, remove_subscription, mount_effect, cleanup, opens,
  closes, answer, fire, step, run,
}
use thassa.Socket.Untouched.{resubscribe_only, connect_only}

abbrev pub Kept : List (Text × ℕ) → Socket → Type 0
Kept m t = t.subscriptions ≡ m

pub opens-Kept : (i : ℕ) (r : Ready) (s : Socket) → Kept s.subscriptions (opens i r s)
unfolding opens on_open
opens-Kept i connecting s =
    resubscribe_only (Kept s.subscriptions) (channels s.subscriptions)
      (record (set_ready i ready_open s) { is_open = true; backoff = 1000 }) (λ _. refl)
opens-Kept i ready_open s = refl
opens-Kept i closing s = refl
opens-Kept i closed s = refl

on_close-Kept : (s : Socket) → Kept s.subscriptions (on_close s)
unfolding on_close schedule
on_close-Kept s = if_cases (Kept s.subscriptions) s.should_run (λ _. refl) (λ _. refl)

pub closes-Kept : (i : ℕ) (r : Ready) (s : Socket) → Kept s.subscriptions (closes i r s)
unfolding closes
closes-Kept i connecting s = on_close-Kept (set_ready i closed s)
closes-Kept i ready_open s = on_close-Kept (set_ready i closed s)
closes-Kept i closing s = on_close-Kept (set_ready i closed s)
closes-Kept i closed s = refl

pub answer-Kept : (n : ℕ) (b : Bool) (s : Socket) → Kept s.subscriptions (answer n b s)
unfolding answer connect_with
answer-Kept zero b s = refl
answer-Kept (suc n) b s =
    if_cases (Kept s.subscriptions) (s.should_run && b) (λ _. refl) (λ _. refl)

pub fire-Kept : (i : ℕ) (s : Socket) → Kept s.subscriptions (fire i s)
unfolding fire
fire-Kept i s =
    if_cases (Kept s.subscriptions) (Step.is_pending i s.timers)
      (λ _.
        connect_only (Kept s.subscriptions) (record s { timers = Step.remove_timer i s.timers })
          (λ _. refl))
      (λ _. refl)
