-- ===== src/Socket/Untouched.antt =====
-- What the functions leave alone.
use thassa.Base.{ℕ, suc, ◌&&◌, if_cases, option_cases, Text, List, [], ◌∷◌}
use thassa.Socket.{is_ready, Frame, subscribe, Connection, Socket}
use thassa.Socket.Step.{raw_send, connect, resubscribe, close, close_current}

-- Sending changes the sockets only.
pub raw_send_only {ℓ} :
    (P : Socket → Type ℓ) (m : Frame) (s : Socket)
    → ((f : ℕ → Connection) → P (record s { connections = f }))
    → P (raw_send m s)
unfolding raw_send
raw_send_only P m s h =
    option_cases P s.ws (λ _. h s.connections)
      (λ i _. if_cases P (is_ready (s.connections i).ready) (λ _. h _) (λ _. h s.connections))

pub resubscribe_only {ℓ} :
    (P : Socket → Type ℓ) (cs : List Text) (s : Socket)
    → ((f : ℕ → Connection) → P (record s { connections = f }))
    → P (resubscribe cs s)
unfolding resubscribe
resubscribe_only P [] s h = h s.connections
resubscribe_only P (c ∷ cs) s h = resubscribe_only P cs (raw_send (subscribe c) s) (
    raw_send_only (λ t. (f : ℕ → Connection) → P (record t { connections = f })) (subscribe c) s
      (λ _ f. h f))

pub close_current_only {ℓ} :
    (P : Socket → Type ℓ) (s : Socket)
    → ((f : ℕ → Connection) → P (record s { connections = f }))
    → P (close_current s)
unfolding close_current close
close_current_only P s h = option_cases P s.ws (λ _. h s.connections) (λ i _. h _)

-- The call of `connect` that waits is counted, and nothing else is done before the token.
pub connect_only {ℓ} :
    (P : Socket → Type ℓ) (s : Socket) → ((n : ℕ) → P (record s { waiting = n })) → P (connect s)
unfolding connect
connect_only P s h =
    option_cases P s.ws
      (λ _. if_cases P (s.should_run && s.has_getter) (λ _. h (suc s.waiting)) (λ _. h s.waiting))
      (λ _ _. h s.waiting)
