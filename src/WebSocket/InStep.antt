-- ===== src/WebSocket/InStep.antt =====
-- What is asked of the server on the current socket of the web client.
use mathlib.Core.Path.{subst}
use thassa.Base.{
  ℕ, ◌≡◌, ◌∙◌, ◌==◌, refl, sym, ◌||◌, Bool, true, false, if_cases, option_cases, Text, text_eq,
  List, [], ◌∷◌, some, arith,
}
use thassa.Socket.{is_ready, Frame, subscribe, Connection, set_connection}
use thassa.Socket.Channels.{has}
use thassa.Socket.Synced.{
  InLine, Makes, sent_line, dropped_line, some_inj, no_some, within, subscribe-Makes,
}
use thassa.WebSocket.{WebSocket}
use thassa.WebSocket.Step.{send_over, send_open, resubscribe}

abbrev pub Line : (Text → Bool) → Connection → Type 0
Line h c = InLine h true c

abbrev pub SyncedTo : (Text → Bool) → WebSocket → Type 0
SyncedTo h s = (i : ℕ) → s.ws ≡ some i → Line h (s.connections i)

-- On the current socket, if it is open, the channels that have handlers are asked for.
abbrev pub InStep : WebSocket → Type 0
InStep s = SyncedTo (λ c. has c s.subs) s

pub Line-eq : (h k : Text → Bool) (c : Connection) → ((d : Text) → h d ≡ k d) → Line h c → Line k c
Line-eq h k c e q = record { fresh = q.fresh; flag = q.flag; view = λ o d. q.view o d ∙ e d }

pub SyncedTo-eq :
    (h k : Text → Bool) (s : WebSocket) → ((c : Text) → h c ≡ k c) → SyncedTo h s → SyncedTo k s
SyncedTo-eq h k s e p i w = Line-eq h k (s.connections i) e (p i w)

pub same_number : (i j : ℕ) → i ≡ j → (j == i) ≡ true
same_number i j e = ground (arith, e)

module _ (i : ℕ) (c : Connection) (f : ℕ → Connection) where
  pub set_connection_here : set_connection i c f i ≡ c
  set_connection_here = rw (same_number i i refl) refl

  pub set_connection_there : (j : ℕ) → (j == i) ≡ false → set_connection i c f j ≡ f j
  set_connection_there j n = rw n refl

-- A frame over the current socket, if that is open.
pub send_open-SyncedTo :
    (m : Frame) (h k : Text → Bool) (s : WebSocket)
    → Makes m h k
    → SyncedTo h s
    → SyncedTo k (send_open m s)
unfolding send_open
send_open-SyncedTo m h k s make p =
    option_cases (SyncedTo k) s.ws (λ no i w. absurd (no_some no w))
      (λ j at.
        if_cases (SyncedTo k) (is_ready (s.connections j).ready)
          (λ up i w.
            subst (λ (n : ℕ). Line k ((send_over j m s).connections n)) (some_inj s.ws at w)
              (subst (Line k) (sym (set_connection_here j _ s.connections))
                (sent_line m h k true (s.connections j) make up (p j at))))
          (λ down i w.
            let q = some_inj s.ws at w in
            dropped_line h k true (s.connections i)
              (subst (λ (n : ℕ). is_ready (s.connections n).ready ≡ false) q down) (p i w)))

pub send_over_there :
    (i j : ℕ) (cs : List Text) (s : WebSocket)
    → (j == i) ≡ false
    → (resubscribe i cs s).connections j ≡ s.connections j
unfolding resubscribe
send_over_there i j [] s n = refl
send_over_there i j (c ∷ cs) s n =
    send_over_there i j cs (send_over i (subscribe c) s) n
    ∙ set_connection_there i _ s.connections j n

pub resubscribe-ws : (i : ℕ) (cs : List Text) (s : WebSocket) → (resubscribe i cs s).ws ≡ s.ws
unfolding resubscribe
resubscribe-ws i [] s = refl
resubscribe-ws i (c ∷ cs) s = resubscribe-ws i cs (send_over i (subscribe c) s)

pub resubscribe-subs : (i : ℕ) (cs : List Text) (s : WebSocket) → (resubscribe i cs s).subs ≡ s.subs
unfolding resubscribe
resubscribe-subs i [] s = refl
resubscribe-subs i (c ∷ cs) s = resubscribe-subs i cs (send_over i (subscribe c) s)

pub resubscribe-Line :
    (i : ℕ) (cs : List Text) (h : Text → Bool) (s : WebSocket)
    → is_ready (s.connections i).ready ≡ true
    → Line h (s.connections i)
    → Line (λ c. within c cs || h c) ((resubscribe i cs s).connections i)
unfolding resubscribe
resubscribe-Line i [] h s up p = p
resubscribe-Line i (d ∷ ds) h s up p =
    let k = λ (c : Text). text_eq d c || h c in
    let t : WebSocket = send_over i (subscribe d) s in
    let here =
      set_connection_here i
        (record (s.connections i) { sent = subscribe d ∷ (s.connections i).sent }) s.connections in
    Line-eq _ (λ c. within c (d ∷ ds) || h c) ((resubscribe i ds t).connections i)
      (λ c. swap (text_eq d c) (within c ds) (h c))
      (resubscribe-Line i ds k t (rw here up) (
        subst (Line k) (sym here)
          (sent_line (subscribe d) h k true (s.connections i) (subscribe-Makes d h) up p)))
  where
    swap : (a b x : Bool) → (b || (a || x)) ≡ ((a || b) || x)
    swap true true x = refl
    swap true false x = refl
    swap false b x = refl
