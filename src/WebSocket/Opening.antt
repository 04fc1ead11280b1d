-- ===== src/WebSocket/Opening.antt =====
-- A socket of the web client that opens.
use mathlib.Core.Path.{subst}
use thassa.Base.{
  ℕ, ◌≡◌, ◌∙◌, ◌==◌, refl, sym, ap, ◌||◌, Bool, true, false, Bool-cases, inl, inr, Text, List, some,
  arith,
}
use thassa.Socket.{Ready, connecting, ready_open, closing, closed}
use thassa.Socket.Channels.{has, channels, subscribed}
use thassa.Socket.Synced.{within, within-channels}
use thassa.WebSocket.{WebSocket}
use thassa.WebSocket.Step.{resubscribe, on_open, set_ready, opens}
use thassa.WebSocket.InStep.{
  Line, InStep, Line-eq, set_connection_here, set_connection_there, send_over_there, resubscribe-ws,
  resubscribe-subs, resubscribe-Line,
}

module _ (i : ℕ) (s : WebSocket) (c : (s.connections i).ready ≡ connecting) (p : InStep s) where
  t : WebSocket
  t = record (set_ready i ready_open s) { backoff = 1000 }

  -- The current socket: nothing was sent over it before.
  opened_here :
      s.ws ≡ some i → Line (λ d. has d s.subs) ((resubscribe i (channels s.subs) t).connections i)
  unfolding t subscribed
  opened_here w =
      let here =
        set_connection_here i (record (s.connections i) { ready = ready_open }) s.connections in
      Line-eq _ (λ d. has d s.subs) ((resubscribe i (channels s.subs) t).connections i)
        (λ d. drop_false (within d (channels s.subs)) ∙ within-channels d s.subs)
        (resubscribe-Line i (channels s.subs) (λ _. false) t (rw here refl)
          (subst (Line (λ _. false)) (sym here) (record {
            fresh = λ q. absurd (not_connecting q);
            flag = λ _. refl;
            view = λ _ d. ap (subscribed d) ((p i w).fresh c);
          })))
    where
      not_connecting : ready_open ≡ connecting → ⊥
      not_connecting q = ground arith

      drop_false : (b : Bool) → (b || false) ≡ b
      drop_false true = refl
      drop_false false = refl

  opened_there :
      (j : ℕ)
      → (j == i) ≡ false
      → s.ws ≡ some j
      → Line (λ d. has d s.subs) ((resubscribe i (channels s.subs) t).connections j)
  unfolding t
  opened_there j n w =
      subst (Line (λ d. has d s.subs))
        (sym
          (send_over_there i j (channels s.subs) t n ∙ set_connection_there i _ s.connections j n))
        (p j w)

  pub on_open-InStep : InStep (on_open i (set_ready i ready_open s))
  unfolding on_open t
  on_open-InStep j w =
      let at : s.ws ≡ some j = sym (resubscribe-ws i (channels s.subs) t) ∙ w in
      subst
        (λ (m : List (Text × List ℕ)).
          Line (λ d. has d m) ((resubscribe i (channels s.subs) t).connections j))
        (sym (resubscribe-subs i (channels s.subs) t))
        (elim (Bool-cases (j == i)) [
          | inl e ↦
              subst
                (λ (n : ℕ).
                  Line (λ d. has d s.subs) ((resubscribe i (channels s.subs) t).connections n))
                (sym (eq_of e)) (opened_here (at ∙ ap some (eq_of e)))
          | inr n ↦ opened_there j n at
        ])
    where
      eq_of : {a b : ℕ} → (a == b) ≡ true → a ≡ b
      eq_of h = ground (arith, h)

pub opens-InStep :
    (i : ℕ) (r : Ready) (s : WebSocket)
    → (s.connections i).ready ≡ r
    → InStep s
    → InStep (opens i r s)
unfolding opens
opens-InStep i connecting s c p = on_open-InStep i s c p
opens-InStep i ready_open s c p = p
opens-InStep i closing s c p = p
opens-InStep i closed s c p = p
