-- ===== src/Socket/Opening.antt =====
-- A socket that opens.
use thassa.Base.{
  ℕ, ◌≡◌, ◌∙◌, ◌==◌, refl, ap, ◌||◌, Bool, true, false, Bool-cases, Option-cases, inl, inr,
  if_cases, Text, [], some, arith,
}
use thassa.Socket.{connecting, ready_open, Socket}
use thassa.Socket.Channels.{has, subscribed}
use thassa.Socket.Step.{set_ready, on_open}
use thassa.Socket.Synced.{InLine, SyncedTo, no_some}
use thassa.Socket.InStep.{InStep, resubscribed}

subscribed_none : (d : Text) → subscribed d [] ≡ false
unfolding subscribed
subscribed_none d = refl

-- The current socket opens: nothing was sent over it.
opened_fresh :
    (i j : ℕ) (s : Socket)
    → (s.connections i).ready ≡ connecting
    → s.ws ≡ some j
    → (j == i) ≡ true
    → InStep s
    → SyncedTo (λ _. false) (record (set_ready i ready_open s) { is_open = true; backoff = 1000 })
opened_fresh i j s c at e p n w =
    if_cases (InLine (λ _. false) true) (n == i)
      (λ _. record {
        fresh = λ q. absurd (not_connecting q);
        flag = λ _. refl;
        view = λ _ d. ap (subscribed d) ((p.synced i here).fresh c) ∙ subscribed_none d;
      })
      (λ q. absurd (elsewhere q))
  where
    not_connecting : ready_open ≡ connecting → ⊥
    not_connecting q = ground arith

    here : s.ws ≡ some i
    here = ground arith

    elsewhere : (n == i) ≡ false → ⊥
    elsewhere q = ground arith

-- Another socket opens.
opened_other :
    (i j : ℕ) (s : Socket)
    → s.ws ≡ some j
    → (j == i) ≡ false
    → InStep s
    → SyncedTo
        (λ c. has c s.subscriptions)
        (record (set_ready i ready_open s) { is_open = true; backoff = 1000 })
opened_other i j s at e p n w =
    let q = p.synced n w in
    if_cases (InLine (λ c. has c s.subscriptions) true) (n == i) (λ h. absurd (here h))
      (λ _. record { fresh = q.fresh; flag = λ _. refl; view = q.view })
  where
    here : (n == i) ≡ true → ⊥
    here q = ground arith

pub on_open-InStep :
    (i : ℕ) (s : Socket)
    → (s.connections i).ready ≡ connecting
    → InStep s
    → InStep (on_open (set_ready i ready_open s))
unfolding on_open
on_open-InStep i s c p = elim (Option-cases s.ws) [
  | inl off ↦ resubscribed has_it t p.counted idem (λ n w. absurd (no_some off w))
  | inr (j, at) ↦ elim (Bool-cases (j == i)) [
    | inl e ↦
        resubscribed (λ _. false) t p.counted (λ d. nothing (has_it d))
          (opened_fresh i j s c at e p)
    | inr e ↦ resubscribed has_it t p.counted idem (opened_other i j s at e p)
  ]
]
  where
    has_it : Text → Bool
    has_it d = has d s.subscriptions

    t : Socket
    t = record (set_ready i ready_open s) { is_open = true; backoff = 1000 }

    twice : (b : Bool) → (b || b) ≡ b
    twice true = refl
    twice false = refl

    idem : (d : Text) → (has_it d || has_it d) ≡ has_it d
    idem d = twice (has_it d)

    nothing : (b : Bool) → (b || false) ≡ b
    nothing true = refl
    nothing false = refl
