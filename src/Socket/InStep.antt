-- ===== src/Socket/InStep.antt =====
-- The subscriptions stay those of the server through every event.
use mathlib.Core.Path.{subst}
use thassa.Base.{
  ℕ, ◌≡◌, ◌∙◌, ◌==◌, refl, sym, ap, ◌&&◌, ◌||◌, Bool, false, if_cases, option_cases, Text, List, [],
  ◌∷◌, none, some, arith,
}
use thassa.Socket.{
  Ready, connecting, ready_open, closing, closed, is_ready, Frame, subscribe, Socket,
  set_connection,
}
use thassa.Socket.Channels.{has, channels}
use thassa.Socket.ChannelLaws.{Positive}
use thassa.Socket.Step.{
  set_ready, raw_send, connect, connect_with, resubscribe, schedule, on_close, close_ready, close,
}
use thassa.Socket.Synced.{
  InLine, SyncedTo, Synced, SyncedTo-eq, no_some, within-channels, resubscribe-SyncedTo,
}

-- The refcounts are positive and the server of the current socket, if it is open, agrees on them.
pub record InStep (s : Socket) : Type 0 where
  pub counted : Positive s.subscriptions
  pub synced : Synced s

pub raw_send-subscriptions :
    (m : Frame) (s : Socket) → (raw_send m s).subscriptions ≡ s.subscriptions
unfolding raw_send
raw_send-subscriptions m s =
    option_cases (λ (t : Socket). t.subscriptions ≡ s.subscriptions) s.ws (λ _. refl)
      (λ i _.
        if_cases (λ (t : Socket). t.subscriptions ≡ s.subscriptions)
          (is_ready (s.connections i).ready) (λ _. refl) (λ _. refl))

resubscribe-subscriptions :
    (cs : List Text) (s : Socket) → (resubscribe cs s).subscriptions ≡ s.subscriptions
unfolding resubscribe
resubscribe-subscriptions [] s = refl
resubscribe-subscriptions (c ∷ cs) s =
    resubscribe-subscriptions cs (raw_send (subscribe c) s) ∙ raw_send-subscriptions (subscribe c) s

-- A state whose map is `m` and whose server has the channels of `m`.
pub settled :
    (m : List (Text × ℕ)) (t : Socket)
    → t.subscriptions ≡ m
    → Positive m
    → SyncedTo (λ c. has c m) t
    → InStep t
settled m t e p q = record {
  counted = subst Positive (sym e) p;
  synced = subst (λ n. SyncedTo (λ c. has c n) t) (sym e) q;
}

pub offline : (s : Socket) → Positive s.subscriptions → s.ws ≡ none → InStep s
offline s p e = record { counted = p; synced = λ i w. absurd (no_some e w) }

pub connect-InStep : (s : Socket) → InStep s → InStep (connect s)
unfolding connect
connect-InStep s p =
    option_cases InStep s.ws
      (λ _.
        if_cases InStep (s.should_run && s.has_getter)
          (λ _. record { counted = p.counted; synced = p.synced }) (λ _. p))
      (λ i _. p)

pub connect_with-InStep : (b : Bool) (s : Socket) → InStep s → InStep (connect_with b s)
unfolding connect_with
connect_with-InStep b s p =
    if_cases InStep (s.should_run && b) (λ _. record { counted = p.counted; synced = made })
      (λ _. p)
  where
    not_open : connecting ≡ ready_open → ⊥
    not_open e = ground arith

    blank : InLine (λ c. has c s.subscriptions) s.is_open (record { ready = connecting; sent = [] })
    blank = record {
      fresh = λ _. refl;
      flag = λ e. absurd (not_open e);
      view = λ e. absurd (not_open e);
    }

    made :
        (i : ℕ)
        → some s.made ≡ some i
        → InLine
            (λ c. has c s.subscriptions)
            s.is_open
            (set_connection s.made (record { ready = connecting; sent = [] }) s.connections i)
    made i w =
        if_cases (InLine (λ c. has c s.subscriptions) s.is_open) (i == s.made) (λ _. blank)
          (λ n. absurd (other_than i n w))
      where
        other_than : (i : ℕ) → (i == s.made) ≡ false → some s.made ≡ some i → ⊥
        other_than i n w = ground arith

-- A socket that goes to a state in which it neither connects nor is open.
set_ready-InStep :
    (i : ℕ) (r : Ready) (s : Socket)
    → (r ≡ connecting → ⊥)
    → (r ≡ ready_open → ⊥)
    → InStep s
    → InStep (set_ready i r s)
set_ready-InStep i r s a b p = record { counted = p.counted; synced = at }
  where
    at : SyncedTo (λ c. has c s.subscriptions) (set_ready i r s)
    at n w =
        if_cases (InLine (λ c. has c s.subscriptions) s.is_open) (n == i)
          (λ _. record {
            fresh = λ e. absurd (a e);
            flag = λ e. absurd (b e);
            view = λ e. absurd (b e);
          })
          (λ _. p.synced n w)

pub close-InStep : (i : ℕ) (s : Socket) → InStep s → InStep (close i s)
unfolding close
close-InStep i s p = set_ready-InStep i (close_ready r) s (not_connecting r) (not_open r) p
  where
    r : Ready
    r = (s.connections i).ready

    not_connecting : (r : Ready) → close_ready r ≡ connecting → ⊥
    not_connecting connecting e = ground arith
    not_connecting ready_open e = ground arith
    not_connecting closing e = ground arith
    not_connecting closed e = ground arith

    not_open : (r : Ready) → close_ready r ≡ ready_open → ⊥
    not_open connecting e = ground arith
    not_open ready_open e = ground arith
    not_open closing e = ground arith
    not_open closed e = ground arith

pub on_close-InStep : (s : Socket) → Positive s.subscriptions → InStep (on_close s)
unfolding on_close schedule
on_close-InStep s p =
    if_cases InStep s.should_run
      (λ _. record { counted = p; synced = λ i w. absurd (no_some refl w) })
      (λ _. record { counted = p; synced = λ i w. absurd (no_some refl w) })

-- Whatever the server had of the channels in the map before, it has them all after.
pub resubscribed :
    (h : Text → Bool) (t : Socket)
    → Positive t.subscriptions
    → ((c : Text) → (has c t.subscriptions || h c) ≡ has c t.subscriptions)
    → SyncedTo h t
    → InStep (resubscribe (channels t.subscriptions) t)
resubscribed h t p e q =
    let cs = channels t.subscriptions in
    settled t.subscriptions (resubscribe cs t) (resubscribe-subscriptions cs t) p (
      SyncedTo-eq _ (λ c. has c t.subscriptions) (resubscribe cs t)
        (λ c. ap (λ b. b || h c) (within-channels c t.subscriptions) ∙ e c)
        (resubscribe-SyncedTo cs h t q))
