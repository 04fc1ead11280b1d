-- ===== src/Socket/Counting.antt =====
-- The refcounts stay in step with the frames.
use thassa.Base.{
  ℕ, ◌+◌, ◌-◌, ◌<◌, ◌≡◌, ◌∙◌, ◌==◌, leb, sym, not, ◌&&◌, ◌||◌, Bool, true, false, if_cases, Text,
  text_eq, List, arith,
}
use thassa.Socket.{Frame, subscribe, unsubscribe, other, Socket}
use thassa.Socket.Channels.{refcount, has, set, delete}
use thassa.Socket.ChannelLaws.{
  Positive, has-set, has-set_known, has-delete, refcount_some, set-Positive, delete-Positive,
}
use thassa.Socket.Step.{raw_send, add_subscription, remove_subscription}
use thassa.Socket.Synced.{
  SyncedTo, SyncedTo-eq, Makes, raw_send-SyncedTo, subscribe-Makes, unsubscribe-Makes, other-Makes,
}
use thassa.Socket.InStep.{InStep, settled, raw_send-subscriptions}

-- The map changes and nothing is sent: right if the open socket sees no difference.
quiet :
    (m : List (Text × ℕ)) (s : Socket)
    → Positive m
    → (s.is_open ≡ true → (d : Text) → has d s.subscriptions ≡ has d m)
    → InStep s
    → InStep (record s { subscriptions = m })
quiet m s pos e p = record { counted = pos; synced = at }
  where
    at : SyncedTo (λ d. has d m) (record s { subscriptions = m })
    at i w =
        let q = p.synced i w in
        record { fresh = q.fresh; flag = q.flag; view = λ o d. q.view o d ∙ e (q.flag o) d }

-- The map changes and a frame tells the server.
told :
    (f : Frame) (m : List (Text × ℕ)) (s : Socket) (k : Text → Bool)
    → Positive m
    → Makes f (λ d. has d s.subscriptions) k
    → ((d : Text) → k d ≡ has d m)
    → InStep s
    → InStep (raw_send f (record s { subscriptions = m }))
told f m s k pos make e p =
    let t = record s { subscriptions = m } in
    settled m (raw_send f t) (raw_send-subscriptions f t) pos (
      SyncedTo-eq k (λ d. has d m) (raw_send f t) e
        (raw_send-SyncedTo f (λ d. has d s.subscriptions) k t make (λ i w. p.synced i w)))

pub add_subscription-InStep : (c : Text) (s : Socket) → InStep s → InStep (add_subscription c s)
unfolding add_subscription
add_subscription-InStep c s p =
    if_cases InStep (n == 0 && s.is_open)
      (λ _.
        told (subscribe c) m s (λ d. text_eq c d || has d s.subscriptions) pos
          (subscribe-Makes c (λ d. has d s.subscriptions))
          (λ d. sym (has-set d c (n + 1) s.subscriptions)) p)
      (λ h.
        quiet m s pos
          (λ o d. sym (
            has-set_known d c (n + 1) s.subscriptions
              (refcount_some c s.subscriptions (some_left h o))))
          p)
  where
    n : ℕ
    n = refcount c s.subscriptions

    m : List (Text × ℕ)
    m = set c (n + 1) s.subscriptions

    pos : Positive m
    pos = set-Positive c (n + 1) s.subscriptions (omega arith) p.counted

    some_left : (n == 0 && s.is_open) ≡ false → s.is_open ≡ true → 0 < n
    some_left h o = ground arith

pub remove_subscription-InStep :
    (c : Text) (s : Socket) → InStep s → InStep (remove_subscription c s)
unfolding remove_subscription
remove_subscription-InStep c s p =
    if_cases InStep (leb n 1)
      (λ _.
        if_cases InStep s.is_open
          (λ _.
            told (unsubscribe c) m s (λ d. not (text_eq c d) && has d s.subscriptions) pos
              (unsubscribe-Makes c (λ d. has d s.subscriptions))
              (λ d. sym (has-delete d c s.subscriptions)) p)
          (λ h. quiet m s pos (λ o. absurd (conflict o h)) p))
      (λ h.
        quiet (set c (n - 1) s.subscriptions) s
          (set-Positive c (n - 1) s.subscriptions (ground arith) p.counted)
          (λ o d. sym (
            has-set_known d c (n - 1) s.subscriptions
              (refcount_some c s.subscriptions (ground arith))))
          p)
  where
    n : ℕ
    n = refcount c s.subscriptions

    m : List (Text × ℕ)
    m = delete c s.subscriptions

    pos : Positive m
    pos = delete-Positive c s.subscriptions p.counted

    conflict : {b : Bool} → b ≡ true → b ≡ false → ⊥
    conflict x y = ground arith

pub raw_send_other : (d : Text) (s : Socket) → InStep s → InStep (raw_send (other d) s)
raw_send_other d s p =
    settled s.subscriptions (raw_send (other d) s) (raw_send-subscriptions (other d) s) p.counted (
      raw_send-SyncedTo (other d) (λ c. has c s.subscriptions) (λ c. has c s.subscriptions) s
        (other-Makes d (λ c. has c s.subscriptions)) p.synced)
