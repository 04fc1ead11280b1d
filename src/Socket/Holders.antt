-- ===== src/Socket/Holders.antt =====
-- What a list of events leaves joined.
use thassa.Base.{
  ℕ, suc, ◌+◌, ◌-◌, ◌≡◌, ◌∙◌, ◌==◌, leb, ltb, refl, ap, ◌&&◌, true, Bool-cases, inl, inr, if_cases,
  if◌then◌else◌, Text, text_eq, text_eq_iff, List, [], ◌∷◌, none, some, arith,
}
use thassa.Socket.{ready_open, subscribe, unsubscribe, other, Socket, initial}
use thassa.Socket.Channels.{refcount, set, delete, subscribed}
use thassa.Socket.Hub.{Hub, is_user, own, accepts, joined, joined-subscribed}
use thassa.Socket.ChannelLaws.{refcount-set, refcount-delete, has-refcount}
use thassa.Socket.Step.{
  Event, start, stop, mount, unmount, send, token, fired, opened, errored, closed_by, start_socket,
  close, stop_socket, add_subscription, remove_subscription, mount_effect, cleanup, step, run,
}
use thassa.Socket.InStep.{InStep}
use thassa.Socket.Events.{run-InStep}
use thassa.Socket.Kept.{opens-Kept, closes-Kept, answer-Kept, fire-Kept}
use thassa.Socket.Untouched.{raw_send_only, connect_only}

-- How many components hold a channel after the events, from `n` on: an effect adds one, a cleanup
-- takes one off where there is one, and `stopSocket` lets go of all.
unfoldable pub holders : Text → List Event → ℕ → ℕ
holders c [] n = n
holders c (stop ∷ es) n = holders c es 0
holders c (mount (some d) ∷ es) n = holders c es (if text_eq d c then suc n else n)
holders c (unmount (some d) ∷ es) n = holders c es (if text_eq d c then n - 1 else n)
holders c (mount none ∷ es) n = holders c es n
holders c (unmount none ∷ es) n = holders c es n
holders c (start ∷ es) n = holders c es n
holders c (send d ∷ es) n = holders c es n
holders c (token b ∷ es) n = holders c es n
holders c (fired i ∷ es) n = holders c es n
holders c (opened i ∷ es) n = holders c es n
holders c (errored i ∷ es) n = holders c es n
holders c (closed_by i ∷ es) n = holders c es n

at_channel :
    (d c : Text) (m : List (Text × ℕ)) (f g : ℕ → ℕ)
    → ((k : ℕ) → f k ≡ g k)
    → (if text_eq d c then f (refcount d m) else refcount c m)
      ≡ (if text_eq d c then g (refcount c m) else refcount c m)
at_channel d c m f g e = elim (Bool-cases (text_eq d c)) [
  | inl h ↦ rw h (e (refcount d m) ∙ ap (λ x. g (refcount x m)) ((text_eq_iff d c).0 h))
  | inr h ↦ rw h refl
]

refcount_empty : (c : Text) → refcount c [] ≡ 0
unfolding refcount
refcount_empty c = refl

add_subscription_count :
    (c d : Text) (s : Socket)
    → refcount c (add_subscription d s).subscriptions
      ≡ (if text_eq d c then suc (refcount c s.subscriptions) else refcount c s.subscriptions)
unfolding add_subscription
add_subscription_count c d s =
    let counted = refcount-set c d (n + 1) s.subscriptions ∙ agree in
    if_cases (λ (t : Socket). refcount c t.subscriptions ≡ after) (n == 0 && s.is_open)
      (λ _.
        raw_send_only (λ t. refcount c t.subscriptions ≡ after) (subscribe d)
          (record s { subscriptions = set d (n + 1) s.subscriptions }) (λ _. counted))
      (λ _. counted)
  where
    n : ℕ
    n = refcount d s.subscriptions

    after : ℕ
    after = if text_eq d c then suc (refcount c s.subscriptions) else refcount c s.subscriptions

    agree : (if text_eq d c then n + 1 else refcount c s.subscriptions) ≡ after
    agree = at_channel d c s.subscriptions (λ k. k + 1) suc (λ k. omega arith)

remove_subscription_count :
    (c d : Text) (s : Socket)
    → refcount c (remove_subscription d s).subscriptions
      ≡ (if text_eq d c then refcount c s.subscriptions - 1 else refcount c s.subscriptions)
unfolding remove_subscription
remove_subscription_count c d s =
    if_cases (λ (t : Socket). refcount c t.subscriptions ≡ after) (leb n 1)
      (λ h.
        let gone = refcount-delete c d s.subscriptions ∙ last h in
        if_cases (λ (t : Socket). refcount c t.subscriptions ≡ after) s.is_open
          (λ _.
            raw_send_only (λ t. refcount c t.subscriptions ≡ after) (unsubscribe d)
              (record s { subscriptions = delete d s.subscriptions }) (λ _. gone))
          (λ _. gone))
      (λ _. refcount-set c d (n - 1) s.subscriptions ∙ less)
  where
    n : ℕ
    n = refcount d s.subscriptions

    after : ℕ
    after = if text_eq d c then refcount c s.subscriptions - 1 else refcount c s.subscriptions

    less : (if text_eq d c then n - 1 else refcount c s.subscriptions) ≡ after
    less = at_channel d c s.subscriptions (λ k. k - 1) (λ k. k - 1) (λ _. refl)

    last : leb n 1 ≡ true → (if text_eq d c then 0 else refcount c s.subscriptions) ≡ after
    last h =
        let z : 0 ≡ n - 1 = ground arith in
        ap (λ k. if text_eq d c then k else refcount c s.subscriptions) z ∙ less

step_count :
    (c : Text) (e : Event) (es : List Event) (s : Socket)
    → holders c es (refcount c (step e s).subscriptions)
      ≡ holders c (e ∷ es) (refcount c s.subscriptions)
unfolding step start_socket mount_effect cleanup holders stop_socket refcount close
step_count c start es s =
    connect_only
      (λ t. holders c es (refcount c t.subscriptions) ≡ holders c es (refcount c s.subscriptions))
      (record s { has_getter = true; should_run = true }) (λ _. refl)
step_count c stop es s = refl
step_count c (mount none) es s =
    connect_only
      (λ t. holders c es (refcount c t.subscriptions) ≡ holders c es (refcount c s.subscriptions)) s
      (λ _. refl)
step_count c (mount (some d)) es s =
    connect_only
      (λ t.
        holders c es (refcount c t.subscriptions)
        ≡ holders c (mount (some d) ∷ es) (refcount c s.subscriptions))
      (add_subscription d s) (λ _. ap (holders c es) (add_subscription_count c d s))
step_count c (unmount none) es s = refl
step_count c (unmount (some d)) es s = ap (holders c es) (remove_subscription_count c d s)
step_count c (send d) es s =
    raw_send_only
      (λ t. holders c es (refcount c t.subscriptions) ≡ holders c es (refcount c s.subscriptions))
      (other d) s (λ _. refl)
step_count c (token b) es s = ap (λ m. holders c es (refcount c m)) (answer-Kept s.waiting b s)
step_count c (fired i) es s = ap (λ m. holders c es (refcount c m)) (fire-Kept i s)
step_count c (opened i) es s =
    ap (λ m. holders c es (refcount c m)) (opens-Kept i (s.connections i).ready s)
step_count c (errored i) es s = refl
step_count c (closed_by i) es s =
    ap (λ m. holders c es (refcount c m)) (closes-Kept i (s.connections i).ready s)

run_count :
    (c : Text) (es : List Event) (s : Socket)
    → refcount c (run es s).subscriptions ≡ holders c es (refcount c s.subscriptions)
unfolding run holders
run_count c [] s = refl
run_count c (e ∷ es) s = run_count c es (step e s) ∙ step_count c e es s

initial-InStep : InStep initial
initial-InStep = record { counted = tt; synced = λ i w. absurd (ground arith) }

run-asked :
    (es : List Event) (i : ℕ) (c : Text)
    → (run es initial).ws ≡ some i
    → ((run es initial).connections i).ready ≡ ready_open
    → subscribed c ((run es initial).connections i).sent ≡ ltb 0 (holders c es 0)
run-asked es i c w o =
    let s = run es initial in
    let p = run-InStep es initial initial-InStep in
    (p.synced i w).view o c
    ∙ has-refcount c s.subscriptions p.counted
    ∙ ap (ltb 0) (run_count c es initial ∙ none_held)
  where
    none_held : holders c es (refcount c []) ≡ holders c es 0
    none_held = ap (holders c es) (refcount_empty c)

-- After any events, in any order, and once the backend has handled what was sent over the current
-- socket, if that is open: it has joined a channel that is no user's exactly if it accepts the channel
-- and components hold it, and of the users' channels just the user's own. What holds a channel is
-- counted by `holders`: an effect adds one, a cleanup takes one off where there is one, and
-- `stopSocket` lets go of all. What the backend accepts does not change meanwhile. This is so across
-- reconnects, and when several sockets were opened.
pub run-holders :
    (hub : Hub) (es : List Event) (i : ℕ) (c : Text)
    → (run es initial).ws ≡ some i
    → ((run es initial).connections i).ready ≡ ready_open
    → joined hub c ((run es initial).connections i).sent
      ≡ (if is_user c then text_eq (own hub) c else accepts hub c && ltb 0 (holders c es 0))
run-holders hub es i c w o =
    joined-subscribed hub c ((run es initial).connections i).sent
    ∙ ap (λ b. if is_user c then text_eq (own hub) c else accepts hub c && b) (run-asked es i c w o)
