-- ===== src/Notify/Stacked.antt =====
-- What holds of the toasts on the screen.
use thassa.Base.{
  ℕ, zero, suc, length-append, length-drop, ◌+◌, ◌-◌, ◌≤◌, ◌==◌, if_cases, option_cases, List, [],
  ◌∷◌, ◌++◌, arith, length, drop,
}
use thassa.Notify.Mobile.{Toast, toast_for_notification}
use thassa.Notify.Toasts.{
  Stack, initial, last_two, show, without, dismiss, on_notification, Event, shows, notifies, ends,
  step, run,
}

-- The ids rise, and lie from the first number to below the second.
abbrev pub Rising : ℕ → ℕ → List (ℕ × Toast) → Type 0
Rising low high [] = low ≤ high
Rising low high ((i, t) ∷ all) = (low ≤ i) × Rising (i + 1) high all

-- At most three toasts, in the order of their ids, of which each is used once.
pub record Stacked (s : Stack) : Type 0 where
  pub few : length s.toasts ≤ 3
  pub rising : Rising 1 s.next_id s.toasts

Rising-lower :
    (a b high : ℕ) (all : List (ℕ × Toast)) → a ≤ b → Rising b high all → Rising a high all
Rising-lower a b high [] h r = omega arith
Rising-lower a b high ((i, t) ∷ all) h r = (omega (arith, r.0), r.1)

drop-Rising :
    (n low high : ℕ) (all : List (ℕ × Toast)) → Rising low high all → Rising low high (drop n all)
drop-Rising zero low high all r = r
drop-Rising (suc n) low high [] r = r
drop-Rising (suc n) low high ((i, t) ∷ all) r =
    Rising-lower low (i + 1) high (drop n all) (omega (arith, r.0))
      (drop-Rising n (i + 1) high all r.1)

snoc-Rising :
    (low high : ℕ) (all : List (ℕ × Toast)) (t : Toast)
    → Rising low high all
    → Rising low (high + 1) (all ++ (high, t) ∷ [])
snoc-Rising low high [] t r = (r, omega arith)
snoc-Rising low high ((i, u) ∷ all) t r = (r.0, snoc-Rising (i + 1) high all t r.1)

without-Rising :
    (id low high : ℕ) (all : List (ℕ × Toast))
    → Rising low high all
    → Rising low high (without id all)
unfolding without
without-Rising id low high [] r = r
without-Rising id low high ((i, t) ∷ all) r =
    let rest = without-Rising id (i + 1) high all r.1 in
    if_cases (Rising low high) (i == id)
      (λ _. Rising-lower low (i + 1) high (without id all) (omega (arith, r.0)) rest)
      (λ _. (r.0, rest))

length-without : (id : ℕ) (all : List (ℕ × Toast)) → length (without id all) ≤ length all
unfolding without
length-without id [] = omega arith
length-without id ((i, t) ∷ all) = ground (arith, length-without id all)

show-Stacked : (t : Toast) (s : Stack) → Stacked s → Stacked (show t s)
unfolding show
show-Stacked t s p = record {
  few = omega (
    arith,
    length-append (last_two s.toasts) ((s.next_id, t) ∷ []),
    length-drop (length s.toasts - 2) s.toasts,
    p.few,
  );
  rising =
      snoc-Rising 1 s.next_id (last_two s.toasts) t
        (drop-Rising (length s.toasts - 2) 1 s.next_id s.toasts p.rising);
}

step-Stacked : (e : Event) (s : Stack) → Stacked s → Stacked (step e s)
unfolding step on_notification dismiss
step-Stacked (shows t) s p = show-Stacked t s p
step-Stacked (notifies n) s p =
    option_cases Stacked (toast_for_notification n) (λ _. p) (λ t _. show-Stacked t s p)
step-Stacked (ends id) s p = record {
  few = omega (arith, length-without id s.toasts, p.few);
  rising = without-Rising id 1 s.next_id s.toasts p.rising;
}

run-from : (es : List Event) (s : Stack) → Stacked s → Stacked (run es s)
run-from [] s p = p
run-from (e ∷ es) s p = run-from es (step e s) (step-Stacked e s p)

-- Whatever is shown, comes in and ends, and in whatever order: at most three toasts are on the
-- screen, they stand in the order in which they came, and no two have the same id.
pub run-Stacked : (es : List Event) → Stacked (run es initial)
run-Stacked es = run-from es initial (record { few = omega arith; rising = omega arith })
