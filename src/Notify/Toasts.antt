-- ===== src/Notify/Toasts.antt =====
-- The toasts on the phone's screen.
use thassa.Base.{ℕ, ◌+◌, ◌-◌, ◌==◌, if◌then◌else◌, List, [], ◌∷◌, ◌++◌, none, some, length, drop}
use thassa.Notify.{Notification}
use thassa.Notify.Mobile.{Toast, toast_for_notification}

-- The toasts with their ids, the latest last, and the next id.
pub record Stack : Type 0 where
  pub toasts : List (ℕ × Toast)
  pub next_id : ℕ

abbrev pub initial : Stack
initial = record { toasts = []; next_id = 1 }

-- `all.slice(-2)`.
abbrev pub last_two : List (ℕ × Toast) → List (ℕ × Toast)
last_two all = drop (length all - 2) all

unfoldable pub show : Toast → Stack → Stack
show t s = record { toasts = last_two s.toasts ++ ((s.next_id, t) ∷ []); next_id = s.next_id + 1 }

-- `all.filter((x) => x.id !== id)`: what the timer of a toast does, and a tap on it.
unfoldable pub without : ℕ → List (ℕ × Toast) → List (ℕ × Toast)
without id [] = []
without id ((i, t) ∷ all) = let rest = without id all in if i == id then rest else (i, t) ∷ rest

unfoldable pub dismiss : ℕ → Stack → Stack
unfolding without
dismiss id s = record s { toasts = without id s.toasts }

unfoldable pub on_notification : Notification → Stack → Stack
on_notification n s = elim (toast_for_notification n) [ none ↦ s | some t ↦ show t s ]

-- `shows` is a call of `show`, `notifies` a notification of the user's channel, `ends` the end of a
-- toast by its timer or by a tap.
pub data Event : Type 0 where
  shows : Toast → Event
  notifies : Notification → Event
  ends : ℕ → Event

unfoldable pub step : Event → Stack → Stack
step (shows t) s = show t s
step (notifies n) s = on_notification n s
step (ends id) s = dismiss id s

abbrev pub run : List Event → Stack → Stack
run [] s = s
run (e ∷ es) s = run es (step e s)
