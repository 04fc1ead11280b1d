-- ===== src/Format/AgeLaws.antt =====
-- The age that is shown is the largest unit that fits, counted in full.
use thassa.Base.{ℕ, suc, ◌-◌, ◌*◌, ◌/◌, ◌≤◌, ◌<◌, ltb, max, if_cases, arith}
use thassa.Format.Age.{Period, seconds, minutes, hours, days, weeks, years, Age, time_ago}

-- In seconds; a year is 52 weeks.
abbrev pub seconds_of : Period → ℕ
seconds_of seconds = 1
seconds_of minutes = 60
seconds_of hours = 3600
seconds_of days = 86400
seconds_of weeks = 604800
seconds_of years = 31449600

-- The count at which the next unit takes over; a year has none.
abbrev pub Below : Period → ℕ → Type 0
Below seconds n = n < 60
Below minutes n = n < 60
Below hours n = n < 24
Below days n = n < 7
Below weeks n = n < 52
Below years n = Unit

abbrev pub Shows : ℕ → Age → Type 0
Shows s a =
    (0 < a.count)
    × (a.count * seconds_of a.period ≤ s)
    × (s < suc a.count * seconds_of a.period)
    × Below a.period a.count

-- With `s` the whole seconds of the age, at least 1: the count is positive, its unit fits that many
-- times in `s` and not once more, and no larger unit fits. A time ahead of the clock is a second old.
pub time_ago-Shows : (now at : ℕ) → Shows (max 1 ((now - at) / 1000)) (time_ago now at)
unfolding time_ago
time_ago-Shows now at =
    if_cases (Shows s) (ltb s 60) (λ a. (omega arith, omega arith, omega arith, ground arith))
      (λ a.
        if_cases (Shows s) (ltb (s / 60) 60)
          (λ b. (ground arith, omega arith, omega arith, ground arith))
          (λ b.
            if_cases (Shows s) (ltb (s / 60 / 60) 24)
              (λ c. (ground arith, omega arith, omega arith, ground arith))
              (λ c.
                if_cases (Shows s) (ltb (s / 60 / 60 / 24) 7)
                  (λ d. (ground arith, omega arith, omega arith, ground arith))
                  (λ d.
                    if_cases (Shows s) (ltb (s / 60 / 60 / 24 / 7) 52)
                      (λ e. (ground arith, omega arith, omega arith, ground arith))
                      (λ e. (ground arith, omega arith, omega arith, tt))))))
  where
    s : ℕ
    s = max 1 ((now - at) / 1000)
