-- ===== src/Format/Age.antt =====
-- The age of a post, `timeAgo`: a count and the letter of its unit.
use thassa.Base.{ℕ, ◌-◌, ◌/◌, ltb, max, if◌then◌else◌}

-- In the order of the letters s, m, h, d, w and y.
pub data Period : Type 0 where
  seconds : Period
  minutes : Period
  hours : Period
  days : Period
  weeks : Period
  years : Period

pub record Age : Type 0 where
  pub count : ℕ
  pub period : Period

-- Of a time in milliseconds, which may lie ahead of the clock.
unfoldable pub time_ago : ℕ → ℕ → Age
time_ago now at =
    let s = max 1 ((now - at) / 1000) in
    let m = s / 60 in
    let h = m / 60 in
    let d = h / 24 in
    let w = d / 7 in
    if ltb s 60
    then record { count = s; period = seconds }
    else if ltb m 60
    then record { count = m; period = minutes }
    else if ltb h 24
    then record { count = h; period = hours }
    else if ltb d 7
    then record { count = d; period = days }
    else if ltb w 52
    then record { count = w; period = weeks }
    else record { count = w / 52; period = years }
