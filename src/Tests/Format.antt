-- ===== src/Tests/Format.antt =====
-- An age at the edge of a day, and amounts with six decimals.
use thassa.Base.{◌≡◌, refl, true, codes, some, none}
use thassa.Pricing.{unit}
use thassa.Format.Age.{days, hours, time_ago}
use thassa.Format.Money.{digits, pad_start, fmt_units}
use thassa.Format.MoneyLaws.{IsShown, fmt_units-IsShown}

one_day : time_ago 1800086400000 1800000000000 ≡ record { count = 1; period = days }
unfolding time_ago
one_day = refl

almost : time_ago 1800086399999 1800000000000 ≡ record { count = 23; period = hours }
unfolding time_ago
almost = refl

debt : fmt_units 6 (some (record { negative = true; magnitude = 12059999 })) ≡ codes "-$12.05"
unfolding fmt_units digits pad_start unit
debt = refl

nothing : fmt_units 6 none ≡ codes "$0.00"
unfolding fmt_units
nothing = refl

fmt_units-IsShown_example :
    IsShown 6
      (record { negative = true; magnitude = 12059999 })
      (fmt_units 6 (some (record { negative = true; magnitude = 12059999 })))
fmt_units-IsShown_example = fmt_units-IsShown 6 (record { negative = true; magnitude = 12059999 })
