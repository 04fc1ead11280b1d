-- ===== src/Card.antt =====
-- The market card of a post and its ticket: mobile/components/MarketCard.tsx, and the price that the web
-- client's card and ticket read from the same input. An amount is a whole count of cents.
pub mod Prices
pub mod Single
use thassa.Base.{
  ℕ, zero, suc, ◌+◌, ◌-◌, ◌*◌, ◌^◌, min, max, ltb, leb, ◌==◌, not, ◌&&◌, ◌||◌, if◌then◌else◌,
  or_else, Bool, true, false, Text, codes, List, [], ◌∷◌, Option, none, some,
}
use thassa.Chat.{trim_start}
use thassa.Pricing.{shares_for_spend}
use thassa.Order.{Side, yes_side, no_side}
use thassa.Order.Submit.{Stage, idle, signing, queued}

pub data Status : Type 0 where
  pending : Status
  open_market : Status
  matched : Status
  settling : Status
  settled : Status
  void_market : Status

abbrev pub tradable : Status → Bool
tradable pending = false
tradable open_market = true
tradable matched = true
tradable settling = true
tradable settled = false
tradable void_market = false

abbrev pub is_digit : ℕ → Bool
is_digit c = leb 48 c && leb c 57

-- The digits that a text starts with, read on from `n`.
unfoldable pub read_digits : ℕ → Text → ℕ
read_digits n [] = n
read_digits n (c ∷ t) = if is_digit c then read_digits (n * 10 + (c - 48)) t else n

unfoldable pub starts_with_digit : Text → Bool
starts_with_digit [] = false
starts_with_digit (c ∷ t) = is_digit c

abbrev pub magnitude : Text → Option ℕ
magnitude t = if starts_with_digit t then some (read_digits 0 t) else none

-- `parseInt(t, 10)`: whether there is a minus, and the number; none for NaN.
unfoldable pub parse_signed : Text → Option (Bool × ℕ)
unfolding read_digits starts_with_digit
parse_signed [] = none
parse_signed (c ∷ t) =
    if c == 45
    then elim (magnitude t) [ none ↦ none | some n ↦ some (true, n) ]
    else if c == 43
    then elim (magnitude t) [ none ↦ none | some n ↦ some (false, n) ]
    else elim (magnitude (c ∷ t)) [ none ↦ none | some n ↦ some (false, n) ]

-- From here on a number is rounded to infinity.
unfoldable pub infinite_from : ℕ
infinite_from = 2 ^ 1024 - 2 ^ 970

-- `parseInt(t, 10)` where `Number.isFinite` holds of it.
unfoldable pub parse_int : Text → Option (Bool × ℕ)
unfolding parse_signed
parse_int t = elim (parse_signed (trim_start t)) [
  | none ↦ none
  | some r ↦ if ltb r.1 infinite_from then some r else none
]

abbrev pub clamp_cents : ℕ → ℕ
clamp_cents n = min 99 (max 1 n)

-- A number with a minus is 0 or below.
abbrev pub clamp_signed : Bool × ℕ → ℕ
clamp_signed r = if r.0 then 1 else clamp_cents r.1

-- `price` of the mobile card.
unfoldable pub price_of : Text → ℕ → ℕ
price_of [] market_price = clamp_cents market_price
price_of (c ∷ t) market_price = elim (parse_int (c ∷ t)) [
  | none ↦ clamp_cents market_price
  | some r ↦ clamp_signed r
]

-- A price that is null counts as 0 in `Math.max`.
abbrev pub clamp_null : Option ℕ → ℕ
clamp_null none = clamp_cents 0
clamp_null (some n) = clamp_cents n

-- `price` of the web client's card and ticket, whose market may have none.
unfoldable pub web_price : Bool → Text → Option ℕ → ℕ
web_price advanced [] market_price = clamp_null market_price
web_price false (c ∷ t) market_price = clamp_null market_price
web_price true (c ∷ t) market_price = elim (parse_int (c ∷ t)) [
  | none ↦ clamp_null market_price
  | some r ↦ clamp_signed r
]

-- `under_way` counts the submissions that have not ended.
pub record Card : Type 0 where
  pub expanded : Bool
  pub side : Option Side
  pub amount : ℕ
  pub limit_input : Text
  pub stage : Stage
  pub error : Option Text
  pub details : Bool
  pub yes_price_cents : Option ℕ
  pub no_price_cents : Option ℕ
  pub status : Status
  pub under_way : ℕ

abbrev pub market_price : Card → ℕ
market_price s = elim s.side [
  | none ↦ or_else s.yes_price_cents 50
  | some yes_side ↦ or_else s.yes_price_cents 50
  | some no_side ↦ or_else s.no_price_cents 50
]

abbrev pub is_busy : Stage → Bool
is_busy idle = false
is_busy signing = true
is_busy queued = true

abbrev pub has_side : Option Side → Bool
has_side none = false
has_side (some side) = true

unfoldable pub can_submit : Card → Bool
can_submit s =
    tradable s.status
    && has_side s.side
    && ltb 0 (shares_for_spend s.amount (price_of s.limit_input (market_price s)))
    && not (is_busy s.stage)

unfoldable pub reset_trade : Card → Card
reset_trade s = record s { side = none; limit_input = []; stage = idle; error = none }

unfoldable pub toggle_expand : Card → Card
toggle_expand s =
    if s.expanded
    then record (reset_trade s) { details = false; expanded = false }
    else record s { expanded = true }

abbrev pub same_side : Side → Side → Bool
same_side yes_side yes_side = true
same_side yes_side no_side = false
same_side no_side yes_side = false
same_side no_side no_side = true

abbrev pub picked : Side → Option Side → Option Side
picked side none = some side
picked side (some cur) = if same_side cur side then none else some side

unfoldable pub pick : Side → Card → Card
pick side s =
    if tradable s.status
    then record s { stage = idle; error = none; side = picked side s.side; expanded = true }
    else s

-- `submit` up to the wallet.
unfoldable pub submit : Card → Card
submit s =
    if can_submit s
    then record s { error = none; stage = signing; under_way = suc s.under_way }
    else s

-- The signature is there.
unfoldable pub queue : ℕ → Card → Card
queue zero s = s
queue (suc n) s = record s { stage = queued }

unfoldable pub succeed : ℕ → Card → Card
succeed zero s = s
succeed (suc n) s = record (reset_trade s) { under_way = n }

unfoldable pub fail : Text → ℕ → Card → Card
fail message zero s = s
fail message (suc n) s = record s { error = some message; stage = idle; under_way = n }

pub data Event : Type 0 where
  picks : Side → Event
  toggles_expand : Event
  toggles_details : Event
  types_amount : ℕ → Event
  types_limit : Text → Event
  book_delta : Option ℕ → Option ℕ → Event
  market_update : Status → Event
  submits : Event
  signs : Event
  succeeds : Event
  fails : Text → Event

-- `p ?? q`.
abbrev pub newer : Option ℕ → Option ℕ → Option ℕ
newer none q = q
newer (some p) q = some p

unfoldable pub step : Event → Card → Card
step (picks side) s = pick side s
step toggles_expand s = toggle_expand s
step toggles_details s = record s { details = not s.details }
step (types_amount cents) s = record s { amount = cents }
step (types_limit t) s = record s { limit_input = t }
step (book_delta y n) s = record s {
  yes_price_cents = newer y s.yes_price_cents;
  no_price_cents = newer n s.no_price_cents;
}
step (market_update status) s = record s { status = status }
step submits s = submit s
step signs s = queue s.under_way s
step succeeds s = succeed s.under_way s
step (fails message) s = fail message s.under_way s

abbrev pub run : List Event → Card → Card
run [] s = s
run (e ∷ es) s = run es (step e s)
