-- ===== src/Tests/Card.antt =====
-- A ticket that is submitted twice.
use thassa.Base.{
  ◌≤◌, ◌≡◌, refl, if◌then◌else◌, true, false, codes, List, [], ◌∷◌, none, some, arith,
}
use thassa.Chat.{trim_start}
use thassa.Order.{yes_side, no_side}
use thassa.Order.Submit.{idle}
use thassa.Pricing.{shares_for_spend}
use thassa.Card.{
  Card, open_market, Event, picks, submits, signs, fails, price_of, web_price, clamp_cents,
  parse_int, infinite_from, parse_signed, read_digits, starts_with_digit, can_submit, pick, submit,
  queue, fail, step, run,
}
use thassa.Card.Prices.{mobile_market, price_of-web_price}
use thassa.Card.Single.{Single, run-Single}

abbrev card : Card
card = record {
  expanded = true;
  side = some yes_side;
  amount = 1000;
  limit_input = codes "40c";
  stage = idle;
  error = none;
  details = false;
  yes_price_cents = some 50;
  no_price_cents = none;
  status = open_market;
  under_way = 0;
}

abbrev impatient : List Event
impatient = submits ∷ submits ∷ signs ∷ submits ∷ fails (codes "no") ∷ submits ∷ []

once : (run impatient card).under_way ≡ 1
unfolding step submit can_submit shares_for_spend price_of parse_int infinite_from parse_signed
    read_digits starts_with_digit trim_start queue fail
once = refl

run-Single_example : Single (run impatient card)
run-Single_example =
    run-Single impatient card (refl, (refl, (refl, (refl, (refl, (refl, tt))))))
      (record { few = omega arith; busy = λ e. absurd (omega (arith, e)) })

-- The other side is picked while the first order is under way: a second goes out.
two_orders : (run (submits ∷ picks no_side ∷ submits ∷ []) card).under_way ≡ 2
unfolding step submit can_submit shares_for_spend price_of parse_int infinite_from parse_signed
    read_digits starts_with_digit trim_start pick
two_orders = refl

typed : price_of (codes "40c") 50 ≡ 40
unfolding price_of parse_int infinite_from parse_signed read_digits starts_with_digit trim_start
typed = refl

-- On a market without a price the two clients differ.
without_price : (price_of [] (mobile_market none) ≡ 50) × (web_price true [] none ≡ 1)
unfolding price_of web_price
without_price = (refl, refl)

price_of-web_price_example :
    (1 ≤ price_of (codes "-3") 50)
    × (price_of (codes "-3") 50 ≤ 99)
    × (1 ≤ web_price true (codes "-3") (some 50))
    × (web_price true (codes "-3") (some 50) ≤ 99)
    × (web_price true (codes "-3") (some 50)
        ≡ (if true then price_of (codes "-3") 50 else clamp_cents 50))
price_of-web_price_example = price_of-web_price true (codes "-3") (some 50)
