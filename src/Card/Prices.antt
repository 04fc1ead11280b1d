-- ===== src/Card/Prices.antt =====
-- The price of the card.
use thassa.Base.{
  ℕ, ◌≤◌, ◌≡◌, or_else, if◌then◌else◌, Bool, true, false, Text, [], ◌∷◌, Option, none, some, arith,
}
use thassa.Card.{price_of, web_price, clamp_cents}

-- The market price that each client computes with.
abbrev pub web_market : Option ℕ → ℕ
web_market p = or_else p 0

abbrev pub mobile_market : Option ℕ → ℕ
mobile_market p = or_else p 50

-- Whatever is typed, and whether the market has a price or not, the price of both clients is from 1 to
-- 99 cents. The web client with its advanced part open computes as the mobile client does, and with
-- it shut takes the market's price; but where the market has none, it goes on with 0 and the mobile
-- client with 50.
pub price_of-web_price :
    (advanced : Bool) (t : Text) (market_price : Option ℕ)
    → (1 ≤ price_of t (mobile_market market_price))
      × (price_of t (mobile_market market_price) ≤ 99)
      × (1 ≤ web_price advanced t market_price)
      × (web_price advanced t market_price ≤ 99)
      × (web_price advanced t market_price ≡ (
          if advanced
          then price_of t (web_market market_price)
          else clamp_cents (web_market market_price)))
unfolding price_of web_price
price_of-web_price advanced [] none = ground arith
price_of-web_price advanced [] (some m) = ground arith
price_of-web_price true (c ∷ t) none = ground arith
price_of-web_price true (c ∷ t) (some m) = ground arith
price_of-web_price false (c ∷ t) none = ground arith
price_of-web_price false (c ∷ t) (some m) = ground arith
