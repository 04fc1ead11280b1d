-- ===== src/Tests/Order.antt =====
-- A ticket of twenty shares at 50 cents, its way to the backend, and an order of the web client.
use mathlib.Core.List.{Memᴰ}
use thassa.Base.{
  ℕ, suc, zero, ◌≡◌, refl, true, false, ltb, ◌&&◌, Text, codes, List, [], ◌∷◌, ◌++◌, none, some,
  length, arith, ◌==◌, if◌then◌else◌,
}
use thassa.Json.{Json, null, str, obj, fields, spread}
use thassa.Api.{returns, throws, network_error}
use thassa.Flow.{request}
use thassa.Pricing.{shares_for_spend, taker_fee_units, escrow_units, ceil_div, unit}
use thassa.Pricing.Mobile.{max_cost_units}
use thassa.Order.{TypedOrder, Config, yes_side}
use thassa.Order.Hex.{prefix, hex_bytes}
use thassa.Order.Web
use thassa.Order.Trading
use thassa.Order.Trading.{Signer, OrderTerms, place_order_body, sign_order_and_funding}
use thassa.Order.Check.{
  affiliate_of, market_number, accepts_orders, Backend, is_hash32, handle_create_order,
}
use thassa.Order.Sound.{Bytes, is_hash32-hex_bytes}
use thassa.Order.Submit.{Ticket, idle, shares_of, submit}
use thassa.Order.Accepted.{Fits, Signs, order_of, world, submit-handle_create_order}
use thassa.Order.Ended.{Ended, submit-Ended}
use thassa.Order.Refused.{place_order_body-refused}

abbrev ones : ℕ → List ℕ
ones zero = []
ones (suc n) = 1 ∷ ones n

ones-Bytes : (n : ℕ) → Bytes (ones n)
ones-Bytes zero = tt
ones-Bytes (suc n) = (omega arith, ones-Bytes n)

abbrev config : Config
config = record {
  chain_id = 8453;
  markets_contract = codes "0xAb";
  payment_token = codes "0xCd";
  token_name = codes "USD";
  token_version = codes "2";
  decimals = 6;
}

abbrev market_id : Text
market_id = codes "5f0c4f6e-2f6b-4d7e-9a6c-0d5b8f3a1c27"

abbrev backend : Backend
backend = record {
  linked = codes "0xEf";
  config = config;
  uuid_number = λ t. if length t == 36 then some 1 else none;
  chain_ready = true;
  market_chain_id = λ n. some (some 7, codes "OPEN");
  post_exists = λ n. true;
  within_rate = true;
  max_order_cost = 100000000;
  now = 1800000001;
}

abbrev hash : TypedOrder → Text
hash o = prefix ++ hex_bytes (ones 32)

hash-hash32 : (o : TypedOrder) → is_hash32 (hash o) ≡ true
hash-hash32 o = is_hash32-hex_bytes (ones 32) refl (ones-Bytes 32)

abbrev signs : Signs
signs = record {
  r = λ m. ones 32;
  s = λ m. ones 32;
  v = λ m. 1;
  r_length = λ m. refl;
  s_length = λ m. refl;
  r_bytes = λ m. ones-Bytes 32;
  s_bytes = λ m. ones-Bytes 32;
  v_byte = λ m. omega arith;
}

abbrev ticket : Ticket
ticket = record {
  market = record {
    id = market_id;
    chain_market_id = 7;
    yes_price_cents = some 50;
    no_price_cents = none;
  };
  affiliate_post_id = none;
  affiliate_id = none;
  side = yes_side;
  amount = 1000;
  limit_override = none;
  stage = idle;
}

shares : shares_of ticket ≡ 20
unfolding shares_for_spend
shares = refl

limited : (ltb 0 100000000 && ltb 100000000 (max_cost_units 6 (shares_of ticket) 50)) ≡ false
unfolding shares_for_spend max_cost_units escrow_units taker_fee_units ceil_div unit
limited = refl

fits : Fits backend ticket
unfolding affiliate_of market_number accepts_orders
fits = record {
  ready = refl;
  market = refl;
  low = omega arith;
  high = omega arith;
  some_shares = omega (arith, shares);
  linked = refl;
  rate = refl;
  limited = limited;
  post = refl;
}

submit-handle_create_order_example :
    (body : Json) × Memᴰ
      (request (codes "POST") (codes "/v1/orders") (some body))
      (submit hash config
        (world hash backend signs ticket 1800000000000 1800000000000 3 []
          (throws network_error)
          (returns tt))
        ticket
        []).1
    × (handle_create_order hash backend body ≡ some (order_of backend ticket 1800000000000 3))
submit-handle_create_order_example =
    submit-handle_create_order hash backend signs ticket 1800000000000 1800000000000 3 []
      (throws network_error) (returns tt) fits hash-hash32 (omega arith) (omega arith)

abbrev terms : OrderTerms
terms = record {
  chain_market_id = 7;
  side = yes_side;
  price_cents = 50;
  shares = 20;
  affiliate_id = 0;
}

abbrev signer : Signer
signer = record { address = some (codes "0xEf"); sign_typed_data = λ m. returns (codes "0x") }

abbrev web_body : Json
web_body = obj (
    spread (fields ((codes "market_id", str market_id) ∷ (codes "affiliate_post_id", null) ∷ [])) (
      Trading.signed_fields (record {
        order =
            Web.serialize_order hash config
              (Trading.order_of hash config 1800000000 (codes "0xEf") 3 terms);
        auth =
            Web.serialize_auth
              (Trading.funding_of hash config 1800000000
                (Trading.order_of hash config 1800000000 (codes "0xEf") 3 terms))
              (codes "0x");
      })))

web_returns :
    place_order_body hash config signer (returns 3) 1800000000 terms market_id none
    ≡ returns web_body
unfolding place_order_body sign_order_and_funding
web_returns = refl

place_order_body-refused_example : handle_create_order hash backend web_body ≡ none
place_order_body-refused_example =
    place_order_body-refused hash config backend signer (returns 3) 1800000000 terms market_id none
      web_body web_returns

submit-Ended_example : Ended (
    submit hash config
      (world hash backend signs ticket 1800000000000 1800000000000 3 []
        (throws network_error)
        (throws network_error))
      ticket
      [])
submit-Ended_example =
    submit-Ended hash config
      (world hash backend signs ticket 1800000000000 1800000000000 3 [] (throws network_error)
        (throws network_error))
      ticket []
