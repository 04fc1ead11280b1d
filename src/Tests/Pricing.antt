-- ===== src/Tests/Pricing.antt =====
-- Orders of ten shares at 62 cents in a token of six decimals, with two fills.
use thassa.Base.{◌≤◌, ◌<◌, ◌≡◌, refl, List, [], ◌∷◌, true, false, ◌↔◌, arith}
use thassa.Pricing.{unit, ceil_div, taker_fee_units, escrow_units}
use thassa.Pricing.Acceptance.{passes_max_cost-web, passes_max_cost-mobile}
use thassa.Pricing.Bounds.{max_cost-web-le-mobile}
use thassa.Pricing.Exchange.{Fill, passes_max_cost}
use thassa.Pricing.Mobile
use thassa.Pricing.Mobile.{pay_to_win}
use thassa.Pricing.Web

fee_at_62 : taker_fee_units 6 10 62 ≡ 164920
unfolding taker_fee_units ceil_div unit
fee_at_62 = refl

max_cost_at_62 : Web.max_cost_units 6 10 62 ≡ 6364920
unfolding Web.max_cost_units escrow_units taker_fee_units ceil_div unit
max_cost_at_62 = refl

max_cost_mobile_at_62 : Mobile.max_cost_units 6 10 62 ≡ 6375000
unfolding Mobile.max_cost_units escrow_units taker_fee_units ceil_div unit
max_cost_mobile_at_62 = refl

abbrev two_fills : List Fill
two_fills = record { shares = 4; exec_price = 55 } ∷ record { shares = 6; exec_price = 62 } ∷ []

max_cost-web-le-mobile_example : Web.max_cost_units 6 10 62 ≤ Mobile.max_cost_units 6 10 62
max_cost-web-le-mobile_example = max_cost-web-le-mobile 6 10 62 (omega arith)

passes_max_cost-web_example : passes_max_cost 6 62 10 (Web.max_cost_units 6 10 62) 6364920 ≡ false
passes_max_cost-web_example = passes_max_cost-web 6 10 62 6364920 (omega arith) (omega arith)

passes_max_cost-mobile_example :
    (passes_max_cost 6 50 10 (Mobile.max_cost_units 6 10 50) (Mobile.max_cost_units 6 10 50) ≡ true)
    ↔ (50 < 50)
passes_max_cost-mobile_example =
    passes_max_cost-mobile 6 10 50 (omega arith) (omega arith) (omega arith)
