-- ===== src/Order/Sound.antt =====
-- What the gate of the backend lets through.
use mathlib.Core.Path.{subst}
use thassa.Base.{
  ℕ, ◌-◌, ◌*◌, ◌/◌, ◌%◌, ◌<◌, ◌≤◌, ◌≡◌, refl, ap, ◌==◌, ltb, leb, not, ◌&&◌, Bool, true, false,
  lower, map, Text, text_eq_refl, List, [], ◌∷◌, ◌++◌, none, some, All, length, arith,
}
use native.Mathlib.Nat.{mul-pos}
use thassa.Format.MoneyLaws.{unit_positive}
use thassa.Order.Web.{build_order_typed_data}
use thassa.Pricing.{unit, ceil_div, taker_fee_units}
use thassa.Order.{Side, side_num, side_name, OrderFields, TypedOrder}
use thassa.Order.Hex.{prefix, hex_digit, hex_bytes}
use thassa.Order.Signature.{length-hex_bytes, digit_of-hex_digit}
use thassa.Order.Check.{
  Backend, is_hash32, all_hex, is_digit, same_address, side_of, estimate_max_cost, check_auth,
  check_order,
}
use thassa.Order.Gate.{AuthPayload}

-- Bytes, each below 256.
abbrev pub Bytes : List ℕ → Type 0
Bytes = All (λ b. b < 256)

is_digit-hex_digit : (d : ℕ) → d < 16 → is_digit (hex_digit d) ≡ true
unfolding is_digit
is_digit-hex_digit d l = ap (λ o. elim o [ none ↦ false | some e ↦ true ]) (digit_of-hex_digit d l)

all_hex-hex_bytes : (bs : List ℕ) → Bytes bs → all_hex (hex_bytes bs) ≡ true
unfolding hex_bytes
all_hex-hex_bytes [] l = refl
all_hex-hex_bytes (b ∷ bs) (l, ls) =
    rw
      (
        is_digit-hex_digit (b / 16) (omega arith),
        is_digit-hex_digit (b % 16) (omega arith),
        all_hex-hex_bytes bs ls,
      )
      refl

pub is_hash32-hex_bytes :
    (bs : List ℕ) → length bs ≡ 32 → Bytes bs → is_hash32 (prefix ++ hex_bytes bs) ≡ true
unfolding is_hash32
is_hash32-hex_bytes bs n l = rw (length-hex_bytes bs, n, all_hex-hex_bytes bs l) refl

pub same_address_refl : (a : Text) → same_address a a ≡ true
same_address_refl a = text_eq_refl (map lower a)

pub side_of-side_name : (s : Side) → side_of (side_name s) ≡ some (side_num s)
unfolding side_of
side_of-side_name Side.yes_side = refl
side_of-side_name Side.no_side = refl

-- `a && b` with both.
and_true : {a b : Bool} → a ≡ true → b ≡ true → (a && b) ≡ true
and_true h k = rw (h, k) refl

pub fee_positive : (d s p : ℕ) → 0 < s → 1 ≤ p → p ≤ 99 → 0 < taker_fee_units d s p
unfolding taker_fee_units ceil_div
fee_positive d s p h k l = omega (arith, product)
  where
    product : 0 < 700 * s * p * (100 - p) * unit d
    product =
        mul-pos (mul-pos (mul-pos (mul-pos (omega arith) h) (omega (arith, k))) (omega (arith, l)))
          (unit_positive d)

-- An order and its funding that the gate lets through.
pub record Sound (backend : Backend) (hash_typed_data : TypedOrder → Text) (o : OrderFields)
    (a : AuthPayload) : Type 0 where
  pub low : 1 ≤ o.price
  pub high : o.price ≤ 99
  pub some_shares : 0 < o.shares
  pub open_order : backend.now < o.expiry
  pub enough : estimate_max_cost backend.config.decimals o.shares o.price ≤ o.max_cost
  pub funded : a.value ≡ o.max_cost
  pub limited : (ltb 0 backend.max_order_cost && ltb backend.max_order_cost o.max_cost) ≡ false
  pub to : a.to ≡ backend.config.markets_contract
  pub from : a.from ≡ o.maker
  pub positive : 0 < o.max_cost
  pub started : a.valid_after ≡ 0
  pub open_auth : backend.now < a.valid_before
  pub bound : a.nonce ≡ hash_typed_data (build_order_typed_data backend.config o)

-- Texts that are equal are the same address.
pub same_of : (a b : Text) → a ≡ b → same_address a b ≡ true
same_of a b e = subst (λ t. same_address a t ≡ true) e (same_address_refl a)

expiring : (b : Bool) → not (not b && false) ≡ true
expiring true = refl
expiring false = refl

check_auth-Sound :
    (b : Backend) (h : TypedOrder → Text) (o : OrderFields) (a : AuthPayload)
    → Sound b h o a
    → check_auth b a o.maker ≡ true
unfolding check_auth
check_auth-Sound b h o a s =
    rw
      (
        same_of a.to b.config.markets_contract s.to,
        same_of a.from o.maker s.from,
        s.funded,
        s.limited,
        s.started,
        value,
        after,
        before,
      )
      (expiring (a.valid_before == 0))
  where
    value : leb o.max_cost 0 ≡ false
    value = let p = s.positive in ground (arith, p)

    after : ltb b.now 0 ≡ false
    after = ground arith

    before : leb a.valid_before b.now ≡ false
    before = let p = s.open_auth in ground (arith, p)

pub check_order-Sound :
    (b : Backend) (h : TypedOrder → Text) (o : OrderFields) (a : AuthPayload)
    → Sound b h o a
    → check_order h b o a ≡ true
unfolding check_order build_order_typed_data
check_order-Sound b h o a s =
    rw
      (
        low,
        high,
        shares,
        before,
        enough,
        s.limited,
        check_auth-Sound b h o a s,
        s.funded,
        enough,
        same_of a.nonce _ s.bound,
      )
      (expiring' (o.expiry == 0))
  where
    low : leb 1 o.price ≡ true
    low = let p = s.low in ground (arith, p)

    high : leb o.price 99 ≡ true
    high = let p = s.high in ground (arith, p)

    shares : ltb 0 o.shares ≡ true
    shares = let p = s.some_shares in ground (arith, p)

    before : leb o.expiry b.now ≡ false
    before = let p = s.open_order in ground (arith, p)

    enough : ltb o.max_cost (estimate_max_cost b.config.decimals o.shares o.price) ≡ false
    enough = let p = s.enough in ground (arith, p)

    expiring' : (c : Bool) → (not (not c && false) && true && true && true && true && true) ≡ true
    expiring' true = refl
    expiring' false = refl
