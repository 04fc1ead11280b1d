-- ===== src/Order/Decode.antt =====
-- The backend reads what the tickets send.
use thassa.Base.{ℕ, ◌<◌, ◌≡◌, refl, lt→ltb, Text, Option, none, some}
use thassa.Json.{null, str, field, known, nullable}
use thassa.Format.Money.{decimal}
use thassa.Order.{side_name}
use thassa.Order.Mobile.{Auth3009Payload}
use thassa.Order.Submit.{Ticket, price_of, shares_of, auth_fields, order_payload}
use thassa.Order.Gate.{
  AuthPayload, OrderPayload, text_value, number_value, pointer_value, object_value, decode_auth,
  decode_pointer, decode_order, decode_body,
}

abbrev pub number_text : Option ℕ → Option Text
number_text none = none
number_text (some a) = some (decimal a)

pointer_value-nullable : (o : Option Text) → pointer_value (nullable o) ≡ some o
unfolding pointer_value
pointer_value-nullable none = refl
pointer_value-nullable (some t) = refl

pointer_value-number :
    (o : Option ℕ)
    → pointer_value (elim o [ none ↦ null | some a ↦ str (decimal a) ]) ≡ some (number_text o)
unfolding pointer_value
pointer_value-number none = refl
pointer_value-number (some a) = refl

pub decode_auth-auth_fields :
    (from to : Text) (value valid_after valid_before : ℕ) (nonce : Text) (v : ℕ) (r s : Text)
    → v < 256
    → decode_auth (
        auth_fields (record {
          from = from;
          to = to;
          value = value;
          valid_after = valid_after;
          valid_before = valid_before;
          nonce = nonce;
          v = some v;
          r = r;
          s = s;
        }))
      ≡ some (record {
        from = from;
        to = to;
        value = value;
        valid_after = valid_after;
        valid_before = valid_before;
        nonce = nonce;
        v = v;
        r = r;
        s = s;
      })
unfolding decode_auth text_value number_value field known
decode_auth-auth_fields from to value valid_after valid_before nonce v r s l =
    rw (lt→ltb v 256 l) refl

-- What the payload of a ticket decodes to.
abbrev pub decoded : Ticket → ℕ → ℕ → ℕ → AuthPayload → OrderPayload
decoded t max_cost expiry nonce auth = record {
  market_id = t.market.id;
  side = side_name t.side;
  price_cents = price_of t;
  shares = shares_of t;
  max_cost = max_cost;
  affiliate_post_id = t.affiliate_post_id;
  affiliate_id = number_text t.affiliate_id;
  expiry = expiry;
  nonce = nonce;
  auth = some auth;
}

pub decode_body-order_payload :
    (t : Ticket) (max_cost expiry nonce : ℕ) (auth : Auth3009Payload) (a : AuthPayload)
    → decode_auth (auth_fields auth) ≡ some a
    → decode_body (order_payload t max_cost expiry nonce auth)
      ≡ some (decoded t max_cost expiry nonce a)
unfolding order_payload decode_order decode_pointer text_value number_value object_value field known
decode_body-order_payload t max_cost expiry nonce auth a h =
    rw (pointer_value-nullable t.affiliate_post_id, pointer_value-number t.affiliate_id, h) refl
