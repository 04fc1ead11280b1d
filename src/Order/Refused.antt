-- ===== src/Order/Refused.antt =====
-- The order of the web client at the backend: its request has a member that the backend does not know.
use mathlib.Core.Path.{subst}
use thassa.Base.{ℕ, ◌≡◌, Text, [], ◌∷◌, codes, Option, none, arith}
use thassa.Json.{Json, obj, str, spread, nullable, fields, known}
use thassa.Api.{Outcome, returns, throws}
use thassa.Order.{OrderFields, TypedOrder, Config}
use thassa.Order.Trading.{
  ◌>>=◌, Signer, Signed, OrderTerms, signed_fields, sign_order_and_funding, place_order_body,
}
use thassa.Order.Gate.{decode_order}
use thassa.Order.Check.{Backend, handle_create_order}

-- What is returned is refused.
abbrev Refused : (Json → Option OrderFields) → Outcome Json → Type 0
Refused handle (throws e) = Unit {0}
Refused handle (returns body) = handle body ≡ none

module _ (hash_typed_data : TypedOrder → Text) (config : Config) (backend : Backend) where
  abbrev body_of : Text → Option Text → Signed → Json
  body_of market_id affiliate_post_id signed = obj (
      spread
        (fields (
          (codes "market_id", str market_id)
          ∷ (codes "affiliate_post_id", nullable affiliate_post_id)
          ∷ []))
        (signed_fields signed))

  returns-Refused :
      (market_id : Text) (affiliate_post_id : Option Text) (o : Outcome Signed)
      → Refused
          (handle_create_order hash_typed_data backend)
          (o >>= λ signed. returns (body_of market_id affiliate_post_id signed))
  unfolding handle_create_order decode_order known spread
  returns-Refused market_id affiliate_post_id (throws e) = tt
  returns-Refused market_id affiliate_post_id (returns signed) = ground arith

  -- No body of `placeOrder` is accepted, whatever the order, the wallet and the backend's settings.
  pub place_order_body-refused :
      (signer : Signer) (order_nonce : Outcome ℕ) (now : ℕ) (params : OrderTerms) (market_id : Text)
      (affiliate_post_id : Option Text) (body : Json)
      → place_order_body hash_typed_data config signer order_nonce now params market_id
          affiliate_post_id
        ≡ returns body
      → handle_create_order hash_typed_data backend body ≡ none
  unfolding place_order_body
  place_order_body-refused signer order_nonce now params market_id affiliate_post_id body e =
      subst (Refused (handle_create_order hash_typed_data backend)) e (
        returns-Refused market_id affiliate_post_id
          (sign_order_and_funding hash_typed_data config signer order_nonce now params))
