-- ===== src/Order/Web.antt =====
-- web/lib/signing.ts, from the typed payloads on.
use thassa.Base.{ℕ, Text, codes, List, [], ◌∷◌}
use thassa.Format.Money.{decimal}
use thassa.Json.{Fields, fields, str, num}
use thassa.Order.{Domain, Member, OrderFields, TypedOrder, Config}

abbrev pub order_types : List Member
order_types =
    (codes "marketId", codes "uint256")
    ∷ (codes "side", codes "uint8")
    ∷ (codes "price", codes "uint8")
    ∷ (codes "shares", codes "uint80")
    ∷ (codes "maxCost", codes "uint256")
    ∷ (codes "affiliatePostId", codes "uint256")
    ∷ (codes "expiry", codes "uint64")
    ∷ (codes "nonce", codes "uint256")
    ∷ (codes "maker", codes "address")
    ∷ []

abbrev pub authorization_members : List Member
authorization_members =
    (codes "from", codes "address")
    ∷ (codes "to", codes "address")
    ∷ (codes "value", codes "uint256")
    ∷ (codes "validAfter", codes "uint256")
    ∷ (codes "validBefore", codes "uint256")
    ∷ (codes "nonce", codes "bytes32")
    ∷ []

abbrev pub markets_domain : Config → Domain
markets_domain config = record {
  name = codes "ThassaMarkets";
  version = codes "1";
  chain_id = config.chain_id;
  verifying_contract = config.markets_contract;
}

abbrev pub payment_token_domain : Config → Domain
payment_token_domain config = record {
  name = config.token_name;
  version = config.token_version;
  chain_id = config.chain_id;
  verifying_contract = config.payment_token;
}

unfoldable pub build_order_typed_data : Config → OrderFields → TypedOrder
build_order_typed_data config order = record {
  domain = markets_domain config;
  types = order_types;
  primary_type = codes "Order";
  message = order;
}

unfoldable pub order_digest : (TypedOrder → Text) → Config → OrderFields → Text
order_digest hash_typed_data config order = hash_typed_data (record {
  domain = markets_domain config;
  types = order_types;
  primary_type = codes "Order";
  message = order;
})

pub record Auth3009Fields : Type 0 where
  pub from : Text
  pub to : Text
  pub value : ℕ
  pub valid_after : ℕ
  pub valid_before : ℕ
  pub nonce : Text

pub record TypedAuth : Type 0 where
  pub domain : Domain
  pub types : List Member
  pub primary_type : Text
  pub message : Auth3009Fields

unfoldable pub build_receive_auth_typed_data : Config → Auth3009Fields → TypedAuth
build_receive_auth_typed_data config auth = record {
  domain = payment_token_domain config;
  types = authorization_members;
  primary_type = codes "ReceiveWithAuthorization";
  message = auth;
}

unfoldable pub build_transfer_auth_typed_data : Config → Auth3009Fields → TypedAuth
build_transfer_auth_typed_data config auth = record {
  domain = payment_token_domain config;
  types = authorization_members;
  primary_type = codes "TransferWithAuthorization";
  message = auth;
}

-- JSON objects of the requests.
unfoldable pub serialize_order : (TypedOrder → Text) → Config → OrderFields → Fields
serialize_order hash_typed_data config order = fields (
    (codes "market_id", str (decimal order.market_id))
    ∷ (codes "side", num order.side)
    ∷ (codes "price", num order.price)
    ∷ (codes "shares", str (decimal order.shares))
    ∷ (codes "max_cost", str (decimal order.max_cost))
    ∷ (codes "affiliate_post_id", str (decimal order.affiliate_post_id))
    ∷ (codes "expiry", num order.expiry)
    ∷ (codes "nonce", str (decimal order.nonce))
    ∷ (codes "maker", str order.maker)
    ∷ (codes "digest", str (order_digest hash_typed_data config order))
    ∷ [])

unfoldable pub serialize_auth : Auth3009Fields → Text → Fields
serialize_auth auth signature = fields (
    (codes "from", str auth.from)
    ∷ (codes "to", str auth.to)
    ∷ (codes "value", str (decimal auth.value))
    ∷ (codes "valid_after", num auth.valid_after)
    ∷ (codes "valid_before", num auth.valid_before)
    ∷ (codes "auth_nonce", str auth.nonce)
    ∷ (codes "signature", str signature)
    ∷ [])
