-- ===== src/Order/Mobile.antt =====
-- mobile/lib/signing.ts: `buildOrder` and `signReceiveAuthorization`. `Number` is taken on amounts below
-- 2 ^ 53, which it does not round.
use thassa.Base.{ℕ, ◌+◌, ◌-◌, ◌*◌, ◌/◌, or_else, Text, codes, List, [], ◌∷◌, Option}
use thassa.Api.{Outcome, returns, throws}
use thassa.Format.Money.{decimal}
use thassa.Order.{Side, side_num, Domain, Member, TypedOrder, Config}
use thassa.Order.Hex.{Parts, split_signature, random_bytes}

abbrev pub order_domain : Config → Domain
order_domain config = record {
  name = codes "ThassaMarkets";
  version = codes "1";
  chain_id = config.chain_id;
  verifying_contract = config.markets_contract;
}

abbrev pub order_types : List Member
order_types =
    (codes "marketId", codes "uint256")
    ∷ (codes "side", codes "uint8")
    ∷ (codes "price", codes "uint8")
    ∷ (codes "shares", codes "uint80")
    ∷ (codes "maxCost", codes "uint256")
    ∷ (codes "affiliatePostId", codes "uint256")
    ∷ (codes "expiry", codes "uint64")
    ∷ (codes "nonce", codes "uint256")
    ∷ (codes "maker", codes "address")
    ∷ []

pub record OrderParams : Type 0 where
  pub chain_market_id : ℕ
  pub side : Side
  pub price_cents : ℕ
  pub shares : ℕ
  pub max_cost : ℕ
  pub affiliate_post_id : Option ℕ
  pub expiry : Option ℕ
  pub nonce : ℕ

pub record OrderMessage : Type 0 where
  pub market_id : Text
  pub side : ℕ
  pub price : ℕ
  pub shares : Text
  pub max_cost : Text
  pub affiliate_post_id : Text
  pub expiry : ℕ
  pub nonce : Text
  pub maker : Text

pub record BuiltOrder : Type 0 where
  pub message : OrderMessage
  pub digest : Text

-- `now` is `Date.now()`, in milliseconds.
unfoldable pub expiry_of : ℕ → Option ℕ → ℕ
expiry_of now expiry = or_else expiry (now / 1000 + 600)

unfoldable pub build_order : (TypedOrder → Text) → Config → ℕ → Text → OrderParams → BuiltOrder
build_order hash_typed_data config now maker o =
    let expiry = expiry_of now o.expiry in
    record {
      message = record {
        market_id = decimal o.chain_market_id;
        side = side_num o.side;
        price = o.price_cents;
        shares = decimal o.shares;
        max_cost = decimal o.max_cost;
        affiliate_post_id = decimal (or_else o.affiliate_post_id 0);
        expiry = expiry;
        nonce = decimal o.nonce;
        maker = maker;
      };
      digest = hash_typed_data (record {
        domain = order_domain config;
        types = order_types;
        primary_type = codes "Order";
        message = record {
          market_id = o.chain_market_id;
          side = side_num o.side;
          price = o.price_cents;
          shares = o.shares;
          max_cost = o.max_cost;
          affiliate_post_id = or_else o.affiliate_post_id 0;
          expiry = expiry;
          nonce = o.nonce;
          maker = maker;
        };
      });
    }

-- The two struct types of the authorization.
abbrev pub receive_auth_types : List Member × List Member
receive_auth_types = (
  (codes "name", codes "string")
      ∷ (codes "version", codes "string")
      ∷ (codes "chainId", codes "uint256")
      ∷ (codes "verifyingContract", codes "address")
      ∷ [],
  (codes "from", codes "address")
      ∷ (codes "to", codes "address")
      ∷ (codes "value", codes "uint256")
      ∷ (codes "validAfter", codes "uint256")
      ∷ (codes "validBefore", codes "uint256")
      ∷ (codes "nonce", codes "bytes32")
      ∷ [],
)

pub record AuthMessage : Type 0 where
  pub from : Text
  pub to : Text
  pub value : Text
  pub valid_after : ℕ
  pub valid_before : ℕ
  pub nonce : Text

pub record TypedAuth : Type 0 where
  pub domain : Domain
  pub types : List Member × List Member
  pub primary_type : Text
  pub message : AuthMessage

-- `request` is `eth_signTypedData_v4` of the wallet's provider.
pub record WalletHandle : Type 0 where
  pub address : Text
  pub request : TypedAuth → Outcome Text

pub record AuthOptions : Type 0 where
  pub to : Option Text
  pub value : ℕ
  pub valid_seconds : Option ℕ
  pub token_name : Option Text
  pub token_version : Option Text
  pub token_address : Option Text
  pub nonce : Option Text

pub record Auth3009Payload : Type 0 where
  pub from : Text
  pub to : Text
  pub value : ℕ
  pub valid_after : ℕ
  pub valid_before : ℕ
  pub nonce : Text
  pub v : Option ℕ
  pub r : Text
  pub s : Text

-- `Number(text)` on the digits that `toString` made.
unfoldable pub number_from : ℕ → Text → ℕ
number_from n [] = n
number_from n (c ∷ s) = number_from (n * 10 + (c - 48)) s

abbrev pub auth_message : Config → ℕ → List ℕ → Text → AuthOptions → AuthMessage
auth_message config now random address opts = record {
  from = address;
  to = or_else opts.to config.markets_contract;
  value = decimal opts.value;
  valid_after = 0;
  valid_before = now / 1000 + or_else opts.valid_seconds 3600;
  nonce = or_else opts.nonce (random_bytes random);
}

abbrev pub auth_domain : Config → AuthOptions → Domain
auth_domain config opts = record {
  name = or_else opts.token_name (codes "MockUSD");
  version = or_else opts.token_version (codes "1");
  chain_id = config.chain_id;
  verifying_contract = or_else opts.token_address config.payment_token;
}

abbrev pub auth_payload : AuthMessage → Parts → Auth3009Payload
auth_payload message parts = record {
  from = message.from;
  to = message.to;
  value = number_from 0 message.value;
  valid_after = message.valid_after;
  valid_before = message.valid_before;
  nonce = message.nonce;
  v = parts.v;
  r = parts.r;
  s = parts.s;
}

-- What the wallet is asked to sign.
abbrev pub typed_auth : Config → AuthMessage → AuthOptions → TypedAuth
typed_auth config message opts = record {
  domain = auth_domain config opts;
  types = receive_auth_types;
  primary_type = codes "ReceiveWithAuthorization";
  message = message;
}

-- With the bytes that `randomBytes32` draws where the options have no nonce.
unfoldable pub sign_receive_authorization :
    Config → ℕ → List ℕ → WalletHandle → AuthOptions → Outcome Auth3009Payload
sign_receive_authorization config now random handle opts =
    let message = auth_message config now random handle.address opts in
    elim (handle.request (typed_auth config message opts)) [
      | throws e ↦ throws e
      | returns signature ↦ returns (auth_payload message (split_signature signature))
    ]
