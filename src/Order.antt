-- ===== src/Order.antt =====
-- Orders as both clients sign them: mobile/lib/signing.ts and web/lib/signing.ts, from the typed data
-- on, and what backend/internal/api makes of the requests. Hashes and signatures are parameters.
pub mod Hex
pub mod Mobile
pub mod Web
pub mod Trading
pub mod Submit
pub mod Gate
pub mod Decode
pub mod Check
pub mod Signature
pub mod Sound
pub mod Accepted
pub mod Refused
pub mod Ended
use thassa.Base.{ℕ, Bool, Text, codes, List, [], ◌∷◌, Option}

pub data Side : Type 0 where
  yes_side : Side
  no_side : Side

abbrev pub side_num : Side → ℕ
side_num yes_side = 0
side_num no_side = 1

abbrev pub side_name : Side → Text
side_name yes_side = codes "yes"
side_name no_side = codes "no"

pub record Domain : Type 0 where
  pub name : Text
  pub version : Text
  pub chain_id : ℕ
  pub verifying_contract : Text

-- A member of a struct type: its name and its type.
abbrev pub Member : Type 0
Member = Text × Text

pub record OrderFields : Type 0 where
  pub market_id : ℕ
  pub side : ℕ
  pub price : ℕ
  pub shares : ℕ
  pub max_cost : ℕ
  pub affiliate_post_id : ℕ
  pub expiry : ℕ
  pub nonce : ℕ
  pub maker : Text

-- What is handed to `hashTypedData`.
pub record TypedOrder : Type 0 where
  pub domain : Domain
  pub types : List Member
  pub primary_type : Text
  pub message : OrderFields

-- What the builds are configured with.
pub record Config : Type 0 where
  pub chain_id : ℕ
  pub markets_contract : Text
  pub payment_token : Text
  pub token_name : Text
  pub token_version : Text
  pub decimals : ℕ
