-- ===== src/Create/Post.antt =====
-- `post` of the composer.
use thassa.Base.{ℕ, ltb, if◌then◌else◌, or_else, Text, codes, List, [], ◌∷◌, Option, none, some}
use thassa.Api.{Outcome, returns, throws, other_error}
use thassa.Api.Errors.{error_message}
use thassa.Pricing.Mobile.{max_cost_units}
use thassa.Mention.{DraftMention}
use thassa.Mention.Scan.{compute_mentions}
use thassa.Chat.{trim}
use thassa.Order.{TypedOrder, Config}
use thassa.Order.Mobile.{
  WalletHandle, BuiltOrder, Auth3009Payload, build_order, sign_receive_authorization,
}
use thassa.Create.{Kind, image, MediaItem}
use thassa.Create.Waiting.{all_settled}
use thassa.Create.Ids.{media_ids}
use thassa.Create.Attached.{
  finishing, signing, posting, error, candidate_settlement_query, Attachment, existing, new_market,
  side_of, price_of, shares_of, OrderPayload, PostBody, Made, Effect, stage, link_wallet, ask_nonce,
  prompt, create_market, publish, place_order, buzz_success, buzz_warn, toast, refresh_feed, reset,
  go_home, Action, pure, tell, await, ◌>>=◌, ◌>>◌, World,
}

-- The screen at the tap: `media`, and `waited` what `waitForUploads` returns. `current` is the media
-- when the post is put together.
pub record Screen : Type 0 where
  pub media : List MediaItem
  pub waited : List MediaItem
  pub current : List MediaItem
  pub caption : Text
  pub mention_drafts : List DraftMention
  pub attachment : Option Attachment

unfoldable pub items_of : Screen → List MediaItem
items_of s = if all_settled s.media then s.media else s.waited

-- `finalCaption || null`.
abbrev pub text_or_null : Text → Option Text
text_or_null [] = none
text_or_null (c ∷ t) = some (c ∷ t)

unfoldable pub kind_of : List MediaItem → Kind
kind_of [] = image
kind_of (m ∷ ms) = m.kind

unfoldable pub body_of : Screen → List Text → Option Text → PostBody
unfolding kind_of
body_of s ids market_id =
    let final_caption = trim s.caption in
    record {
      caption = text_or_null final_caption;
      kind = kind_of s.current;
      media_ids = ids;
      market_id = market_id;
      mentions = compute_mentions final_caption s.mention_drafts;
    }

abbrev pub success_toast : Option Attachment → Text
success_toast (some (new_market c side spend price)) = codes "Posted. Market is OPEN."
success_toast _ = codes "Posted"

unfoldable pub finish : Option Attachment → Action (Unit {0})
finish a = do
  tell buzz_success
  tell (toast (success_toast a))
  tell refresh_feed
  tell reset
  tell go_home

-- `setStage({ name: "finishing" })`, where uploads are in flight.
unfoldable pub wait_stage : Screen → Action (Unit {0})
wait_stage s log = (returns tt, if all_settled s.media then log else stage finishing ∷ log)

unfoldable pub settle : Outcome (Unit {0}) × List Effect → List Effect
settle (returns u, log) = log
settle (throws e, log) = stage (error (some (error_message e))) ∷ buzz_warn ∷ log

module _ (hash_typed_data : TypedOrder → Text) (config : Config) (w : World) where
  abbrev pub order_of : Attachment → ℕ → ℕ → WalletHandle → ℕ → BuiltOrder
  order_of a chain_market_id affiliate_id wallet order_nonce =
      build_order hash_typed_data config w.now wallet.address (record {
        chain_market_id = chain_market_id;
        side = side_of a;
        price_cents = price_of a;
        shares = shares_of a;
        max_cost = max_cost_units config.decimals (shares_of a) (price_of a);
        affiliate_post_id = some affiliate_id;
        expiry = none;
        nonce = order_nonce;
      })

  abbrev pub authorize : Attachment → WalletHandle → BuiltOrder → Outcome Auth3009Payload
  authorize a wallet order = sign_receive_authorization config w.signed_at w.random wallet (record {
    to = none;
    value = max_cost_units config.decimals (shares_of a) (price_of a);
    valid_seconds = none;
    token_name = none;
    token_version = none;
    token_address = none;
    nonce = some order.digest;
  })

  abbrev pub require_shares : Attachment → Outcome (Unit {0})
  require_shares a =
      if ltb 0 (shares_of a)
      then returns tt
      else throws (other_error (codes "bet amount too small"))

  -- `signOrderPayload`.
  unfoldable pub sign_order_payload : Attachment → ℕ → ℕ → Action OrderPayload
  sign_order_payload a chain_market_id affiliate_id = do
    wallet ← await w.wallet
    tell (link_wallet wallet.address)
    tell ask_nonce
    order_nonce ← await w.order_nonce
    await (require_shares a)
    let order = order_of a chain_market_id affiliate_id wallet order_nonce
    tell prompt
    auth ← await (authorize a wallet order)
    pure (record {
      side = side_of a;
      price_cents = price_of a;
      shares = shares_of a;
      max_cost = max_cost_units config.decimals (shares_of a) (price_of a);
      expiry = order.message.expiry;
      nonce = order_nonce;
      auth = auth;
    })

  -- The id of the market that the post carries. A new market is created first.
  unfoldable pub market_of : Option Attachment → Action (Option Text)
  unfolding candidate_settlement_query
  market_of none = pure none
  market_of (some (existing m side spend limit)) = pure (some m.id)
  market_of (some (new_market c side spend price)) = do
    tell (stage signing)
    initial_order ← sign_order_payload (new_market c side spend price) 0 0
    tell
        (create_market (or_else c.title []) c.question (candidate_settlement_query c) initial_order)
    id ← await w.market
    pure (some id)

  -- The bet on a market that is there, which carries the post.
  unfoldable pub bet : Option Attachment → Made → Action (Unit {0})
  bet none made = pure tt
  bet (some (new_market c side spend price)) made = pure tt
  bet (some (existing m side spend limit)) made = do
    tell (stage signing)
    order ←
        sign_order_payload (existing m side spend limit) m.chain_market_id
          (or_else made.affiliate_id 0)
    tell (stage posting)
    tell (
        place_order (record {
          market_id = m.id;
          order = order;
          affiliate_post_id = made.id;
          affiliate_id = made.affiliate_id;
        }))
    await w.placed

  -- From the publication of the post on, with its ids and its market.
  unfoldable pub publish_with : Screen → List Text → Option Text → Action (Unit {0})
  publish_with s ids market_id = do
    tell (stage posting)
    tell (publish (body_of s ids market_id))
    made ← await w.made
    bet s.attachment made
    finish s.attachment

  -- The body of the `try`, and `post`.
  unfoldable pub attempt : Screen → Action (Unit {0})
  attempt s = do
    wait_stage s
    ids ← await (media_ids (items_of s))
    market_id ← market_of s.attachment
    publish_with s ids market_id

  unfoldable pub post : Screen → List Effect
  post s = settle (attempt s [])
