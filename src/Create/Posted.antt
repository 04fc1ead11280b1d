-- ===== src/Create/Posted.antt =====
-- When a post is out, and when the composer says so.
use thassa.Base.{
  ℕ, ltb, ◌≡◌, ◌∙◌, refl, ◌&&◌, ◌||◌, if◌then◌else◌, or_else, Bool, true, false, Text, List, [],
  ◌∷◌, Option, none, some, arith,
}
use thassa.Api.{Outcome, returns, throws}
use thassa.Order.{TypedOrder, Config}
use thassa.Create.Waiting.{all_settled}
use thassa.Create.Ids.{media_ids}
use thassa.Create.Attached.{
  finishing, signing, posting, Attachment, existing, new_market, shares_of, Made, Effect, stage,
  publish, reset, ◌>>=◌, World,
}
use thassa.Create.Post.{
  Screen, body_of, order_of, authorize, items_of, sign_order_payload, market_of, bet, finish,
  wait_stage, attempt, publish_with, settle, post,
}

abbrev pub is_returns : {A : Type 0} → Outcome A → Bool
is_returns (returns a) = true
is_returns (throws e) = false

-- Whether the post was sent to the backend, and whether the composer was emptied.
abbrev pub published : List Effect → Bool
published [] = false
published (publish b ∷ log) = true
published (_ ∷ log) = published log

abbrev pub is_reset : List Effect → Bool
is_reset [] = false
is_reset (reset ∷ log) = true
is_reset (_ ∷ log) = is_reset log

module _ (hash_typed_data : TypedOrder → Text) (config : Config) (w : World) where
  -- The order can be signed: there is a wallet and a nonce, the amount buys a share, and the wallet
  -- signs.
  abbrev pub can_sign : Attachment → ℕ → ℕ → Bool
  can_sign a chain_market_id affiliate_id = elim w.wallet [
    | throws e ↦ false
    | returns wallet ↦ elim w.order_nonce [
      | throws e ↦ false
      | returns nonce ↦
          ltb 0 (shares_of a)
          && is_returns (
              authorize hash_typed_data config w a wallet
                (order_of hash_typed_data config w a chain_market_id affiliate_id wallet nonce))
    ]
  ]

  sign_lem :
      (a : Attachment) (c f : ℕ) (log : List Effect)
      → let r = sign_order_payload hash_typed_data config w a c f log in
        (is_returns r.0 ≡ can_sign a c f)
        × (published r.1 ≡ published log)
        × (is_reset r.1 ≡ is_reset log)
  unfolding sign_order_payload
  sign_lem a c f log = ground arith

  -- A market that is new is created, with its first order.
  abbrev pub can_create : Option Attachment → Bool
  can_create none = true
  can_create (some (existing m side spend limit)) = true
  can_create (some (new_market c side spend price)) =
      can_sign (new_market c side spend price) 0 0 && is_returns w.market

  -- The bet on a market that was there is placed, for the post.
  abbrev pub can_bet : Option Attachment → Made → Bool
  can_bet none made = true
  can_bet (some (new_market c side spend price)) made = true
  can_bet (some (existing m side spend limit)) made =
      can_sign (existing m side spend limit) m.chain_market_id (or_else made.affiliate_id 0)
      && is_returns w.placed

  market_of_lem :
      (a : Option Attachment) (log : List Effect)
      → let r = market_of hash_typed_data config w a log in
        (is_returns r.0 ≡ can_create a)
        × (published r.1 ≡ published log)
        × (is_reset r.1 ≡ is_reset log)
  unfolding market_of
  market_of_lem none log = (refl, refl, refl)
  market_of_lem (some (existing m side spend limit)) log = (refl, refl, refl)
  market_of_lem (some (new_market c side spend price)) log =
      ground (arith, sign_lem (new_market c side spend price) 0 0 (stage signing ∷ log))

  bet_lem :
      (a : Option Attachment) (made : Made) (log : List Effect)
      → let r = bet hash_typed_data config w a made log in
        (is_returns r.0 ≡ can_bet a made)
        × (published r.1 ≡ published log)
        × (is_reset r.1 ≡ is_reset log)
  unfolding bet
  bet_lem none made log = (refl, refl, refl)
  bet_lem (some (new_market c side spend price)) made log = (refl, refl, refl)
  bet_lem (some (existing m side spend limit)) made log = ground (
    arith,
    sign_lem (existing m side spend limit) m.chain_market_id (or_else made.affiliate_id 0)
        (stage signing ∷ log),
  )

  -- The two parts of a post that come after its media.
  after_publish :
      (a : Option Attachment) (made : Made) (log : List Effect)
      → let r = (bet hash_typed_data config w a made >>= λ _. finish a) log in
        (is_reset (settle r) ≡ (can_bet a made || is_reset log))
        × (published (settle r) ≡ published log)
  unfolding finish settle
  after_publish a made log = ground (arith, bet_lem a made log)

  -- The bet was placed, if there is one, on the post that the backend took.
  abbrev pub can_finish : Option Attachment → Bool
  can_finish a = elim w.made [ throws e ↦ false | returns made ↦ can_bet a made ]

  publish_with_lem :
      (s : Screen) (ids : List Text) (market_id : Option Text) (log : List Effect)
      → is_reset log ≡ false
      → let after : List Effect =
          settle (publish_with hash_typed_data config w s ids market_id log) in
        (published after ≡ true) × (is_reset after ≡ can_finish s.attachment)
  unfolding publish_with settle
  publish_with_lem s ids market_id log h = go w.made refl
    where
      go :
          (o : Outcome Made)
          → w.made ≡ o
          → let after : List Effect =
              settle (publish_with hash_typed_data config w s ids market_id log) in
            (published after ≡ true) × (is_reset after ≡ can_finish s.attachment)
      go (throws e) q = rw q (refl, h)
      go (returns made) q = rw q (
          ground (
            arith,
            h,
            after_publish s.attachment made
                (publish (body_of s ids market_id) ∷ stage posting ∷ log),
          ))

  from_market :
      (s : Screen) (ids : List Text) (log : List Effect)
      → is_reset log ≡ false
      → published log ≡ false
      → let after : List Effect = settle (
          (market_of hash_typed_data config w s.attachment
              >>= publish_with hash_typed_data config w s ids)
            log) in
        (published after ≡ can_create s.attachment)
        × (is_reset after ≡ (can_create s.attachment && can_finish s.attachment))
  unfolding settle
  from_market s ids log h n =
      go (market_of hash_typed_data config w s.attachment log) (market_of_lem s.attachment log)
    where
      go :
          (r : Outcome (Option Text) × List Effect)
          → (is_returns r.0 ≡ can_create s.attachment)
            × (published r.1 ≡ published log)
            × (is_reset r.1 ≡ is_reset log)
          → let after : List Effect = settle (elim r.0 [
            | throws e ↦ (throws e, r.1)
            | returns m ↦ publish_with hash_typed_data config w s ids m r.1
          ]) in
            (published after ≡ can_create s.attachment)
            × (is_reset after ≡ (can_create s.attachment && can_finish s.attachment))
      go (throws e, log') q = ground (arith, q, h, n)
      go (returns m, log') q = ground (arith, q, h, n, publish_with_lem s ids m log' (q.2 ∙ h))

  -- What happens to the post and to the composer, on every way that the calls can end. The post goes
  -- out exactly if the media are ready under their ids and a new market could be created. The
  -- composer is emptied exactly if, besides, the backend takes the post and the bet on a market that
  -- was there is placed. So where that bet fails, from a missing wallet, an amount that buys no share
  -- or a refusal, the post is out and the composer still holds it.
  pub post-published :
      (s : Screen)
      → let log : List Effect = post hash_typed_data config w s in
        (published log ≡ (is_returns (media_ids (items_of s)) && can_create s.attachment))
        × (is_reset log ≡ (
            published log
            && elim w.made [ throws e ↦ false | returns made ↦ can_bet s.attachment made ]))
  unfolding post attempt wait_stage settle
  post-published s =
      go (media_ids (items_of s)) (if all_settled s.media then [] else stage finishing ∷ [])
        (ground arith) (ground arith)
    where
      go :
          (o : Outcome (List Text)) (log : List Effect)
          → is_reset log ≡ false
          → published log ≡ false
          → let after : List Effect = settle (elim o [
            | throws e ↦ (throws e, log)
            | returns ids ↦
                (market_of hash_typed_data config w s.attachment
                    >>= publish_with hash_typed_data config w s ids)
                  log
          ]) in
            (published after ≡ (is_returns o && can_create s.attachment))
            × (is_reset after ≡ (published after && can_finish s.attachment))
      go (throws e) log h n = ground (arith, h, n)
      go (returns ids) log h n = ground (arith, from_market s ids log h n)
