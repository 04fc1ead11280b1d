-- ===== src/Order/Ended.antt =====
-- How a submission of the ticket ends.
use thassa.Base.{ℕ, or_else, codes, ◌≡◌, refl, Text, List, [], ◌∷◌, ◌++◌, none, some}
use thassa.Json.{obj, str, fields}
use thassa.Api.{Outcome, returns, throws}
use thassa.Api.Errors.{error_message}
use thassa.Flow.{
  Effect, stage, failed, request, prompt, buzz_success, buzz_warn, toast, placed, closed, Action,
  await, tell, ignore, ◌>>=◌, try_catch,
}
use thassa.Order.{TypedOrder, Config}
use thassa.Pricing.Mobile.{max_cost_units}
use thassa.Order.Mobile.{
  WalletHandle, BuiltOrder, build_order, sign_receive_authorization, Auth3009Payload,
}
use thassa.Order.Submit.{
  shares_of, price_of, order_payload, queued, Stage, signing, idle, Ticket, World, place,
  send_order, give_up, submit,
}

-- The stage and the error that the ticket shows after these effects.
abbrev pub stage_after : Stage → List (Effect Stage) → Stage
stage_after s [] = s
stage_after s (stage t ∷ log) = stage_after t log
stage_after s (failed e ∷ log) = stage_after s log
stage_after s (request m p b ∷ log) = stage_after s log
stage_after s (prompt ∷ log) = stage_after s log
stage_after s (buzz_success ∷ log) = stage_after s log
stage_after s (buzz_warn ∷ log) = stage_after s log
stage_after s (toast t ∷ log) = stage_after s log
stage_after s (placed ∷ log) = stage_after s log
stage_after s (closed ∷ log) = stage_after s log

-- A last effect that sets the stage.
stage_after-append :
    (s t : Stage) (log : List (Effect Stage)) → stage_after s (log ++ (stage t ∷ [])) ≡ t
stage_after-append s t [] = refl
stage_after-append s t (stage u ∷ log) = stage_after-append u t log
stage_after-append s t (failed e ∷ log) = stage_after-append s t log
stage_after-append s t (request m p b ∷ log) = stage_after-append s t log
stage_after-append s t (prompt ∷ log) = stage_after-append s t log
stage_after-append s t (buzz_success ∷ log) = stage_after-append s t log
stage_after-append s t (buzz_warn ∷ log) = stage_after-append s t log
stage_after-append s t (toast u ∷ log) = stage_after-append s t log
stage_after-append s t (placed ∷ log) = stage_after-append s t log
stage_after-append s t (closed ∷ log) = stage_after-append s t log

-- Where it returns, the ticket is idle.
Idle : Outcome (Unit {0}) × List (Effect Stage) → Type 0
Idle (throws e, log) = Unit {0}
Idle (returns u, log) = (s : Stage) → stage_after s log ≡ idle

Idles : Action Stage (Unit {0}) → Type 0
Idles m = (log : List (Effect Stage)) → Idle (m log)

bind-Idles :
    {A : Type 0} (m : Action Stage A) (f : A → Action Stage (Unit {0}))
    → ((a : A) → Idles (f a))
    → Idles (m >>= f)
unfolding Idles Idle
bind-Idles m f h log = go (m log)
  where
    go :
        (p : Outcome _ × List (Effect Stage))
        → Idle (elim p.0 [ throws e ↦ (throws e, p.1) | returns a ↦ f a p.1 ])
    go (throws e, log') = tt
    go (returns a, log') = h a log'

last-Idles : Idles (tell (stage idle))
unfolding Idles Idle
last-Idles log s = stage_after-append s idle log

send_order-Idles :
    (w : World) (t : Ticket) (c e n : ℕ) (a : Auth3009Payload) → Idles (send_order w t c e n a)
send_order-Idles w t c e n a = bind-Idles (tell (stage queued)) _ (λ u.
    bind-Idles (tell (request (codes "POST") (codes "/v1/orders") (some (order_payload t c e n a))))
      _
      (λ u. bind-Idles (await w.answer) _ (λ u. bind-Idles (tell buzz_success) _ (λ u.
        bind-Idles (tell (toast (codes "Order placed"))) _
          (λ u. bind-Idles (tell placed) _ (λ u. bind-Idles (tell closed) _ (λ u. last-Idles)))))))

-- The submission is over: nothing is thrown, and the ticket can be submitted again.
pub record Ended (p : Outcome (Unit {0}) × List (Effect Stage)) : Type 0 where
  pub caught : p.0 ≡ returns tt
  pub idle_again : (s : Stage) → stage_after s p.1 ≡ idle

try_catch-Ended :
    (m : Action Stage (Unit {0})) (log : List (Effect Stage))
    → Idles m
    → Ended (try_catch m give_up log)
unfolding Idles Idle
try_catch-Ended m log h = go (m log) (h log)
  where
    go :
        (p : Outcome (Unit {0}) × List (Effect Stage))
        → Idle p
        → Ended (elim p.0 [ throws e ↦ give_up e p.1 | returns a ↦ (returns a, p.1) ])
    go (throws e, log') i = record {
      caught = refl;
      idle_again = λ s.
          stage_after-append s idle
            (log' ++ (buzz_warn ∷ []) ++ (failed (some (error_message e)) ∷ []));
    }
    go (returns u, log') i = record { caught = refl; idle_again = i }

module _ (hash_typed_data : TypedOrder → Text) (config : Config) (w : World) (t : Ticket) where
  abbrev cost : ℕ
  cost = max_cost_units config.decimals (shares_of t) (price_of t)

  abbrev order : WalletHandle → ℕ → BuiltOrder
  order wallet order_nonce = build_order hash_typed_data config w.now wallet.address (record {
    chain_market_id = t.market.chain_market_id;
    side = t.side;
    price_cents = price_of t;
    shares = shares_of t;
    max_cost = cost;
    affiliate_post_id = some (or_else t.affiliate_id 0);
    expiry = none;
    nonce = order_nonce;
  })

  abbrev authorization : WalletHandle → ℕ → Outcome Auth3009Payload
  authorization wallet order_nonce =
      sign_receive_authorization config w.signed_at w.random wallet (record {
        to = none;
        value = cost;
        valid_seconds = none;
        token_name = none;
        token_version = none;
        token_address = none;
        nonce = some (order wallet order_nonce).digest;
      })

  place-Idles : Idles (place hash_typed_data config w t)
  unfolding place
  place-Idles = bind-Idles (await w.wallet) _ (λ wallet.
      bind-Idles
        (tell (
          request (codes "POST") (codes "/v1/me/wallet")
            (some (obj (fields ((codes "address", str wallet.address) ∷ []))))))
        _
        (λ u. bind-Idles (ignore w.link) _ (λ u.
          bind-Idles (tell (request (codes "GET") (codes "/v1/wallet") none)) _ (λ u.
            bind-Idles (await w.order_nonce) _ (λ order_nonce. bind-Idles (tell prompt) _ (λ u.
              bind-Idles (await (authorization wallet order_nonce)) _ (λ auth.
                send_order-Idles w t cost (order wallet order_nonce).message.expiry order_nonce
                  auth)))))))

  -- Whatever the wallet, the signature and the backend answer, a submission throws nothing and leaves
  -- the ticket idle, ready for another.
  pub submit-Ended : (log : List (Effect Stage)) → Ended (submit hash_typed_data config w t log)
  unfolding submit
  submit-Ended log =
      try_catch-Ended (place hash_typed_data config w t)
        (log ++ (failed none ∷ []) ++ (stage signing ∷ [])) place-Idles
