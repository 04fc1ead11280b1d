-- ===== src/Order/Accepted.antt =====
-- The ticket of the mobile client and the gate of the backend fit together.
use mathlib.Core.Path.{subst}
use mathlib.Core.List.{Memᴰ}
use thassa.Base.{
  ℕ, ◌+◌, ◌-◌, ◌*◌, ◌/◌, ◌%◌, ◌<◌, ◌≤◌, ◌≡◌, ◌∙◌, refl, sym, ltb, leb, ◌&&◌, if◌then◌else◌, true,
  false, or_else, Text, codes, text_eq, if_cases, List, [], ◌∷◌, ◌++◌, none, some, length, arith,
}
use thassa.Json.{Json, obj, str, fields}
use thassa.Api.{Outcome, returns, throws}
use thassa.Flow.{Effect, stage, failed, request, prompt, await, ◌>>=◌, try_catch}
use thassa.Format.Money.{decimal}
use thassa.Format.MoneyLaws.{value_from, value-digits}
use thassa.Pricing.{escrow_units, taker_fee_units}
use thassa.Pricing.Mobile.{max_cost_units}
use thassa.Pricing.Web
use thassa.Pricing.Bounds.{max_cost-web-le-mobile}
use thassa.Order.{side_num, OrderFields, TypedOrder}
use thassa.Order.Hex.{prefix, hex_bytes}
use thassa.Order.Signature.{signature_of, split_signature-signature_of}
use thassa.Order.Mobile.{
  TypedAuth, WalletHandle, Auth3009Payload, AuthOptions, number_from, typed_auth, auth_message,
  sign_receive_authorization, build_order, expiry_of,
}
use thassa.Order.Web.{build_order_typed_data}
use thassa.Order.Submit.{
  Stage, signing, send_order, give_up, Ticket, World, price_of, shares_of, order_payload, place,
  submit,
}
use thassa.Order.Gate.{AuthPayload}
use thassa.Order.Decode.{number_text, decoded, decode_auth-auth_fields, decode_body-order_payload}
use thassa.Order.Check.{
  Backend, is_hash32, to_auth, affiliate_of, validate_order, estimate_max_cost, market_number,
  handle_create_order, handle_create_order-queued,
}
use thassa.Order.Sound.{
  Bytes, is_hash32-hex_bytes, side_of-side_name, fee_positive, Sound, check_order-Sound,
}

number_from-value_from : (k : ℕ) (t : Text) → number_from k t ≡ value_from k t
unfolding number_from
number_from-value_from k [] = refl
number_from-value_from k (c ∷ t) = number_from-value_from (k * 10 + (c - 48)) t

number_from-decimal : (n : ℕ) → number_from 0 (decimal n) ≡ n
number_from-decimal n = number_from-value_from 0 (decimal n) ∙ value-digits n n (omega arith)

-- The order that a ticket stands for, with the clock at `buildOrder`.
abbrev pub order_of : Backend → Ticket → ℕ → ℕ → OrderFields
order_of backend t now nonce = record {
  market_id = t.market.chain_market_id;
  side = side_num t.side;
  price = price_of t;
  shares = shares_of t;
  max_cost = max_cost_units backend.config.decimals (shares_of t) (price_of t);
  affiliate_post_id = or_else t.affiliate_id 0;
  expiry = now / 1000 + 600;
  nonce = nonce;
  maker = backend.linked;
}

-- What the backend asks of a ticket beyond its signature: a chain that is configured, a market that
-- takes orders, under the id and the number of the ticket's, a price in cents, some shares, a linked
-- wallet, limits that are kept, and one post in the two forms of the attribution.
pub record Fits (backend : Backend) (t : Ticket) : Type 0 where
  pub ready : backend.chain_ready ≡ true
  pub market : market_number backend t.market.id ≡ some t.market.chain_market_id
  pub low : 1 ≤ price_of t
  pub high : price_of t ≤ 99
  pub some_shares : 0 < shares_of t
  pub linked : text_eq backend.linked [] ≡ false
  pub rate : backend.within_rate ≡ true
  pub limited :
      (ltb 0 backend.max_order_cost
        && ltb backend.max_order_cost
            (max_cost_units backend.config.decimals (shares_of t) (price_of t)))
      ≡ false
  pub post :
      affiliate_of backend t.affiliate_post_id (number_text t.affiliate_id)
      ≡ some (or_else t.affiliate_id 0)

-- A wallet that signs: `r`, `s` and the recovery id for each message.
pub record Signs : Type 0 where
  pub r : TypedAuth → List ℕ
  pub s : TypedAuth → List ℕ
  pub v : TypedAuth → ℕ
  pub r_length : (m : TypedAuth) → length (r m) ≡ 32
  pub s_length : (m : TypedAuth) → length (s m) ≡ 32
  pub r_bytes : (m : TypedAuth) → Bytes (r m)
  pub s_bytes : (m : TypedAuth) → Bytes (s m)
  pub v_byte : (m : TypedAuth) → v m < 256

abbrev pub wallet_of : Backend → Signs → WalletHandle
wallet_of backend k = record {
  address = backend.linked;
  request = λ m. returns (signature_of (k.r m) (k.s m) (k.v m));
}

-- The recovery id as it is sent.
abbrev sent_id : ℕ → ℕ
sent_id v = if ltb v 27 then v + 27 else v

sent_id-lt : (v : ℕ) → v < 256 → sent_id v < 256
sent_id-lt v l = if_cases (λ x. x < 256) (ltb v 27) (λ h. ground arith) (λ _. l)

module _ (hash_typed_data : TypedOrder → Text) (backend : Backend) (k : Signs) (t : Ticket) where
  -- What the ticket asks the wallet to sign for.
  abbrev options : ℕ → ℕ → AuthOptions
  options now nonce = record {
    to = none;
    value = max_cost_units backend.config.decimals (shares_of t) (price_of t);
    valid_seconds = none;
    token_name = none;
    token_version = none;
    token_address = none;
    nonce =
        some
          (hash_typed_data (build_order_typed_data backend.config (order_of backend t now nonce)));
  }

  -- The authorization that comes of it, with the message that was signed.
  abbrev authorized : ℕ → ℕ → ℕ → TypedAuth → AuthPayload
  authorized now signed_at nonce m = record {
    from = backend.linked;
    to = backend.config.markets_contract;
    value = max_cost_units backend.config.decimals (shares_of t) (price_of t);
    valid_after = 0;
    valid_before = signed_at / 1000 + 3600;
    nonce = hash_typed_data (build_order_typed_data backend.config (order_of backend t now nonce));
    v = sent_id (k.v m);
    r = prefix ++ hex_bytes (k.r m);
    s = prefix ++ hex_bytes (k.s m);
  }

  abbrev sent : AuthPayload → Auth3009Payload
  sent a = record {
    from = a.from;
    to = a.to;
    value = a.value;
    valid_after = a.valid_after;
    valid_before = a.valid_before;
    nonce = a.nonce;
    v = some a.v;
    r = a.r;
    s = a.s;
  }

  signed :
      (now signed_at nonce : ℕ) (random : List ℕ)
      → (m : TypedAuth) × (sign_receive_authorization backend.config signed_at random
            (wallet_of backend k)
            (options now nonce)
          ≡ returns (sent (authorized now signed_at nonce m)))
  unfolding sign_receive_authorization
  signed now signed_at nonce random = (
    m,
    rw
        (
          split_signature-signature_of (k.r m) (k.s m) (k.v m) (k.r_length m) (k.s_length m)
              (k.v_byte m),
          number_from-decimal cost,
        )
        refl,
  )
    where
      cost : ℕ
      cost = max_cost_units backend.config.decimals (shares_of t) (price_of t)

      m : TypedAuth
      m =
          typed_auth backend.config
            (auth_message backend.config signed_at random backend.linked (options now nonce))
            (options now nonce)

  checked :
      (now signed_at nonce : ℕ) (m : TypedAuth)
      → Fits backend t
      → ((o : TypedOrder) → is_hash32 (hash_typed_data o) ≡ true)
      → backend.now < now / 1000 + 600
      → backend.now < signed_at / 1000 + 3600
      → Sound backend hash_typed_data
          (order_of backend t now nonce)
          (authorized now signed_at nonce m)
  unfolding estimate_max_cost Web.max_cost_units
  checked now signed_at nonce m f h l u = record {
    low = f.low;
    high = f.high;
    some_shares = f.some_shares;
    open_order = l;
    enough = covers;
    funded = refl;
    limited = f.limited;
    to = refl;
    from = refl;
    positive = omega (
      arith,
      covers,
      fee_positive backend.config.decimals (shares_of t) (price_of t) f.some_shares f.low f.high,
    );
    started = refl;
    open_auth = u;
    bound = refl;
  }
    where
      covers :
          escrow_units backend.config.decimals (shares_of t) (price_of t)
            + taker_fee_units backend.config.decimals (shares_of t) (price_of t)
          ≤ max_cost_units backend.config.decimals (shares_of t) (price_of t)
      covers =
          max_cost-web-le-mobile backend.config.decimals (shares_of t) (price_of t)
            (omega (arith, f.high))

  validated :
      (now signed_at nonce : ℕ) (m : TypedAuth)
      → Fits backend t
      → ((o : TypedOrder) → is_hash32 (hash_typed_data o) ≡ true)
      → validate_order backend t.market.chain_market_id (
          decoded t
            (max_cost_units backend.config.decimals (shares_of t) (price_of t))
            (now / 1000 + 600)
            nonce
            (authorized now signed_at nonce m))
        ≡ some (order_of backend t now nonce, authorized now signed_at nonce m)
  unfolding validate_order to_auth
  validated now signed_at nonce m f h =
      rw
        (
          f.linked,
          side_of-side_name t.side,
          h _,
          is_hash32-hex_bytes (k.r m) (k.r_length m) (k.r_bytes m),
          is_hash32-hex_bytes (k.s m) (k.s_length m) (k.s_bytes m),
          f.post,
          f.rate,
          low,
          high,
          byte,
        )
        refl
    where
      low : leb 1 (price_of t) ≡ true
      low = let p = f.low in ground (arith, p)

      high : leb (price_of t) 99 ≡ true
      high = let p = f.high in ground (arith, p)

      byte : price_of t % 256 ≡ price_of t
      byte = omega (arith, f.high)

  abbrev pub world : ℕ → ℕ → ℕ → List ℕ → Outcome (Unit {0}) → Outcome (Unit {0}) → World
  world now signed_at nonce random link answer = record {
    wallet = returns (wallet_of backend k);
    link = link;
    order_nonce = returns nonce;
    now = now;
    signed_at = signed_at;
    random = random;
    answer = answer;
  }

  posted :
      (now signed_at nonce : ℕ) (random : List ℕ) (link answer : Outcome (Unit {0}))
      (a : AuthPayload)
      → sign_receive_authorization backend.config signed_at random
          (wallet_of backend k)
          (options now nonce)
        ≡ returns (sent a)
      → Memᴰ
          (request (codes "POST") (codes "/v1/orders") (
            some (
              order_payload t
                (max_cost_units backend.config.decimals (shares_of t) (price_of t))
                (now / 1000 + 600)
                nonce
                (sent a))))
          (submit hash_typed_data backend.config
            (world now signed_at nonce random link answer)
            t
            []).1
  unfolding submit place build_order expiry_of build_order_typed_data
  posted now signed_at nonce random link answer a e =
      subst (λ o. Memᴰ order_request (after o).1) (sym e) (in_log answer)
    where
      cost : ℕ
      cost = max_cost_units backend.config.decimals (shares_of t) (price_of t)

      w : World
      w = world now signed_at nonce random link answer

      order_request : Effect Stage
      order_request =
          request (codes "POST") (codes "/v1/orders")
            (some (order_payload t cost (now / 1000 + 600) nonce (sent a)))

      before : List (Effect Stage)
      before =
          failed none
          ∷ stage signing
          ∷ request (codes "POST") (codes "/v1/me/wallet")
              (some (obj (fields ((codes "address", str backend.linked) ∷ []))))
          ∷ request (codes "GET") (codes "/v1/wallet") none
          ∷ prompt
          ∷ []

      after : Outcome Auth3009Payload → Outcome (Unit {0}) × List (Effect Stage)
      after o =
          try_catch (await o >>= λ auth. send_order w t cost (now / 1000 + 600) nonce auth) give_up
            before

      in_log :
          (x : Outcome (Unit {0}))
          → Memᴰ order_request
              (try_catch
                (send_order
                  (world now signed_at nonce random link x)
                  t
                  cost
                  (now / 1000 + 600)
                  nonce
                  (sent a))
                give_up
                before).1
      in_log (returns u) =
          Memᴰ.tail (Memᴰ.tail (Memᴰ.tail (Memᴰ.tail (Memᴰ.tail (Memᴰ.tail (Memᴰ.head refl))))))
      in_log (throws x) =
          Memᴰ.tail (Memᴰ.tail (Memᴰ.tail (Memᴰ.tail (Memᴰ.tail (Memᴰ.tail (Memᴰ.head refl))))))

  -- A ticket that fits, with a wallet that signs and a clock that is not far from the backend's: its
  -- submission, logged from the start, has sent one body to `/v1/orders` that the backend decodes and
  -- checks to exactly the order of the ticket, whatever the backend answers after that. A ticket fits
  -- if the chain is configured, the backend finds the ticket's market under its id, with its number on
  -- the chain and in a status that takes orders, the price is from 1 to 99 cents, there are shares, a
  -- wallet is linked, and the rate, the limit of an order's cost and the attribution are in order.
  pub submit-handle_create_order :
      (now signed_at nonce : ℕ) (random : List ℕ) (link answer : Outcome (Unit {0}))
      → Fits backend t
      → ((o : TypedOrder) → is_hash32 (hash_typed_data o) ≡ true)
      → backend.now < now / 1000 + 600
      → backend.now < signed_at / 1000 + 3600
      → (body : Json) × Memᴰ
          (request (codes "POST") (codes "/v1/orders") (some body))
          (submit hash_typed_data backend.config
            (world now signed_at nonce random link answer)
            t
            []).1
        × (handle_create_order hash_typed_data backend body ≡ some (order_of backend t now nonce))
  submit-handle_create_order now signed_at nonce random link answer f h l u =
      let (m, e) = signed now signed_at nonce random in
      let a = authorized now signed_at nonce m in
      (
        order_payload t cost (now / 1000 + 600) nonce (sent a),
        posted now signed_at nonce random link answer a e,
        handle_create_order-queued hash_typed_data backend
            (order_payload t cost (now / 1000 + 600) nonce (sent a))
            (decoded t cost (now / 1000 + 600) nonce a) t.market.chain_market_id
            (order_of backend t now nonce, a) f.ready
            (decode_body-order_payload t cost (now / 1000 + 600) nonce (sent a) a (
              decode_auth-auth_fields a.from a.to a.value a.valid_after a.valid_before a.nonce a.v
                a.r a.s (sent_id-lt (k.v m) (k.v_byte m))))
            f.market (validated now signed_at nonce m f h)
            (check_order-Sound backend hash_typed_data (order_of backend t now nonce) a
              (checked now signed_at nonce m f h l u)),
      )
    where
      cost : ℕ
      cost = max_cost_units backend.config.decimals (shares_of t) (price_of t)
