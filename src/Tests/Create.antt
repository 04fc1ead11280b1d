-- ===== src/Tests/Create.antt =====
-- A photo that is edited while it uploads.
use thassa.Base.{◌&&◌, true, Text, some, ◌≡◌, refl, false, codes, List, [], ◌∷◌, map, none}
use thassa.Create.{ready, MediaItem}
use thassa.Create.Media.{
  Asset, add_assets, items_from, patch, edit_at, item_at, active, waiting, has_token, start,
}
use thassa.Create.Uploads.{
  Event, picks, edits, schedules, uploads, empty, step, run, pick, schedule, run_all, run_upload,
  put, abort, apply_edit, finish,
}
use thassa.Create.Sound.{Sound}
use thassa.Api.{returns}
use thassa.Create.Ids.{media_ids}
use thassa.Create.Waiting.{all_settled}
use thassa.Create.Progress.{Nearer, schedule-Nearer}
use thassa.Create.Run.{run-Sound}
use thassa.Pricing.{shares_for_spend}
use thassa.Order.{TypedOrder, Config, yes_side}
use thassa.Order.Submit.{Market}
use thassa.Create.Attached.{World, Effect, existing, shares_of, spend_of, price_of}
use thassa.Create.Post.{
  Screen, post, attempt, publish_with, wait_stage, market_of, bet, sign_order_payload, items_of,
  settle,
}
use thassa.Create.Ids.{failures, some_empty}
use thassa.Create.Posted.{published, is_reset, is_returns, can_create, can_finish, post-published}

abbrev photo : Asset
photo = record { uri = codes "a"; is_video = false; mime_type = none }

-- The result of the first upload comes after the edit.
abbrev late : List Event
late =
    picks (photo ∷ [])
    ∷ schedules
    ∷ edits 0 (codes "b")
    ∷ schedules
    ∷ uploads (0, 0) (codes "old")
    ∷ uploads (0, 1) (codes "new")
    ∷ []

edited_photo : map (λ (m : MediaItem). m.status) (run late empty).media ≡ ready (codes "new") ∷ []
unfolding run step pick add_assets items_from schedule run_all run_upload put abort apply_edit
    finish patch edit_at item_at active waiting has_token start
edited_photo = refl

run-Sound_example : Sound (run late empty)
run-Sound_example = run-Sound late

-- Picked and not yet started.
picked : all_settled (run (picks (photo ∷ []) ∷ []) empty).media ≡ false
unfolding run step pick add_assets items_from all_settled
picked = refl

schedule-Nearer_example : Nearer (run (picks (photo ∷ []) ∷ []) empty)
schedule-Nearer_example =
    schedule-Nearer (run (picks (photo ∷ []) ∷ []) empty) (run-Sound (picks (photo ∷ []) ∷ []))
      picked

abbrev market : Market
market = record {
  id = codes "m1";
  chain_market_id = 7;
  yes_price_cents = some 50;
  no_price_cents = none;
}

-- A post with a bet of nothing on a market that is there.
abbrev bare : Screen
bare = record {
  media = [];
  waited = [];
  current = [];
  caption = codes "hi";
  mention_drafts = [];
  attachment = some (existing market yes_side 0 none);
}

abbrev world : World
world = record {
  wallet = returns (record { address = codes "0xAb"; request = λ m. returns (codes "0x") });
  order_nonce = returns 0;
  now = 0;
  signed_at = 0;
  random = [];
  market = returns (codes "m2");
  made = returns (record { id = codes "p1"; affiliate_id = some 4 });
  placed = returns tt;
}

abbrev config : Config
config = record {
  chain_id = 1;
  markets_contract = codes "0xM";
  payment_token = codes "0xT";
  token_name = codes "T";
  token_version = codes "1";
  decimals = 6;
}

abbrev hash : TypedOrder → Text
hash o = codes "0x"

-- The post is out, and the composer is kept.
out_and_kept :
    (published (post hash config world bare) ≡ true)
    × (is_reset (post hash config world bare) ≡ false)
unfolding post attempt publish_with wait_stage market_of bet sign_order_payload items_of all_settled
    media_ids failures some_empty settle shares_of shares_for_spend spend_of price_of
out_and_kept = (refl, refl)

post-published_example :
    let log : List Effect = post hash config world bare in
    (published log
      ≡ (is_returns (media_ids (items_of bare)) && can_create hash config world bare.attachment))
    × (is_reset log ≡ (published log && can_finish hash config world bare.attachment))
post-published_example = post-published hash config world bare
