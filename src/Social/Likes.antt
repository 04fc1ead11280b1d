-- ===== src/Social/Likes.antt =====
-- The likes and reactions of mobile/components/PostCard.tsx and web/components/PostCard.tsx.
use thassa.Base.{
  ℕ, suc, ◌+◌, ◌-◌, ltb, not, if◌then◌else◌, Bool, true, false, Text, text_eq, List, [], ◌∷◌, ◌++◌,
  Option, none, some,
}

-- The count of the mobile card is `ups - downs`, which may be below 0.
pub record Mobile : Type 0 where
  pub liked : Bool
  pub ups : ℕ
  pub downs : ℕ

-- A request that is under way: `was` and `now` of its press.
pub record Request : Type 0 where
  pub was : Bool
  pub now : Bool

abbrev pub count_up : Bool → Mobile → Mobile
count_up now s = if now then record s { ups = suc s.ups } else record s { downs = suc s.downs }

-- `toggleLike`, with the request that it sends; a double tap forces the like on.
unfoldable pub toggle_like : Bool → Mobile → Mobile × Option Request
toggle_like force_on s =
    let now = if force_on then true else not s.liked in
    if (if now then s.liked else not s.liked)
    then (s, none)
    else (record (count_up now s) { liked = now }, some (record { was = s.liked; now = now }))

-- The `catch` of a request.
unfoldable pub take_back : Request → Mobile → Mobile
take_back r s = record (count_up (not r.now) s) { liked = r.was }

-- The emoji of the user, and the one before it, which a failure brings back.
unfoldable pub react : Text → Option Text → Option Text
react emoji none = some emoji
react emoji (some prev) = if text_eq prev emoji then none else some emoji

pub record Web : Type 0 where
  pub liked : Bool
  pub likes : ℕ

-- `Math.max(0, n + 1)` and `Math.max(0, n - 1)`.
abbrev pub step_likes : Bool → ℕ → ℕ
step_likes up n = if up then n + 1 else n - 1

-- `toggleLike` of the web card up to its request.
unfoldable pub web_toggle : Web → Web
web_toggle s = record { liked = not s.liked; likes = step_likes (not s.liked) s.likes }

-- Its `catch`, with the `next` of the press.
unfoldable pub web_take_back : Bool → Web → Web
web_take_back next s = record { liked = not next; likes = step_likes (not next) s.likes }

pub record Reaction : Type 0 where
  pub emoji : Text
  pub count : ℕ
  pub reacted : Bool

unfoldable pub find_reaction : Text → List Reaction → Option Reaction
find_reaction emoji [] = none
find_reaction emoji (r ∷ rs) = if text_eq r.emoji emoji then some r else find_reaction emoji rs

unfoldable pub others_of : Text → List Reaction → List Reaction
others_of emoji [] = []
others_of emoji (r ∷ rs) =
    let rest = others_of emoji rs in if text_eq r.emoji emoji then rest else r ∷ rest

abbrev pub reacted_to : Text → Option Reaction → List Reaction → List Reaction
reacted_to emoji none others = others ++ (record { emoji = emoji; count = 1; reacted = true } ∷ [])
reacted_to emoji (some existing) others =
    if existing.reacted
    then if ltb 0 (existing.count - 1)
      then others ++ (record { emoji = emoji; count = existing.count - 1; reacted = false } ∷ [])
      else others
    else others ++ (record { emoji = emoji; count = existing.count + 1; reacted = true } ∷ [])

-- `react` of the web card.
unfoldable pub web_react : Text → List Reaction → List Reaction
web_react emoji rs = reacted_to emoji (find_reaction emoji rs) (others_of emoji rs)
