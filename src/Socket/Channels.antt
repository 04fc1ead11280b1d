-- ===== src/Socket/Channels.antt =====
-- The refcounts of the channels, a map in order of insertion, and what a server makes of frames.
use thassa.Base.{ℕ, if◌then◌else◌, Bool, true, false, Text, text_eq, List, [], ◌∷◌}
use thassa.Socket.{Frame, subscribe, unsubscribe, other}

-- `subscriptions.get(channel) ?? 0`.
unfoldable pub refcount : Text → List (Text × ℕ) → ℕ
refcount channel [] = 0
refcount channel ((c, n) ∷ r) = if text_eq c channel then n else refcount channel r

-- Whether the channel is a key of the map.
unfoldable pub has {ℓ} : {V : Type ℓ} → Text → List (Text × V) → Bool
has channel [] = false
has channel ((c, n) ∷ r) = if text_eq c channel then true else has channel r

-- `subscriptions.set(channel, k)`: an entry keeps its place, a new one comes last.
unfoldable pub set {ℓ} : {V : Type ℓ} → Text → V → List (Text × V) → List (Text × V)
set channel k [] = (channel, k) ∷ []
set channel k ((c, n) ∷ r) =
    let rest = set channel k r in if text_eq c channel then (c, k) ∷ r else (c, n) ∷ rest

-- `subscriptions.delete(channel)`: there is one entry at most.
unfoldable pub delete {ℓ} : {V : Type ℓ} → Text → List (Text × V) → List (Text × V)
delete channel [] = []
delete channel ((c, n) ∷ r) =
    let rest = delete channel r in if text_eq c channel then rest else (c, n) ∷ rest

unfoldable pub channels {ℓ} : {V : Type ℓ} → List (Text × V) → List Text
channels [] = []
channels ((c, n) ∷ r) = c ∷ channels r

-- Whether the frames, the latest first, ask for a channel: the last that names it subscribes to it.
unfoldable pub subscribed : Text → List Frame → Bool
subscribed channel [] = false
subscribed channel (subscribe c ∷ fs) = if text_eq c channel then true else subscribed channel fs
subscribed channel (unsubscribe c ∷ fs) = if text_eq c channel then false else subscribed channel fs
subscribed channel (other d ∷ fs) = subscribed channel fs
