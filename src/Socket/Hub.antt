-- ===== src/Socket/Hub.antt =====
-- The backend's side of a connection, Conn and Hub of backend/internal/ws/hub.go: which channels it has
-- joined after the frames that were sent over it. `is_uuid` stands for uuid.Parse, `can_join` for
-- CanJoin, on the user of the connection and while it lasts.
use thassa.Base.{
  ◌≡◌, refl, ◌==◌, ◌&&◌, if◌then◌else◌, Bool, true, false, Bool-cases, inl, inr, Text, codes,
  text_eq, text_eq_iff, List, [], ◌∷◌, ◌++◌, drop, ap, arith,
}
use thassa.Socket.{Frame, subscribe, unsubscribe, other}
use thassa.Socket.Channels.{subscribed}

pub record Hub : Type 0 where
  pub user_id : Text
  pub is_uuid : Text → Bool
  pub can_join : Text → Bool

unfoldable pub has_prefix : Text → Text → Bool
has_prefix [] t = true
has_prefix (c ∷ p) [] = false
has_prefix (c ∷ p) (d ∷ t) = c == d && has_prefix p t

unfoldable pub is_user : Text → Bool
is_user c = has_prefix (codes "user:") c

abbrev pub own : Hub → Text
own hub = codes "user:" ++ hub.user_id

unfoldable pub valid_channel : Hub → Text → Bool
valid_channel hub c =
    if has_prefix (codes "dm:") c
    then hub.is_uuid (drop 3 c)
    else if has_prefix (codes "book:") c
    then hub.is_uuid (drop 5 c)
    else if is_user c
    then hub.is_uuid (drop 5 c)
    else false

-- Whether a frame that subscribes to a channel is taken.
unfoldable pub accepts : Hub → Text → Bool
accepts hub c = valid_channel hub c && (if is_user c then text_eq c (own hub) else hub.can_join c)

-- `c.channels` after the frames, the latest first.
unfoldable pub joined : Hub → Text → List Frame → Bool
joined hub c [] = text_eq (own hub) c
joined hub c (subscribe d ∷ fs) = if accepts hub d && text_eq d c then true else joined hub c fs
joined hub c (unsubscribe d ∷ fs) =
    if is_user d then joined hub c fs else if text_eq d c then false else joined hub c fs
joined hub c (other d ∷ fs) = joined hub c fs

own-user : (hub : Hub) → is_user (own hub) ≡ true
unfolding is_user has_prefix
own-user hub = refl

same_user : (c d : Text) → text_eq c d ≡ true → is_user c ≡ is_user d
same_user c d e = ap is_user ((text_eq_iff c d).0 e)

same_accepts : (hub : Hub) (c d : Text) → text_eq c d ≡ true → accepts hub c ≡ accepts hub d
same_accepts hub c d e = ap (accepts hub) ((text_eq_iff c d).0 e)

joined-own :
    (hub : Hub) (c : Text) (fs : List Frame)
    → is_user c ≡ true
    → joined hub c fs ≡ text_eq (own hub) c
unfolding joined accepts
joined-own hub c [] u = refl
joined-own hub c (subscribe d ∷ fs) u = ground (
  arith,
  u,
  joined-own hub c fs u,
  same_user d c,
  text_eq_iff d c,
  text_eq_iff d (own hub),
  text_eq_iff (own hub) c,
)
joined-own hub c (unsubscribe d ∷ fs) u = ground (arith, u, joined-own hub c fs u, same_user d c)
joined-own hub c (other d ∷ fs) u = joined-own hub c fs u

joined-other :
    (hub : Hub) (c : Text) (fs : List Frame)
    → is_user c ≡ false
    → joined hub c fs ≡ (accepts hub c && subscribed c fs)
unfolding joined subscribed
joined-other hub c [] u = ground (arith, u, own-user hub, same_user (own hub) c)
joined-other hub c (subscribe d ∷ fs) u =
    ground (arith, u, joined-other hub c fs u, same_accepts hub d c)
joined-other hub c (unsubscribe d ∷ fs) u =
    ground (arith, u, joined-other hub c fs u, same_user d c)
joined-other hub c (other d ∷ fs) u = joined-other hub c fs u

-- The user's own channel is always joined and no other user's ever; any other channel is joined if it
-- was asked for and is accepted.
pub joined-subscribed :
    (hub : Hub) (c : Text) (fs : List Frame)
    → joined hub c fs
      ≡ (if is_user c then text_eq (own hub) c else accepts hub c && subscribed c fs)
joined-subscribed hub c fs = elim (Bool-cases (is_user c)) [
  | inl u ↦ rw u (joined-own hub c fs u)
  | inr u ↦ rw u (joined-other hub c fs u)
]
