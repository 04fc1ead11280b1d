-- ===== src/Warp.antt =====
-- An administrator who acts as a user: mobile/lib/warpStore.ts and web/lib/warp.ts. `parse` stands for
-- JSON.parse with the test that the id is a text, `none` where it is not one, and `write` for
-- JSON.stringify.
pub mod Reloads
use thassa.Base.{
  not, ◌&&◌, if◌then◌else◌, Bool, true, false, Text, List, [], ◌∷◌, Option, none, some,
}
use thassa.Api.{Outcome, returns, throws}
use thassa.Create.Ids.{is_empty}

pub record WarpTarget : Type 0 where
  pub id : Text
  pub username : Option Text
  pub email : Option Text
  pub avatar_url : Option Text

-- `stored` is what the device keeps over a restart.
pub record Store : Type 0 where
  pub current : Option WarpTarget
  pub hydrated : Bool
  pub stored : Option Text

-- The module as it is loaded.
abbrev pub boot : Option Text → Store
boot stored = record { current = none; hydrated = false; stored = stored }

abbrev pub with_id : Option WarpTarget → Option WarpTarget
with_id none = none
with_id (some t) = if is_empty t.id then none else some t

-- What is kept of a target; a write or a removal that fails leaves what was there.
unfoldable pub keep :
    (write : WarpTarget → Text) → (works : Bool) → Option WarpTarget → Option Text → Option Text
keep write true none old = none
keep write true (some t) old = some (write t)
keep write false target old = old

module _ (parse : Text → Outcome (Option WarpTarget)) where
  -- The target of a text that was read, and `old` where it has none.
  unfoldable pub parsed : Text → Option WarpTarget → Option WarpTarget
  parsed raw old = elim (parse raw) [
    | throws e ↦ old
    | returns none ↦ old
    | returns (some t) ↦ some t
  ]

  unfoldable pub read : Option Text → Option WarpTarget → Option WarpTarget
  read none old = old
  read (some raw) old = if is_empty raw then old else parsed raw old

  -- The mobile client reads the store at once, and the answer comes later: ensureWarpHydrated.
  unfoldable pub hydrate : Outcome (Option Text) → Store → Store
  hydrate (returns raw) s =
      if s.hydrated then s else record s { current = read raw s.current; hydrated = true }
  hydrate (throws e) s = record s { hydrated = true }

  -- The web client reads the store where it is needed first; until then there is no target. `works`
  -- says whether it can be read.
  unfoldable pub web_hydrate : (works : Bool) → Store → Store
  web_hydrate works s =
      if s.hydrated
      then s
      else if works
      then record s { current = with_id (read s.stored none); hydrated = true }
      else record s { current = none; hydrated = true }

  unfoldable pub get_warp_target : (works : Bool) → Store → Option WarpTarget
  get_warp_target works s = (web_hydrate works s).current

  unfoldable pub set_warp_target :
      (write : WarpTarget → Text) → (works : Bool) → Option WarpTarget → Store → Store
  set_warp_target write works target s =
      let s' = web_hydrate works s in
      record s' { current = target; stored = keep write works target s'.stored }

unfoldable pub persist_warp_target :
    (write : WarpTarget → Text) → (works : Bool) → Option WarpTarget → Store → Store
persist_warp_target write works target s = record s {
  current = target;
  stored = keep write works target s.stored;
}

-- What happens to the mobile client's store: the read answers, or a target is set or cleared.
pub data Event : Type 0 where
  reads : Outcome (Option Text) → Event
  persists : (works : Bool) → Option WarpTarget → Event

unfoldable pub step :
    (Text → Outcome (Option WarpTarget)) → (WarpTarget → Text) → Event → Store → Store
step parse write (reads o) s = hydrate parse o s
step parse write (persists works target) s = persist_warp_target write works target s

abbrev pub run :
    (Text → Outcome (Option WarpTarget)) → (WarpTarget → Text) → List Event → Store → Store
run parse write [] s = s
run parse write (e ∷ es) s = run parse write es (step parse write e s)
