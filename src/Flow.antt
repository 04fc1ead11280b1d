-- ===== src/Flow.antt =====
-- What a handler of a screen does, one effect after the other, and how it ends. The effects stay when a
-- call throws.
use thassa.Base.{Text, List, [], ◌∷◌, ◌++◌, Option}
use thassa.Json.{Json}
use thassa.Api.{Thrown, Outcome, returns, throws}

-- `S` is the screen's stages. `prompt` is a signature that the user is asked for, `request` one to
-- the backend.
pub data Effect (S : Type 0) : Type 0 where
  stage : S → Effect S
  failed : Option Text → Effect S
  request : Text → Text → Option Json → Effect S
  prompt : Effect S
  buzz_success : Effect S
  buzz_warn : Effect S
  toast : Text → Effect S
  placed : Effect S
  closed : Effect S

abbrev pub Action : Type 0 → Type 0 → Type 0
Action S A = List (Effect S) → Outcome A × List (Effect S)

module _ {S : Type 0} where
  abbrev pub pure : {A : Type 0} → A → Action S A
  pure a log = (returns a, log)

  abbrev pub await : {A : Type 0} → Outcome A → Action S A
  await o log = (o, log)

  abbrev pub tell : Effect S → Action S (Unit {0})
  tell e log = (returns tt, log ++ (e ∷ []))

  -- `.catch(() => {})`.
  abbrev pub ignore : {A : Type 0} → Outcome A → Action S (Unit {0})
  ignore o log = (returns tt, log)

  infixl 5 ◌>>=◌ ◌>>◌
  abbrev pub ◌>>=◌ : {A B : Type 0} → Action S A → (A → Action S B) → Action S B
  ◌>>=◌ m f log =
      let (o, log') = m log in elim o [ throws e ↦ (throws e, log') | returns a ↦ f a log' ]

  abbrev pub ◌>>◌ : {A B : Type 0} → Action S A → Action S B → Action S B
  m >> k = m >>= λ _. k

  -- `try { m } catch (e) { h(e) }`.
  abbrev pub try_catch : {A : Type 0} → Action S A → (Thrown → Action S A) → Action S A
  try_catch m h log =
      let (o, log') = m log in elim o [ throws e ↦ h e log' | returns a ↦ (returns a, log') ]
