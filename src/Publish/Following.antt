-- ===== src/Publish/Following.antt =====
-- The wait for a new market after a post.
use thassa.Base.{
  ℕ, zero, suc, ◌+◌, ◌*◌, ◌≤◌, ◌≡◌, ◌⊎◌, inl, inr, refl, ltb, ◌&&◌, if◌then◌else◌, Bool, true,
  false, Bool-cases, Option, none, some, arith,
}
use thassa.Api.{Thrown, Outcome, returns, throws}
use thassa.Card.{Status, pending, open_market, matched, settling, settled, void_market}

abbrev pub is_pending : Status → Bool
is_pending pending = true
is_pending open_market = false
is_pending matched = false
is_pending settling = false
is_pending settled = false
is_pending void_market = false

-- The loop from its test number `k` on, with the status so far: the status in the end and the number
-- of requests. `clock` is the time since the start at a test, in milliseconds, and `answers` what
-- the requests answer. `none` means that the fuel ran out.
unfoldable pub follow :
    (clock : ℕ → ℕ) → (answers : ℕ → Outcome Status) → ℕ → ℕ → Status → Option (Status × ℕ)
follow clock answers zero k status = none
follow clock answers (suc fuel) k status =
    if is_pending status && ltb (clock k) 20000
    then elim (answers k) [
      | throws e ↦ some (status, suc k)
      | returns next ↦ follow clock answers fuel (suc k) next
    ]
    else some (status, k)

-- Why the loop ended.
abbrev pub Ends : (ℕ → ℕ) → (ℕ → Outcome Status) → Status × ℕ → Type 0
Ends clock answers r =
    (is_pending r.0 ≡ false)
    ⊎ ((20000 ≤ clock r.1) ⊎ ((j : ℕ) × (e : Thrown) × (r.1 ≡ suc j) × (answers j ≡ throws e)))

abbrev pub Followed : (ℕ → ℕ) → (ℕ → Outcome Status) → Option (Status × ℕ) → Type 0
Followed clock answers o = (r : Status × ℕ) × (o ≡ some r) × (r.1 ≤ 14) × Ends clock answers r

module _ (clock : ℕ → ℕ) (answers : ℕ → Outcome Status)
    (pace : (k : ℕ) → clock k + 1500 ≤ clock (suc k)) where
  late : (k : ℕ) → 1500 * k ≤ clock k
  late zero = omega arith
  late (suc k) = omega (arith, pace k, late k)

  follow_from :
      (fuel k : ℕ) (status : Status)
      → k ≤ 14
      → k + fuel ≡ 15
      → Followed clock answers (follow clock answers fuel k status)
  unfolding follow
  follow_from zero k status h e = absurd (omega (arith, h, e))
  follow_from (suc fuel) k status h e =
      elim (Bool-cases (is_pending status && ltb (clock k) 20000)) [
        | inr over ↦ rw over ((status, k), refl, h, ended status over)
        | inl on ↦ rw on (
            go (answers k) refl (ground (arith, on, late k))
              (λ next l. follow_from fuel (suc k) next (omega (arith, l)) (omega (arith, e))))
      ]
    where
      ended :
          (t : Status) → (is_pending t && ltb (clock k) 20000) ≡ false → Ends clock answers (t, k)
      ended t q = elim (Bool-cases (is_pending t)) [
        | inr done ↦ inl done
        | inl waits ↦ inr (inl (ground (arith, q, waits)))
      ]

      go :
          (o : Outcome Status)
          → answers k ≡ o
          → k ≤ 13
          → ((next : Status)
              → k ≤ 13
              → Followed clock answers (follow clock answers fuel (suc k) next))
          → Followed clock answers (elim o [
            | throws x ↦ some (status, suc k)
            | returns next ↦ follow clock answers fuel (suc k) next
          ])
      go (throws x) q l rec = ((status, suc k), refl, omega (arith, l), inr (inr (k, x, refl, q)))
      go (returns next) q l rec = rec next l

  -- Between two tests there are a second and a half at least: then the loop ends, after fourteen
  -- requests at most, and it ends because the market is no longer pending, because twenty seconds
  -- are over, or because its last request failed.
  pub follow-Ends : (status : Status) → Followed clock answers (follow clock answers 15 0 status)
  follow-Ends status = follow_from 15 0 status (omega arith) refl
