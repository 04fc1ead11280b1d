-- ===== src/Cache/Victim.antt =====
-- Which entry a round of the eviction removes.
use mathlib.Core.Path.{subst}
use native.Mathlib.Nat.{mul-le-mul_left, mul-le-mul_right, le_of_mul-le-mul_right}
use thassa.Base.{
  ℕ, ◌+◌, ◌*◌, ◌-◌, ◌≤◌, ◌<◌, ◌≡◌, refl, ap, inl, inr, true, false, Bool-cases, lt→ltb, List, [],
  ◌∷◌, All, arith,
}
use thassa.Cache.{
  CacheMeta, CacheTier, pinned, normal, media, pinned_bonus, hour_ms, bonus, score_lt, score_num,
  score_den,
}
use thassa.Cache.Evict.{insert_by_score, sort_by_score}
use thassa.Cache.Invariant.{All-map, sort_by_score-nil}

score_den_pos : (m : CacheMeta) (now : ℕ) → 0 < score_den m now
unfolding score_den
score_den_pos m now = omega arith

-- The order of two fractions is transitive.
fraction_trans : (a b c d e f : ℕ) → 0 < d → a * d ≤ c * b → c * f ≤ e * d → a * f ≤ e * b
fraction_trans a b c d e f pos h k =
    le_of_mul-le-mul_right {k = d} (omega (arith, mul-le-mul_left f h, mul-le-mul_left b k)) pos

not_lt→le :
    (now : ℕ) (a b : CacheMeta)
    → score_lt now a b ≡ false
    → score_num b now * score_den a now ≤ score_num a now * score_den b now
unfolding score_lt
not_lt→le now a b h = ground arith

le→not_lt :
    (now : ℕ) (a b : CacheMeta)
    → score_num b now * score_den a now ≤ score_num a now * score_den b now
    → score_lt now a b ≡ false
unfolding score_lt
le→not_lt now a b h = ground arith

score_lt_trans :
    (now : ℕ) (m h y : CacheMeta)
    → score_lt now h m ≡ false
    → score_lt now y h ≡ false
    → score_lt now y m ≡ false
score_lt_trans now m h y p q = le→not_lt now y m (
    fraction_trans (score_num m now) (score_den m now) (score_num h now) (score_den h now)
      (score_num y now) (score_den y now) (score_den_pos h now) (not_lt→le now h m p)
      (not_lt→le now y h q))

score_lt_asym : (now : ℕ) (a b : CacheMeta) → score_lt now a b ≡ true → score_lt now b a ≡ false
unfolding score_lt
score_lt_asym now a b h = ground arith

score_lt_irrefl : (now : ℕ) (a : CacheMeta) → score_lt now a a ≡ false
unfolding score_lt
score_lt_irrefl now a = ground arith

-- No entry of the list scores less.
abbrev Least : ℕ → CacheMeta → List CacheMeta → Type 0
Least now v = All (λ m. score_lt now m v ≡ false)

-- The first of a list that is empty or starts with its least.
abbrev StartsLeast : ℕ → List CacheMeta → List CacheMeta → Type 0
StartsLeast now ms [] = Unit {0}
StartsLeast now ms (v ∷ rest) = Least now v ms

insert-StartsLeast :
    (now : ℕ) (m : CacheMeta) (sorted ms : List CacheMeta)
    → StartsLeast now ms sorted
    → (sorted ≡ [] → ms ≡ [])
    → StartsLeast now (m ∷ ms) (insert_by_score now m sorted)
unfolding insert_by_score
insert-StartsLeast now m [] ms h e = rw (e refl) (score_lt_irrefl now m, tt)
insert-StartsLeast now m (x ∷ xs) ms h e = elim (Bool-cases (score_lt now x m)) [
  | inl lower ↦ rw lower (score_lt_asym now x m lower, h)
  | inr upper ↦ rw upper (
    score_lt_irrefl now m,
    All-map (λ y. score_lt now y x ≡ false) _ ms (λ y. score_lt_trans now m x y upper) h,
  )
]

sort_by_score-StartsLeast :
    (now : ℕ) (ms : List CacheMeta) → StartsLeast now ms (sort_by_score now ms)
unfolding sort_by_score
sort_by_score-StartsLeast now [] = tt
sort_by_score-StartsLeast now (m ∷ ms) =
    insert-StartsLeast now m (sort_by_score now ms) ms (sort_by_score-StartsLeast now ms)
      (sort_by_score-nil now ms)

-- The entry that a round removes has the least score of all.
pub victim-least :
    (now : ℕ) (ms : List CacheMeta) (v : CacheMeta) (rest : List CacheMeta)
    → sort_by_score now ms ≡ v ∷ rest
    → All (λ m. score_lt now m v ≡ false) ms
victim-least now ms v rest e = subst (StartsLeast now ms) e (sort_by_score-StartsLeast now ms)

bonus_gap :
    (x y am dv : ℕ)
    → x ≤ pinned_bonus
    → 0 < y
    → x * hour_ms * dv < (y * hour_ms + pinned_bonus * dv) * (hour_ms + am)
bonus_gap x y am dv few pos = omega (arith, mul-le-mul_right (hour_ms * dv) few)

below_bonus :
    (now : ℕ) (m v : CacheMeta)
    → bonus m.tier ≡ 0
    → bonus v.tier ≡ pinned_bonus
    → m.hits + 1 ≤ pinned_bonus
    → score_lt now m v ≡ true
unfolding score_lt score_num score_den
below_bonus now m v np p few =
    rw (np, p)
      (lt→ltb _ _ (
        omega (
          arith,
          bonus_gap (m.hits + 1) (v.hits + 1) (now - m.last_access)
              (hour_ms + (now - v.last_access)) few (omega arith),
        )))

pinned_of_least :
    (now : ℕ) (m v : CacheMeta)
    → v.tier ≡ pinned
    → m.hits + 1 ≤ pinned_bonus
    → score_lt now m v ≡ false
    → m.tier ≡ pinned
pinned_of_least now m v p few least = go m.tier refl
  where
    go : (t : CacheTier) → m.tier ≡ t → m.tier ≡ pinned
    go pinned e = e
    go normal e = absurd (ground (arith, below_bonus now m v (ap bonus e) (ap bonus p) few))
    go media e = absurd (ground (arith, below_bonus now m v (ap bonus e) (ap bonus p) few))

-- A round removes a pinned entry only when every entry is pinned, as long as no entry has been read a
-- million million times.
pub victim-pinned :
    (now : ℕ) (ms : List CacheMeta) (v : CacheMeta) (rest : List CacheMeta)
    → sort_by_score now ms ≡ v ∷ rest
    → v.tier ≡ pinned
    → All (λ m. m.hits + 1 ≤ pinned_bonus) ms
    → All (λ m. m.tier ≡ pinned) ms
victim-pinned now ms v rest e p few = both ms few (victim-least now ms v rest e)
  where
    both :
        (xs : List CacheMeta)
        → All (λ m. m.hits + 1 ≤ pinned_bonus) xs
        → Least now v xs
        → All (λ m. m.tier ≡ pinned) xs
    both [] f l = tt
    both (x ∷ xs) f l = (pinned_of_least now x v p f.0 l.0, both xs f.1 l.1)
