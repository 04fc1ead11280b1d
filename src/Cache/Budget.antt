-- ===== src/Cache/Budget.antt =====
-- Eviction ends and makes room, and the writes keep the invariant and the budget.
use thassa.Base.{
  ℕ, zero, suc, ◌+◌, ◌≤◌, ◌<◌, ◌≡◌, refl, ap, ◌⊎◌, inl, inr, false, ltb, leb, Bool-cases, [],
  length, some, arith,
}
use thassa.Cache.{CacheMeta, budget_bytes}
use thassa.Cache.Entries.{find, sum_bytes, length-delete}
use thassa.Cache.Evict.{
  Cache, Deletes, remove_entry, drop_stale, sort_by_score, evict_loop, evict_to_fit,
}
use thassa.Cache.Invariant.{
  Inv, here, next, Shrinks-Inv, victim-find, List-cases, drop_stale-Shrinks, evict_loop-Shrinks,
  sort_by_score-nil, Standing_self,
}

shorter :
    {n : ℕ} (d : Deletes) (v : CacheMeta) (c : Cache)
    → find v.key c.manifest.entries ≡ some v
    → length c.manifest.entries < suc n
    → length (remove_entry d v c).manifest.entries < n
unfolding remove_entry
shorter d v c found h = omega (arith, length-delete v.key c.manifest.entries v found)

-- With fuel for every entry the loop ends by its own test: the incoming bytes fit, or nothing is left.
evict_loop-ends :
    (fuel : ℕ) (d : Deletes) (now incoming : ℕ) (c : Cache)
    → Inv c
    → length c.manifest.entries < fuel
    → let e = evict_loop fuel d now incoming c in
      (e.manifest.total_bytes + incoming ≤ budget_bytes) ⊎ (e.manifest.entries ≡ [])
unfolding evict_loop
evict_loop-ends zero d now incoming c i h = elim h [ ]
evict_loop-ends (suc fuel) d now incoming c i h =
    elim (Bool-cases (ltb budget_bytes (c.manifest.total_bytes + incoming))) [
      | inr fits ↦ rw (fits, evict_loop) (inl (ground arith))
      | inl over ↦ elim (List-cases (sort_by_score now c.manifest.entries)) [
        | inl none_left ↦
            rw (over, none_left, evict_loop)
              (inr (sort_by_score-nil now c.manifest.entries none_left))
        | inr (v, rest, e) ↦
            let found = victim-find now c v rest i e in
            rw (over, e, evict_loop)
              (evict_loop-ends fuel d now incoming (remove_entry d v c)
                (Shrinks-Inv (next c v here found) i) (shorter d v c found (omega arith)))
      ]
    ]

room :
    (d : Deletes) (now incoming : ℕ) (c : Cache)
    → Inv c
    → incoming ≤ budget_bytes
    → (evict_loop (suc (length c.manifest.entries)) d now incoming c).manifest.total_bytes
        + incoming
      ≤ budget_bytes
room d now incoming c i h =
    elim (evict_loop-ends (suc (length c.manifest.entries)) d now incoming c i (omega arith)) [
      | inl fits ↦ fits
      | inr emptied ↦
          let e = evict_loop (suc (length c.manifest.entries)) d now incoming c in
          let j : Inv e = Shrinks-Inv (evict_loop-Shrinks _ d now incoming c c i here) i in
          omega (arith, j.counted, ap sum_bytes emptied)
    ]

-- On a well-formed cache eviction reports room exactly for what is within the whole budget, and when it
-- reports room the incoming bytes and those that are left stay within the budget.
pub evict_to_fit-fits :
    (d : Deletes) (now incoming : ℕ) (c : Cache)
    → Inv c
    → ((evict_to_fit d now incoming c).1 ≡ leb incoming budget_bytes)
      × (((evict_to_fit d now incoming c).1 ≡ false)
          ⊎ ((evict_to_fit d now incoming c).0.manifest.total_bytes + incoming ≤ budget_bytes))
unfolding evict_to_fit
evict_to_fit-fits d now incoming c i = elim (Bool-cases (ltb budget_bytes incoming)) [
  | inl never ↦ rw never (ground arith, inl refl)
  | inr may ↦
      let fresh = drop_stale d now c.manifest.entries c in
      let s =
        drop_stale-Shrinks d now c.manifest.entries c c i.distinct
          (Standing_self c.manifest.entries i.distinct) here in
      let fits = room d now incoming fresh (Shrinks-Inv s i) (ground arith) in
      rw may (ground (arith, fits), inr fits)
]
