-- ===== src/Cache/Append.antt =====
-- An entry put at the end of the entries.
use thassa.Base.{
  ℕ, ◌+◌, ◌≤◌, ◌<◌, ◌≡◌, refl, if◌then◌else◌, Text, text_eq, text_eq_iff, List, [], ◌∷◌, ◌++◌, All,
  none, some, arith,
}
use thassa.Cache.{CacheMeta}
use thassa.Cache.Entries.{find, sum_bytes, Distinct}
use thassa.Cache.Invariant.{number, Rising}

pub sum_bytes-append :
    (ms : List CacheMeta) (m : CacheMeta) → sum_bytes (ms ++ m ∷ []) ≡ sum_bytes ms + m.bytes
sum_bytes-append [] m = omega arith
sum_bytes-append (x ∷ ms) m = omega (arith, sum_bytes-append ms m)

pub find-append :
    (k : Text) (ms : List CacheMeta) (m : CacheMeta)
    → find k (ms ++ m ∷ [])
      ≡ elim (find k ms) [ some x ↦ some x | none ↦ if text_eq m.key k then some m else none ]
unfolding find
find-append k [] m = refl
find-append k (x ∷ ms) m = ground (arith, find-append k ms m)

pub append-Distinct :
    (ms : List CacheMeta) (m : CacheMeta)
    → find m.key ms ≡ none
    → Distinct ms
    → Distinct (ms ++ m ∷ [])
unfolding find
append-Distinct [] m h d = (refl, tt)
append-Distinct (x ∷ ms) m h d = ground (
  arith,
  append-Distinct ms m,
  find-append x.key ms m,
  text_eq_iff m.key x.key,
  text_eq_iff x.key m.key,
)

pub append-All {κ} :
    (P : CacheMeta → Type κ) (ms : List CacheMeta) (m : CacheMeta)
    → All P ms
    → P m
    → All P (ms ++ m ∷ [])
append-All P [] m h p = (p, tt)
append-All P (x ∷ ms) m h p = (h.0, append-All P ms m h.1 p)

pub append-Rising :
    (n : ℕ) (ms : List CacheMeta) (m : CacheMeta)
    → All (λ x. number x.file ≤ n) ms
    → n < number m.file
    → Rising ms
    → Rising (ms ++ m ∷ [])
append-Rising n [] m u h r = (tt, tt)
append-Rising n (x ∷ ms) m u h r = (
  append-All (λ y. number x.file < number y.file) ms m r.0 (omega arith),
  append-Rising n ms m u.1 h r.1,
)
