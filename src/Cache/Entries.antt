-- ===== src/Cache/Entries.antt =====
-- The object `entries` of the manifest: a list of entries, looked up by key.
use thassa.Base.{
  ℕ, ◌+◌, ◌≡◌, refl, ◌≢◌, if◌then◌else◌, Text, text_eq, text_eq_iff, List, [], ◌∷◌, Option, none,
  some, length, All, arith, Bool-cases, inl, inr,
}
use mathlib.Core.Path.{subst}
use thassa.Cache.{CacheMeta}

-- `entries[key]`.
unfoldable pub find : Text → List CacheMeta → Option CacheMeta
find k [] = none
find k (m ∷ ms) = if text_eq m.key k then some m else find k ms

-- `delete entries[key]`.
unfoldable pub delete : Text → List CacheMeta → List CacheMeta
delete k [] = []
delete k (m ∷ ms) = if text_eq m.key k then ms else m ∷ delete k ms

-- The entry under a key, changed in place.
unfoldable pub modify : Text → (CacheMeta → CacheMeta) → List CacheMeta → List CacheMeta
modify k f [] = []
modify k f (m ∷ ms) = if text_eq m.key k then f m ∷ ms else m ∷ modify k f ms

abbrev pub sum_bytes : List CacheMeta → ℕ
sum_bytes [] = 0
sum_bytes (m ∷ ms) = m.bytes + sum_bytes ms

-- No key stands twice.
abbrev pub Distinct : List CacheMeta → Type 0
Distinct [] = Unit {0}
Distinct (m ∷ ms) = (find m.key ms ≡ none) × Distinct ms

pub find-key : (k : Text) (ms : List CacheMeta) (m : CacheMeta) → find k ms ≡ some m → m.key ≡ k
unfolding find
find-key k [] m h = ground arith
find-key k (x ∷ ms) m h = ground (arith, text_eq_iff x.key k, find-key k ms m)

pub find-delete_ne : (k j : Text) (ms : List CacheMeta) → j ≢ k → find j (delete k ms) ≡ find j ms
unfolding find delete
find-delete_ne k j [] h = refl
find-delete_ne k j (x ∷ ms) h =
    ground (arith, text_eq_iff x.key k, text_eq_iff x.key j, find-delete_ne k j ms)

pub find-delete_self : (k : Text) (ms : List CacheMeta) → Distinct ms → find k (delete k ms) ≡ none
unfolding find delete
find-delete_self k [] d = refl
find-delete_self k (x ∷ ms) d = ground (arith, text_eq_iff x.key k, find-delete_self k ms)

pub find-none-delete :
    (k j : Text) (ms : List CacheMeta) → find j ms ≡ none → find j (delete k ms) ≡ none
unfolding find delete
find-none-delete k j [] h = refl
find-none-delete k j (x ∷ ms) h = ground (arith, find-none-delete k j ms)

pub delete-Distinct : (k : Text) (ms : List CacheMeta) → Distinct ms → Distinct (delete k ms)
unfolding delete
delete-Distinct k [] d = tt
delete-Distinct k (x ∷ ms) d = ground (arith, delete-Distinct k ms, find-none-delete k x.key ms)

pub sum_bytes-delete :
    (k : Text) (ms : List CacheMeta) (m : CacheMeta)
    → find k ms ≡ some m
    → sum_bytes ms ≡ m.bytes + sum_bytes (delete k ms)
unfolding find delete
sum_bytes-delete k [] m h = ground arith
sum_bytes-delete k (x ∷ ms) m h = ground (arith, sum_bytes-delete k ms m)

pub length-delete :
    (k : Text) (ms : List CacheMeta) (m : CacheMeta)
    → find k ms ≡ some m
    → length ms ≡ length (delete k ms) + 1
unfolding find delete
length-delete k [] m h = ground arith
length-delete k (x ∷ ms) m h = ground (arith, length-delete k ms m)

pub delete-All {κ} :
    (P : CacheMeta → Type κ) (k : Text) (ms : List CacheMeta) → All P ms → All P (delete k ms)
unfolding delete
delete-All P k [] h = h
delete-All P k (x ∷ ms) h = ground (arith, delete-All P k ms)

pub find-All {κ} :
    (P : CacheMeta → Type κ) (k : Text) (ms : List CacheMeta) (m : CacheMeta)
    → find k ms ≡ some m
    → All P ms
    → P m
unfolding find
find-All P k [] m e h = absurd (ground arith)
find-All P k (x ∷ ms) m e h = elim (Bool-cases (text_eq x.key k)) [
  | inl hit ↦ subst P (ground arith) h.0
  | inr miss ↦ find-All P k ms m (ground arith) h.1
]
