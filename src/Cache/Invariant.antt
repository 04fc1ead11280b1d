-- ===== src/Cache/Invariant.antt =====
-- The well-formedness of a cache, and removals, of which every eviction is made.
use thassa.Base.{
  ℕ, zero, suc, ◌+◌, ◌≤◌, ◌<◌, ◌≡◌, refl, ◌≢◌, ◌∙◌, ◌⊎◌, inl, inr, ltb, Bool-cases, Text,
  text_eq_iff, text_eq_refl, List, [], ◌∷◌, All, none, some, arith,
}
use mathlib.Core.Path.{subst}
use thassa.Cache.{CacheMeta, FileName, dat, bin, budget_bytes, is_stale, score_lt}
use thassa.Cache.Entries.{
  find, delete, sum_bytes, Distinct, find-delete_ne, delete-Distinct, sum_bytes-delete, delete-All,
}
use thassa.Cache.Evict.{
  Cache, Deletes, remove_entry, drop_stale, insert_by_score, sort_by_score, evict_loop,
  evict_to_fit,
}

abbrev pub number : FileName → ℕ
number (dat n) = n
number (bin n) = n

-- The sequence numbers of the files rise along the entries.
abbrev pub Rising : List CacheMeta → Type 0
Rising [] = Unit {0}
Rising (m ∷ ms) = All (λ x. number m.file < number x.file) ms × Rising ms

-- The total is the sum of the entries' sizes, no key stands twice, and no two entries share a file or
-- have one that the next sequence number could name.
pub record Inv (c : Cache) : Type 0 where
  pub counted : c.manifest.total_bytes ≡ sum_bytes c.manifest.entries
  pub distinct : Distinct c.manifest.entries
  pub rising : Rising c.manifest.entries
  pub used : All (λ m. number m.file ≤ c.manifest.seq) c.manifest.entries

delete-Rising : (k : Text) (ms : List CacheMeta) → Rising ms → Rising (delete k ms)
unfolding delete
delete-Rising k [] r = tt
delete-Rising k (m ∷ ms) r =
    ground (arith, delete-Rising k ms r.1, delete-All (λ x. number m.file < number x.file) k ms r.0)

pub remove_entry-Inv :
    (d : Deletes) (m : CacheMeta) (c : Cache)
    → find m.key c.manifest.entries ≡ some m
    → Inv c
    → Inv (remove_entry d m c)
unfolding remove_entry
remove_entry-Inv d m c found i = record {
  counted = omega (arith, i.counted, sum_bytes-delete m.key c.manifest.entries m found);
  distinct = delete-Distinct m.key c.manifest.entries i.distinct;
  rising = delete-Rising m.key c.manifest.entries i.rising;
  used = delete-All (λ x. number x.file ≤ c.manifest.seq) m.key c.manifest.entries i.used;
}

-- What removals of entries that stand lead to.
pub data Shrinks (d : Deletes) (c : Cache) : Cache → Type 0 where
  here : Shrinks d c c
  next :
      (e : Cache) (m : CacheMeta)
      → Shrinks d c e
      → find m.key e.manifest.entries ≡ some m
      → Shrinks d c (remove_entry d m e)

pub Shrinks-Inv : {d : Deletes} {c e : Cache} → Shrinks d c e → Inv c → Inv e
Shrinks-Inv here i = i
Shrinks-Inv {d} (next e m s found) i = remove_entry-Inv d m e found (Shrinks-Inv s i)

-- Every entry of the list stands in the cache.
abbrev pub Standing : Cache → List CacheMeta → Type 0
Standing c = All (λ m. find m.key c.manifest.entries ≡ some m)

find-cons :
    (k : Text) (m x : CacheMeta) (ms : List CacheMeta)
    → find m.key ms ≡ none
    → find k ms ≡ some x
    → find k (m ∷ ms) ≡ some x
unfolding find
find-cons k m x ms absent found = ground (arith, text_eq_iff m.key k)

pub All-map {ℓ κ μ} :
    {A : Type ℓ} (P : A → Type κ) (Q : A → Type μ) (xs : List A)
    → ((x : A) → P x → Q x)
    → All P xs
    → All Q xs
All-map P Q [] f h = tt
All-map P Q (x ∷ xs) f h = (f x h.0, All-map P Q xs f h.1)

find-head : (m : CacheMeta) (ms : List CacheMeta) → find m.key (m ∷ ms) ≡ some m
unfolding find
find-head m ms = rw (text_eq_refl m.key)

pub Standing_self : (ms : List CacheMeta) → Distinct ms → All (λ m. find m.key ms ≡ some m) ms
Standing_self [] d = tt
Standing_self (m ∷ ms) d = (
  find-head m ms,
  All-map (λ x. find x.key ms ≡ some x) _ ms (λ x. find-cons x.key m x ms d.0)
      (Standing_self ms d.1),
)

ne_of_absent : (k : Text) (ms : List CacheMeta) → find k ms ≡ none → All (λ x. x.key ≢ k) ms
unfolding find
ne_of_absent k [] h = tt
ne_of_absent k (x ∷ ms) h = (
  (λ e. ground (arith, text_eq_iff x.key k)),
  ne_of_absent k ms (ground (arith, text_eq_iff x.key k)),
)

Standing-remove :
    (d : Deletes) (c : Cache) (m : CacheMeta) (ms : List CacheMeta)
    → All (λ x. x.key ≢ m.key) ms
    → Standing c ms
    → Standing (remove_entry d m c) ms
unfolding remove_entry
Standing-remove d c m [] ne s = tt
Standing-remove d c m (x ∷ ms) ne s =
    (find-delete_ne m.key x.key c.manifest.entries ne.0 ∙ s.0, Standing-remove d c m ms ne.1 s.1)

pub drop_stale-Shrinks :
    (d : Deletes) (now : ℕ) (ms : List CacheMeta) (b c : Cache)
    → Distinct ms
    → Standing c ms
    → Shrinks d b c
    → Shrinks d b (drop_stale d now ms c)
unfolding drop_stale
drop_stale-Shrinks d now [] b c dis st s = s
drop_stale-Shrinks d now (m ∷ ms) b c dis st s = elim (Bool-cases (is_stale m now)) [
  | inl stale ↦ rw stale (
      drop_stale-Shrinks d now ms b (remove_entry d m c) dis.1
        (Standing-remove d c m ms (ne_of_absent m.key ms dis.0) st.1) (next c m s st.0))
  | inr kept ↦ rw kept (drop_stale-Shrinks d now ms b c dis.1 st.1 s)
]

pub insert_by_score-All {κ} :
    (P : CacheMeta → Type κ) (now : ℕ) (m : CacheMeta) (ms : List CacheMeta)
    → P m
    → All P ms
    → All P (insert_by_score now m ms)
unfolding insert_by_score
insert_by_score-All P now m [] p h = (p, tt)
insert_by_score-All P now m (x ∷ ms) p h = elim (Bool-cases (score_lt now x m)) [
  | inl lower ↦ rw lower (h.0, insert_by_score-All P now m ms p h.1)
  | inr upper ↦ rw upper (p, h)
]

pub sort_by_score-All {κ} :
    (P : CacheMeta → Type κ) (now : ℕ) (ms : List CacheMeta)
    → All P ms
    → All P (sort_by_score now ms)
unfolding sort_by_score
sort_by_score-All P now [] h = tt
sort_by_score-All P now (m ∷ ms) h =
    insert_by_score-All P now m (sort_by_score now ms) h.0 (sort_by_score-All P now ms h.1)

insert_by_score-ne_nil :
    (now : ℕ) (m : CacheMeta) (ms : List CacheMeta) → insert_by_score now m ms ≢ []
unfolding insert_by_score
insert_by_score-ne_nil now m [] h = cc
insert_by_score-ne_nil now m (x ∷ ms) h = ground arith

pub sort_by_score-nil : (now : ℕ) (ms : List CacheMeta) → sort_by_score now ms ≡ [] → ms ≡ []
unfolding sort_by_score
sort_by_score-nil now [] h = refl
sort_by_score-nil now (m ∷ ms) h = absurd (insert_by_score-ne_nil now m (sort_by_score now ms) h)

pub List-cases {ℓ} :
    {A : Type ℓ} (xs : List A) → (xs ≡ []) ⊎ ((x : A) × (ys : List A) × (xs ≡ x ∷ ys))
List-cases [] = inl refl
List-cases (x ∷ ys) = inr (x, ys, refl)

-- The first entry of the sort stands in the cache.
pub victim-find :
    (now : ℕ) (c : Cache) (v : CacheMeta) (rest : List CacheMeta)
    → Inv c
    → sort_by_score now c.manifest.entries ≡ v ∷ rest
    → find v.key c.manifest.entries ≡ some v
victim-find now c v rest i e =
    (subst (Standing c) e
      (sort_by_score-All _ now c.manifest.entries (Standing_self c.manifest.entries i.distinct))).0

pub evict_loop-Shrinks :
    (fuel : ℕ) (d : Deletes) (now incoming : ℕ) (b c : Cache)
    → Inv b
    → Shrinks d b c
    → Shrinks d b (evict_loop fuel d now incoming c)
unfolding evict_loop
evict_loop-Shrinks zero d now incoming b c i s = s
evict_loop-Shrinks (suc fuel) d now incoming b c i s =
    elim (Bool-cases (ltb budget_bytes (c.manifest.total_bytes + incoming))) [
      | inr fits ↦ rw (fits, evict_loop) s
      | inl over ↦ elim (List-cases (sort_by_score now c.manifest.entries)) [
        | inl none_left ↦ rw (over, none_left, evict_loop) s
        | inr (v, rest, e) ↦
            rw (over, e, evict_loop)
              (evict_loop-Shrinks fuel d now incoming b (remove_entry d v c) i
                (next c v s (victim-find now c v rest (Shrinks-Inv s i) e)))
      ]
    ]

-- Eviction only removes entries.
pub evict_to_fit-Shrinks :
    (d : Deletes) (now incoming : ℕ) (c : Cache)
    → Inv c
    → Shrinks d c (evict_to_fit d now incoming c).0
unfolding evict_to_fit
evict_to_fit-Shrinks d now incoming c i = elim (Bool-cases (ltb budget_bytes incoming)) [
  | inl never ↦ rw never here
  | inr may ↦ rw may (
      evict_loop-Shrinks _ d now incoming c _ i (
        drop_stale-Shrinks d now c.manifest.entries c c i.distinct
          (Standing_self c.manifest.entries i.distinct) here))
]
