-- ===== src/Create/Ids.antt =====
-- The ids that a post carries: the start of `post`, on the media as they are once all have settled.
use mathlib.Core.Path.{subst}
use thassa.Base.{
  ℕ, suc, ◌≡◌, ◌≢◌, ◌↔◌, refl, sym, ap, ◌∙◌, ◌==◌, ltb, ◌||◌, if_cases, if◌then◌else◌, Bool, true,
  false, Text, codes, List, [], ◌∷◌, ◌++◌, map, length, arith,
}
use thassa.Api.{Outcome, returns, throws, other_error}
use thassa.Format.Money.{decimal}
use thassa.Create.{UploadStatus, queued, uploading, ready, failed, MediaItem}
use thassa.Create.Media.{is_failed}

unfoldable pub failures : List MediaItem → ℕ
failures [] = 0
failures (m ∷ ms) = if is_failed m.status then suc (failures ms) else failures ms

abbrev pub id_of : UploadStatus → Text
id_of queued = []
id_of (uploading f) = []
id_of (ready id) = id
id_of (failed message) = []

abbrev pub is_empty : Text → Bool
is_empty [] = true
is_empty (c ∷ t) = false

unfoldable pub some_empty : List Text → Bool
some_empty [] = false
some_empty (id ∷ ids) = is_empty id || some_empty ids

abbrev pub failure_text : ℕ → ℕ → Text
failure_text count all =
    if count == all
    then codes "Media upload failed. Tap retry on the attachment, then post again."
    else decimal count
      ++ codes " upload"
      ++ (if ltb 1 count then codes "s" else [])
      ++ codes " failed. Retry them, then post again."

unfoldable pub media_ids : List MediaItem → Outcome (List Text)
media_ids items =
    let ids = map (λ (m : MediaItem). id_of m.status) items in
    if ltb 0 (failures items)
    then throws (other_error (failure_text (failures items) (length items)))
    else if some_empty ids
    then throws (other_error (codes "Media isn't ready yet. Try again."))
    else returns ids

-- The items are ready under these ids, none of them empty.
abbrev pub Ready : List MediaItem → List Text → Type 0
Ready [] [] = Unit {0}
Ready [] (id ∷ ids) = ⊥
Ready (m ∷ ms) [] = ⊥
Ready (m ∷ ms) (id ∷ ids) = (m.status ≡ ready id) × (id ≢ []) × Ready ms ids

ids_of : List MediaItem → List Text
ids_of items = map (λ (m : MediaItem). id_of m.status) items

not_empty : (id : Text) → is_empty id ≡ false → id ≢ []
not_empty id h e = let k : true ≡ false = sym (ap is_empty e) ∙ h in ground (arith, k)

ready_status : (s : UploadStatus) → is_empty (id_of s) ≡ false → s ≡ ready (id_of s)
ready_status queued h = ground (arith, h)
ready_status (uploading f) h = ground (arith, h)
ready_status (ready id) h = refl
ready_status (failed message) h = ground (arith, h)

All-Ready : (ms : List MediaItem) → some_empty (ids_of ms) ≡ false → Ready ms (ids_of ms)
unfolding some_empty ids_of
All-Ready [] h = tt
All-Ready (m ∷ ms) h =
    let first : is_empty (id_of m.status) ≡ false = ground (arith, h) in
    let rest : some_empty (ids_of ms) ≡ false = ground (arith, h) in
    (ready_status m.status first, not_empty (id_of m.status) first, All-Ready ms rest)

returns_same : (a b : List Text) → returns a ≡ returns b → a ≡ b
returns_same a b = ap (λ (o : Outcome (List Text)). elim o [ throws e ↦ a | returns x ↦ x ])

is_returned : Outcome (List Text) → Bool
is_returned (throws e) = false
is_returned (returns x) = true

media_ids-Ready :
    (ms : List MediaItem) (ids : List Text) → media_ids ms ≡ returns ids → Ready ms ids
unfolding media_ids ids_of is_returned
media_ids-Ready ms ids =
    if_cases (λ (o : Outcome (List Text)). o ≡ returns ids → Ready ms ids) (ltb 0 (failures ms))
      (λ f e. absurd (never _ e))
      (λ f.
        if_cases (λ (o : Outcome (List Text)). o ≡ returns ids → Ready ms ids)
          (some_empty (ids_of ms)) (λ g e. absurd (never _ e))
          (λ g e. subst (Ready ms) (returns_same (ids_of ms) ids e) (All-Ready ms g)))
  where
    never : (x : _) → throws x ≡ returns ids → ⊥
    never x e = let k : false ≡ true = ap is_returned e in ground (arith, k)

no_failures : (ms : List MediaItem) (ids : List Text) → Ready ms ids → failures ms ≡ 0
unfolding failures
no_failures [] [] r = refl
no_failures [] (id ∷ ids) r = absurd r
no_failures (m ∷ ms) [] r = absurd r
no_failures (m ∷ ms) (id ∷ ids) (e, n, r) = rw e (no_failures ms ids r)

ids_of-Ready : (ms : List MediaItem) (ids : List Text) → Ready ms ids → ids_of ms ≡ ids
unfolding ids_of
ids_of-Ready [] [] r = refl
ids_of-Ready [] (id ∷ ids) r = absurd r
ids_of-Ready (m ∷ ms) [] r = absurd r
ids_of-Ready (m ∷ ms) (id ∷ ids) (e, n, r) = rw (e, ids_of-Ready ms ids r) refl

empty_not : (id : Text) → id ≢ [] → is_empty id ≡ false
empty_not [] n = absurd (n refl)
empty_not (c ∷ id) n = refl

none_empty : (ms : List MediaItem) (ids : List Text) → Ready ms ids → some_empty ids ≡ false
unfolding some_empty
none_empty [] [] r = refl
none_empty [] (id ∷ ids) r = absurd r
none_empty (m ∷ ms) [] r = absurd r
none_empty (m ∷ ms) (id ∷ ids) (e, n, r) = rw (empty_not id n, none_empty ms ids r) refl

Ready-media_ids :
    (ms : List MediaItem) (ids : List Text) → Ready ms ids → media_ids ms ≡ returns ids
unfolding media_ids ids_of
Ready-media_ids ms ids r =
    rw (no_failures ms ids r, ids_of-Ready ms ids r, none_empty ms ids r) refl

-- A post goes on with these ids exactly if every item is ready with its id, in this order, and no id is
-- empty; else it stops with an error.
media_ids_iff :
    (ms : List MediaItem) (ids : List Text) → (media_ids ms ≡ returns ids) ↔ Ready ms ids
media_ids_iff ms ids = (media_ids-Ready ms ids, Ready-media_ids ms ids)
