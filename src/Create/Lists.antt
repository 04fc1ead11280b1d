-- ===== src/Create/Lists.antt =====
-- Lists of media: what is kept when items are changed in place, taken out or put in.
use mathlib.Core.Path.{subst}
use thassa.Base.{
  ℕ, suc, ◌+◌, ◌<◌, ◌≤◌, ◌≡◌, ◌≢◌, refl, sym, ap, ◌∙◌, if◌then◌else◌, true, List, [], ◌∷◌, map,
  length, All, arith,
}
use thassa.Create.{MediaItem}
use thassa.Create.Media.{is_uploading, active}

-- No item has the key `k`.
abbrev pub Without : ℕ → List MediaItem → Type 0
Without k = All (λ m. m.key ≢ k)

-- No key stands twice.
abbrev pub Apart : List MediaItem → Type 0
Apart [] = Unit {0}
Apart (m ∷ ms) = Without m.key ms × Apart ms

abbrev pub Below : ℕ → List MediaItem → Type 0
Below n = All (λ m. m.key < n)

pub All-map :
    (P Q : MediaItem → Type 0) (g : MediaItem → MediaItem)
    → ((m : MediaItem) → P m → Q (g m))
    → (ms : List MediaItem) → All P ms
    → All Q (map g ms)
All-map P Q g h [] a = tt
All-map P Q g h (m ∷ ms) (p, a) = (h m p, All-map P Q g h ms a)

-- A change that keeps the keys.
abbrev pub KeepsKey : (MediaItem → MediaItem) → Type 0
KeepsKey g = (m : MediaItem) → (g m).key ≡ m.key

pub map-Without :
    (g : MediaItem → MediaItem) (k : ℕ) (ms : List MediaItem)
    → KeepsKey g
    → Without k ms
    → Without k (map g ms)
map-Without g k ms h = All-map _ _ g (λ m p e. p (sym (h m) ∙ e)) ms

pub map-Apart :
    (g : MediaItem → MediaItem) (ms : List MediaItem) → KeepsKey g → Apart ms → Apart (map g ms)
map-Apart g [] h a = tt
map-Apart g (m ∷ ms) h (w, a) =
    (subst (λ k. Without k (map g ms)) (sym (h m)) (map-Without g m.key ms h w), map-Apart g ms h a)

pub map-Below :
    (g : MediaItem → MediaItem) (n : ℕ) (ms : List MediaItem)
    → KeepsKey g
    → Below n ms
    → Below n (map g ms)
map-Below g n ms h = All-map _ _ g (λ m p. subst (λ k. k < n) (sym (h m)) p) ms

pub length-map : (g : MediaItem → MediaItem) (ms : List MediaItem) → length (map g ms) ≡ length ms
length-map g [] = refl
length-map g (m ∷ ms) = ap suc (length-map g ms)

-- A change that starts no upload.
abbrev pub Starts : (MediaItem → MediaItem) → Type 0
Starts g = (m : MediaItem) → is_uploading (g m).status ≡ true → is_uploading m.status ≡ true

pub active-cons :
    (m : MediaItem) (ms : List MediaItem)
    → active (m ∷ ms) ≡ (if is_uploading m.status then 1 else 0) + active ms
unfolding active
active-cons m ms = ground arith

pub active-map :
    (g : MediaItem → MediaItem) (ms : List MediaItem) → Starts g → active (map g ms) ≤ active ms
active-map g [] h = omega arith
active-map g (m ∷ ms) h =
    rw (active-cons (g m) (map g ms), active-cons m ms) (ground (arith, active-map g ms h, h m))
