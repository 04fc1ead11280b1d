-- ===== src/Publish/Trimmed.antt =====
-- The mentions of a caption that is trimmed.
use mathlib.Core.List.{Memᴰ}
use mathlib.Core.List.Memᴰ
use mathlib.Core.Path.{subst}
use thassa.Base.{
  ℕ, zero, suc, ◌+◌, ◌-◌, ◌≤◌, leb, ◌≡◌, ◌↔◌, ◌∙◌, refl, sym, ap, ◌&&◌, if◌then◌else◌, Bool, true,
  false, Bool-cases, inl, inr, Text, List, [], ◌∷◌, length, take, drop, arith,
}
use thassa.Chat.{is_space, trim_start, trim_end, trim}
use thassa.Mention.{MentionInput}
use thassa.Publish.{lead_trim, final_mentions}

length-trim_start : (t : Text) → length (trim_start t) ≤ length t
unfolding trim_start
length-trim_start [] = omega arith
length-trim_start (c ∷ t) = ground (arith, length-trim_start t)

trim_start-drop : (t : Text) → trim_start t ≡ drop (lead_trim t) t
unfolding trim_start
trim_start-drop [] = refl
trim_start-drop (c ∷ t) =
    let e : length (c ∷ t) - length (trim_start t) ≡ suc (lead_trim t) =
      omega (arith, length-trim_start t) in
    let none_less : 0 ≡ length (c ∷ t) - length (c ∷ t) = omega arith in
    elim (Bool-cases (is_space c)) [
      | inl space ↦ rw space (trim_start-drop t ∙ ap (λ (n : ℕ). drop n (c ∷ t)) (sym e))
      | inr other ↦ rw other (ap (λ (n : ℕ). drop n (c ∷ t)) none_less)
    ]

trim_end-take : (t : Text) → trim_end t ≡ take (length (trim_end t)) t
unfolding trim_end
trim_end-take [] = refl
trim_end-take (c ∷ t) = go (trim_end t) (trim_end-take t)
  where
    go :
        (u : Text)
        → u ≡ take (length u) t
        → let e : Text = elim u [
          | [] ↦ (if is_space c then [] else c ∷ [])
          | (d ∷ v) ↦ c ∷ d ∷ v
        ] in
          e ≡ take (length e) (c ∷ t)
    go [] h = elim (Bool-cases (is_space c)) [ inl y ↦ rw y refl | inr n ↦ rw n refl ]
    go (d ∷ v) h = ap (λ (w : Text). c ∷ w) h

drop-nil : (n : ℕ) → drop {A = ℕ} n [] ≡ []
drop-nil zero = refl
drop-nil (suc n) = refl

drop-drop : (a b : ℕ) (t : Text) → drop a (drop b t) ≡ drop (b + a) t
drop-drop a zero t = (let e : a ≡ 0 + a = omega arith in ap (λ (n : ℕ). drop n t) e)
drop-drop a (suc b) [] = drop-nil a ∙ sym (drop-nil (suc b + a))
drop-drop a (suc b) (c ∷ t) =
    let e : suc (b + a) ≡ suc b + a = omega arith in
    drop-drop a b t ∙ ap (λ (n : ℕ). drop n (c ∷ t)) e

take-take : (k n : ℕ) (t : Text) → k ≤ n → take k (take n t) ≡ take k t
take-take zero n t h = refl
take-take (suc k) zero t h = absurd (omega arith)
take-take (suc k) (suc n) [] h = refl
take-take (suc k) (suc n) (c ∷ t) h = ap (λ (w : Text). c ∷ w) (take-take k n t (omega arith))

take-drop-take : (k a n : ℕ) (t : Text) → a + k ≤ n → take k (drop a (take n t)) ≡ take k (drop a t)
take-drop-take k zero n t h = take-take k n t (omega arith)
take-drop-take k (suc a) zero t h = absurd (omega arith)
take-drop-take k (suc a) (suc n) [] h = refl
take-drop-take k (suc a) (suc n) (c ∷ t) h = take-drop-take k a n t (omega arith)

-- The characters from an offset on.
abbrev pub slice : ℕ → ℕ → Text → Text
slice start len t = take len (drop start t)

-- A mention stays inside the trimmed caption.
abbrev pub Inside : Text → MentionInput → Type 0
Inside caption m =
    (lead_trim caption ≤ m.start) × (m.start - lead_trim caption + m.len ≤ length (trim caption))

abbrev pub shifted : Text → MentionInput → MentionInput
shifted caption m = record m { start = m.start - lead_trim caption }

slice-trim :
    (caption : Text) (m : MentionInput)
    → Inside caption m
    → slice (m.start - lead_trim caption) m.len (trim caption) ≡ slice m.start m.len caption
slice-trim caption m (low, high) =
    let a = m.start - lead_trim caption in
    let e : lead_trim caption + a ≡ m.start = omega (arith, low) in
    ap (slice a m.len) (trim_end-take (trim_start caption))
    ∙ take-drop-take m.len a (length (trim caption)) (trim_start caption) high
    ∙ ap (slice a m.len) (trim_start-drop caption)
    ∙ ap (take m.len) (drop-drop a (lead_trim caption) caption)
    ∙ ap (λ (n : ℕ). slice n m.len caption) e

-- What it means that `x` is sent for the mention `m`.
abbrev pub Sends : Text → MentionInput → MentionInput → Type 0
Sends caption m x =
    Inside caption m
    × (x ≡ shifted caption m)
    × (slice x.start x.len (trim caption) ≡ slice m.start m.len caption)

abbrev stays : Text → MentionInput → Bool
stays caption m =
    leb (lead_trim caption) m.start
    && leb (m.start - lead_trim caption + m.len) (length (trim caption))

stays→Inside : (caption : Text) (m : MentionInput) → stays caption m ≡ true → Inside caption m
stays→Inside caption m h = (ground (arith, h), ground (arith, h))

Inside→stays : (caption : Text) (m : MentionInput) → Inside caption m → stays caption m ≡ true
Inside→stays caption m (low, high) = ground (arith, low, high)

shifted-Sends :
    (caption : Text) (m x : MentionInput)
    → Inside caption m
    → x ≡ shifted caption m
    → Sends caption m x
shifted-Sends caption m x i e = (
  i,
  e,
  subst (λ (y : MentionInput). slice y.start y.len (trim caption) ≡ slice m.start m.len caption)
      (sym e) (slice-trim caption m i),
)

-- One mention, with those that are sent for the others.
sound_cons :
    (b : Bool) (caption : Text) (m : MentionInput) (ms rest : List MentionInput) (x : MentionInput)
    → stays caption m ≡ b
    → (Memᴰ x rest → (n : MentionInput) × Memᴰ n ms × Sends caption n x)
    → Memᴰ x (if b then shifted caption m ∷ rest else rest)
    → (n : MentionInput) × Memᴰ n (m ∷ ms) × Sends caption n x
sound_cons false caption m ms rest x q f k = let (n, d, r) = f k in (n, Memᴰ.tail d, r)
sound_cons true caption m ms rest x q f k = elim (Memᴰ.cases_cons k) [
  | inl e ↦ (m, Memᴰ.head refl, shifted-Sends caption m x (stays→Inside caption m q) e)
  | inr d ↦ let (n, d', r) = f d in (n, Memᴰ.tail d', r)
]

sound :
    (caption : Text) (ms : List MentionInput) (x : MentionInput)
    → Memᴰ x (final_mentions caption ms)
    → (m : MentionInput) × Memᴰ m ms × Sends caption m x
unfolding final_mentions
sound caption [] x h = elim h [ ]
sound caption (m ∷ ms) x h =
    sound_cons (stays caption m) caption m ms (final_mentions caption ms) x refl
      (sound caption ms x) h

complete_cons :
    (b : Bool) (caption : Text) (n m : MentionInput) (ms rest : List MentionInput)
    (x : MentionInput)
    → stays caption n ≡ b
    → (Memᴰ m ms → Memᴰ x rest)
    → Memᴰ m (n ∷ ms)
    → Sends caption m x
    → Memᴰ x (if b then shifted caption n ∷ rest else rest)
complete_cons true caption n m ms rest x q f h r = elim (Memᴰ.cases_cons h) [
  | inl e ↦ Memᴰ.head (r.1 ∙ ap (shifted caption) e)
  | inr d ↦ Memᴰ.tail (f d)
]
complete_cons false caption n m ms rest x q f h r = elim (Memᴰ.cases_cons h) [
  | inl e ↦ absurd (conflict (ap (stays caption) (sym e) ∙ Inside→stays caption m r.0) q)
  | inr d ↦ f d
]
  where
    conflict : {b : Bool} → b ≡ true → b ≡ false → ⊥
    conflict y z = ground arith

complete :
    (caption : Text) (ms : List MentionInput) (m x : MentionInput)
    → Memᴰ m ms
    → Sends caption m x
    → Memᴰ x (final_mentions caption ms)
unfolding final_mentions
complete caption [] m x h r = elim h [ ]
complete caption (n ∷ ms) m x h r =
    complete_cons (stays caption n) caption n m ms (final_mentions caption ms) x refl
      (λ d. complete caption ms m x d r) h r

-- The mentions that are sent are those that stay inside the caption once it is trimmed, each with its
-- offset moved; and a mention that is sent covers in the trimmed caption the characters that it
-- covered before.
pub final_mentions_iff :
    (caption : Text) (ms : List MentionInput) (x : MentionInput)
    → Memᴰ x (final_mentions caption ms) ↔ ((m : MentionInput) × Memᴰ m ms × Sends caption m x)
final_mentions_iff caption ms x =
    (λ h. sound caption ms x h, λ (m, h, r). complete caption ms m x h r)
