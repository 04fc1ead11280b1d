-- ===== src/Mention/SegmentLaws.antt =====
-- The segments of a caption.
use mathlib.Core.List.{append-nil}
use thassa.Base.{
  ℕ, zero, suc, ◌+◌, ◌-◌, ◌≤◌, ◌<◌, ◌≡◌, ◌∙◌, refl, sym, ap, true, false, if_cases, ltb, Text, List,
  [], ◌∷◌, ◌++◌, All, length, take, drop, take-append-drop, arith,
}
use thassa.Mention.{Mention}
use thassa.Mention.Token.{slice}
use thassa.Mention.Segment.{
  CaptionSegment, plain, mention, is_valid, valid, insert_by_start, sort_by_start, segments,
  segment_caption,
}

-- The characters that a segment stands for.
abbrev pub text_of : Text → CaptionSegment → Text
text_of caption (plain t) = t
text_of caption (mention m) = slice m.start (m.start + m.len) caption

abbrev text_of_all : Text → List CaptionSegment → Text
text_of_all caption [] = []
text_of_all caption (x ∷ xs) = text_of caption x ++ text_of_all caption xs

abbrev pub mentions_in : List CaptionSegment → List Mention
mentions_in [] = []
mentions_in (plain t ∷ xs) = mentions_in xs
mentions_in (mention m ∷ xs) = m ∷ mentions_in xs

-- In order from `cursor` on, none empty and none over another, and within a text of length `n`.
abbrev pub Ordered : ℕ → ℕ → List Mention → Type 0
Ordered n cursor [] = Unit
Ordered n cursor (m ∷ ms) =
    (cursor ≤ m.start) × (0 < m.len) × (m.start + m.len ≤ n) × Ordered n (m.start + m.len) ms

slice-drop : (a b : ℕ) (t : Text) → a ≤ b → slice a b t ++ drop b t ≡ drop a t
slice-drop zero b t l = let e : b - 0 ≡ b = omega arith in rw e (take-append-drop b t)
slice-drop (suc a) zero t l = elim l [ ]
slice-drop (suc a) (suc b) [] l = take_none (suc b - suc a)
  where
    take_none : (n : ℕ) → take {A = ℕ} n [] ++ [] ≡ []
    take_none zero = refl
    take_none (suc n) = refl
slice-drop (suc a) (suc b) (c ∷ t) l =
    let e : suc b - suc a ≡ b - a = omega arith in rw e (slice-drop a b t (omega arith))

drop_past : (n : ℕ) (t : Text) → length t ≤ n → drop n t ≡ []
drop_past zero [] l = refl
drop_past zero (c ∷ t) l = absurd (omega arith)
drop_past (suc n) [] l = refl
drop_past (suc n) (c ∷ t) l = drop_past n t (omega arith)

segments_text :
    (t : Text) (cursor : ℕ) (ms : List Mention)
    → text_of_all t (segments t cursor ms) ≡ drop cursor t
unfolding segments
segments_text t cursor [] =
    if_cases (λ xs. text_of_all t xs ≡ drop cursor t) (ltb cursor (length t))
      (λ _. append-nil (drop cursor t)) (λ past. sym (drop_past cursor t (ground arith)))
segments_text t cursor (m ∷ ms) =
    let end = m.start + m.len in
    let rest : slice m.start end t ++ text_of_all t (segments t end ms) ≡ drop m.start t =
      ap (◌++◌ (slice m.start end t)) (segments_text t end ms)
      ∙ slice-drop m.start end t (omega arith) in
    if_cases (λ xs. text_of_all t xs ≡ drop cursor t) (ltb m.start cursor)
      (λ _. segments_text t cursor ms)
      (λ within.
        if_cases (λ xs. text_of_all t xs ≡ drop cursor t) (ltb cursor m.start)
          (λ before.
            ap (◌++◌ (slice cursor m.start t)) rest ∙ slice-drop cursor m.start t (ground arith))
          (λ there. rest ∙ ap (λ k. drop k t) (meet within there)))
  where
    meet : ltb m.start cursor ≡ false → ltb cursor m.start ≡ false → m.start ≡ cursor
    meet a b = ground arith

-- The segments of a caption, put together again, are the caption: whatever the mentions are, no
-- character is lost, doubled or moved.
segment_caption_text :
    (caption : Text) (mentions : List Mention)
    → text_of_all caption (segment_caption caption mentions) ≡ caption
unfolding segment_caption
segment_caption_text [] mentions = refl
segment_caption_text (c ∷ s) mentions =
    segments_text (c ∷ s) 0 (sort_by_start (valid (c ∷ s) mentions))

valid_parts :
    (t : Text) (m : Mention)
    → is_valid t m ≡ true
    → (0 < m.len) × (m.start + m.len ≤ length t) × (0 < length m.username)
unfolding is_valid
valid_parts t m v = ground arith

-- The mentions are shown in order, inside the caption, none over another.
segments-Ordered :
    (t : Text) (cursor : ℕ) (ms : List Mention)
    → All (λ m. is_valid t m ≡ true) ms
    → Ordered (length t) cursor (mentions_in (segments t cursor ms))
unfolding segments
segments-Ordered t cursor [] v =
    if_cases (λ xs. Ordered (length t) cursor (mentions_in xs)) (ltb cursor (length t)) (λ _. tt)
      (λ _. tt)
segments-Ordered t cursor (m ∷ ms) (v, vs) =
    let rest = segments-Ordered t (m.start + m.len) ms vs in
    if_cases (λ xs. Ordered (length t) cursor (mentions_in xs)) (ltb m.start cursor)
      (λ _. segments-Ordered t cursor ms vs)
      (λ within.
        if_cases (λ xs. Ordered (length t) cursor (mentions_in xs)) (ltb cursor m.start)
          (λ _. shown within rest) (λ _. shown within rest))
  where
    shown :
        ltb m.start cursor ≡ false
        → Ordered (length t) (m.start + m.len) (mentions_in (segments t (m.start + m.len) ms))
        → Ordered (length t) cursor (mentions_in (mention m ∷ segments t (m.start + m.len) ms))
    shown w r = let (a, b, _) = valid_parts t m v in (ground arith, a, b, r)

insert_by_start-All :
    (P : Mention → Type 0) (m : Mention) (ms : List Mention)
    → P m
    → All P ms
    → All P (insert_by_start m ms)
unfolding insert_by_start
insert_by_start-All P m [] p ps = (p, tt)
insert_by_start-All P m (x ∷ xs) p (q, qs) =
    if_cases (All P) (ltb x.start m.start) (λ _. (q, insert_by_start-All P m xs p qs))
      (λ _. (p, (q, qs)))

sort_by_start-All : (P : Mention → Type 0) (ms : List Mention) → All P ms → All P (sort_by_start ms)
unfolding sort_by_start
sort_by_start-All P [] p = tt
sort_by_start-All P (m ∷ ms) (p, ps) =
    insert_by_start-All P m (sort_by_start ms) p (sort_by_start-All P ms ps)

valid-All : (t : Text) (ms : List Mention) → All (λ m. is_valid t m ≡ true) (valid t ms)
unfolding valid
valid-All t [] = tt
valid-All t (m ∷ ms) =
    if_cases (All (λ x. is_valid t x ≡ true)) (is_valid t m) (λ v. (v, valid-All t ms))
      (λ _. valid-All t ms)

-- The mentions among the segments are in order of their place, not empty, inside the caption and
-- none lies over another, whatever list the backend sent.
pub segment_caption-Ordered :
    (caption : Text) (mentions : List Mention)
    → Ordered (length caption) 0 (mentions_in (segment_caption caption mentions))
unfolding segment_caption
segment_caption-Ordered [] mentions = tt
segment_caption-Ordered (c ∷ s) mentions =
    segments-Ordered (c ∷ s) 0 (sort_by_start (valid (c ∷ s) mentions))
      (sort_by_start-All _ (valid (c ∷ s) mentions) (valid-All (c ∷ s) mentions))
