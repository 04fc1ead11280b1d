-- ===== src/Mention/Compose.antt =====
-- What the composer counted is what is shown.
use thassa.Base.{
  ℕ, ◌+◌, ◌≤◌, ◌<◌, ◌≡◌, refl, sym, ap, true, if_cases, ltb, Text, List, [], ◌∷◌, All, length,
  arith,
}
use thassa.Mention.{Mention}
use thassa.Mention.Segment.{
  is_valid, valid, insert_by_start, sort_by_start, segments, segment_caption,
}
use thassa.Mention.SegmentLaws.{Ordered, mentions_in}

abbrev pub Named : Mention → Type 0
Named m = 0 < length m.username

is_valid_of :
    (t : Text) (m : Mention)
    → Named m
    → 0 < m.len
    → m.start + m.len ≤ length t
    → is_valid t m ≡ true
unfolding is_valid
is_valid_of t m u l r = ground arith

valid-Ordered :
    (t : Text) (cursor : ℕ) (ms : List Mention)
    → Ordered (length t) cursor ms
    → All Named ms
    → valid t ms ≡ ms
unfolding valid
valid-Ordered t cursor [] o u = refl
valid-Ordered t cursor (m ∷ ms) (_, l, r, o) (u, us) =
    rw (is_valid_of t m u l r) (ap (◌∷◌ m) (valid-Ordered t (m.start + m.len) ms o us))

insert_by_start-Ordered :
    (n cursor : ℕ) (m : Mention) (ms : List Mention)
    → Ordered n cursor (m ∷ ms)
    → insert_by_start m ms ≡ m ∷ ms
unfolding insert_by_start
insert_by_start-Ordered n cursor m [] o = refl
insert_by_start-Ordered n cursor m (x ∷ xs) (_, _, _, (b, _, _, _)) =
    if_cases (λ ys. ys ≡ m ∷ x ∷ xs) (ltb x.start m.start) (λ l. absurd (before l)) (λ _. refl)
  where
    before : ltb x.start m.start ≡ true → ⊥
    before l = ground arith

sort_by_start-Ordered :
    (n cursor : ℕ) (ms : List Mention) → Ordered n cursor ms → sort_by_start ms ≡ ms
unfolding sort_by_start
sort_by_start-Ordered n cursor [] o = refl
sort_by_start-Ordered n cursor (m ∷ ms) (a, l, r, o) =
    rw (sort_by_start-Ordered n (m.start + m.len) ms o)
      (insert_by_start-Ordered n cursor m ms (a, l, r, o))

segments-Ordered-mentions :
    (t : Text) (n cursor : ℕ) (ms : List Mention)
    → Ordered n cursor ms
    → mentions_in (segments t cursor ms) ≡ ms
unfolding segments
segments-Ordered-mentions t n cursor [] o =
    if_cases (λ xs. mentions_in xs ≡ []) (ltb cursor (length t)) (λ _. refl) (λ _. refl)
segments-Ordered-mentions t n cursor (m ∷ ms) (a, l, r, o) =
    let rest : m ∷ mentions_in (segments t (m.start + m.len) ms) ≡ m ∷ ms =
      ap (◌∷◌ m) (segments-Ordered-mentions t n (m.start + m.len) ms o) in
    if_cases (λ xs. mentions_in xs ≡ m ∷ ms) (ltb m.start cursor) (λ b. absurd (before b))
      (λ _. if_cases (λ xs. mentions_in xs ≡ m ∷ ms) (ltb cursor m.start) (λ _. rest) (λ _. rest))
  where
    before : ltb m.start cursor ≡ true → ⊥
    before b = ground arith

no_room : (t : Text) (ms : List Mention) → length t ≡ 0 → Ordered (length t) 0 ms → ms ≡ []
no_room t [] e o = refl
no_room t (m ∷ ms) e (a, l, r, o) = absurd (omega arith)

-- Every mention is shown, as it stands, when the list is in order without overlaps inside the
-- caption and every username is there.
pub segment_caption_keeps :
    (caption : Text) (ms : List Mention)
    → Ordered (length caption) 0 ms
    → All Named ms
    → mentions_in (segment_caption caption ms) ≡ ms
unfolding segment_caption
segment_caption_keeps [] ms o u = sym (no_room [] ms refl o)
segment_caption_keeps (c ∷ s) ms o u =
    rw (valid-Ordered (c ∷ s) 0 ms o u, sort_by_start-Ordered (length (c ∷ s)) 0 ms o)
      (segments-Ordered-mentions (c ∷ s) (length (c ∷ s)) 0 ms o)
