-- ===== src/Mention/Segment.antt =====
-- A caption cut into text and mentions.
use thassa.Base.{ℕ, ◌+◌, Bool, ◌&&◌, ltb, leb, if◌then◌else◌, Text, List, [], ◌∷◌, length, drop}
use thassa.Mention.{Mention}
use thassa.Mention.Token.{slice}

pub data CaptionSegment : Type 0 where
  plain : Text → CaptionSegment
  mention : Mention → CaptionSegment

-- The filter: offsets are numbers, which are finite and not negative.
unfoldable pub is_valid : Text → Mention → Bool
is_valid caption m =
    ltb 0 m.len && leb (m.start + m.len) (length caption) && ltb 0 (length m.username)

unfoldable pub valid : Text → List Mention → List Mention
valid caption [] = []
valid caption (m ∷ ms) = if is_valid caption m then m ∷ valid caption ms else valid caption ms

-- The sort by start is stable.
unfoldable pub insert_by_start : Mention → List Mention → List Mention
insert_by_start m [] = m ∷ []
insert_by_start m (x ∷ xs) = if ltb x.start m.start then x ∷ insert_by_start m xs else m ∷ x ∷ xs

unfoldable pub sort_by_start : List Mention → List Mention
sort_by_start [] = []
sort_by_start (m ∷ ms) = insert_by_start m (sort_by_start ms)

-- The loop, with the cursor; at its end the rest of the text.
unfoldable pub segments : Text → ℕ → List Mention → List CaptionSegment
segments caption cursor [] =
    if ltb cursor (length caption) then plain (drop cursor caption) ∷ [] else []
segments caption cursor (m ∷ ms) =
    let skipped = segments caption cursor ms in
    let rest = mention m ∷ segments caption (m.start + m.len) ms in
    if ltb m.start cursor
    then skipped
    else if ltb cursor m.start
    then plain (slice cursor m.start caption) ∷ rest
    else rest

unfoldable pub segment_caption : Text → List Mention → List CaptionSegment
segment_caption [] mentions = []
segment_caption (c ∷ s) mentions = segments (c ∷ s) 0 (sort_by_start (valid (c ∷ s) mentions))
