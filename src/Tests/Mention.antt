-- ===== src/Tests/Mention.antt =====
-- A caption with a mention, an e-mail address and a name that nobody has, and what is inserted,
-- sent and shown for it.
use mathlib.Core.List.{Memᴰ}
use thassa.Base.{◌≡◌, ◌↔◌, refl, Text, codes, List, [], ◌∷◌, map, some, none, arith}
use thassa.Mention.{DraftMention, MentionInput}
use thassa.Mention.Token.{word_start, token_at, active_mention_token, insert_mention}
use thassa.Mention.TokenLaws.{IsToken, active_mention_token_iff}
use thassa.Mention.Scan.{
  take_word, scan, by_name, emit, mentions_of, compute_mentions, recorded_id, derive_matches,
  derive_mentions, Match,
}
use thassa.Mention.Segment.{
  plain, mention, is_valid, valid, insert_by_start, sort_by_start, segments, segment_caption,
}
use thassa.Mention.SegmentLaws.{mentions_in}
use thassa.Mention.Matches.{IsMatch}
use thassa.Mention.Computed.{
  IsEmitted, compute_mentions_iff, resolved, segment_caption-compute_mentions,
}
use thassa.Mention.Insert.{compute_mentions-insert_mention}
use thassa.Mention.Derived.{IsDerived, derive_mentions_iff}

abbrev caption : Text
caption = codes "gm @Bob, a@bob and @bo"

abbrev bob : DraftMention
bob = record { user_id = codes "u1"; username = codes "bob" }

abbrev drafts : List DraftMention
drafts = bob ∷ []

abbrev first : MentionInput
first = record { user_id = codes "u1"; start = 3; len = 4 }

-- Inside the address too.
abbrev second : MentionInput
second = record { user_id = codes "u1"; start = 10; len = 4 }

abbrev recorded : List (Text × Text)
recorded = (codes "Bob", codes "u1") ∷ (codes "bob", codes "u1") ∷ []

abbrev bobs_name : Text → Text
bobs_name _ = codes "rob"

compute_mentions_run : compute_mentions caption drafts ≡ first ∷ second ∷ []
unfolding compute_mentions scan take_word by_name emit mentions_of
compute_mentions_run = refl

derive_mentions_run : derive_mentions caption recorded ≡ first ∷ []
unfolding derive_mentions derive_matches scan take_word recorded_id emit
derive_mentions_run = refl

active_mention_token_run :
    active_mention_token caption 6 ≡ some (record { query = codes "Bo"; start = 3; end = 6 })
unfolding active_mention_token token_at word_start
active_mention_token_run = refl

in_an_address : active_mention_token caption 14 ≡ none
unfolding active_mention_token token_at word_start
in_an_address = refl

segment_caption_run :
    segment_caption caption (map (resolved bobs_name) (second ∷ first ∷ []))
    ≡ plain (codes "gm ")
      ∷ mention (resolved bobs_name first)
      ∷ plain (codes ", a")
      ∷ mention (resolved bobs_name second)
      ∷ plain (codes " and @bo")
      ∷ []
unfolding segment_caption segments sort_by_start insert_by_start valid is_valid
segment_caption_run = refl

active_mention_token_iff_example :
    (active_mention_token caption 6 ≡ some (record { query = codes "Bo"; start = 3; end = 6 }))
    ↔ IsToken caption 6 3
active_mention_token_iff_example = active_mention_token_iff caption 6 3

compute_mentions_iff_example :
    Memᴰ second (compute_mentions caption drafts)
    ↔ ((m : Match) × IsMatch caption m × IsEmitted drafts m second)
compute_mentions_iff_example = compute_mentions_iff caption drafts second

derive_mentions_iff_example :
    Memᴰ first (derive_mentions caption recorded)
    ↔ ((m : Match) × IsMatch caption m × IsDerived caption recorded m first)
derive_mentions_iff_example = derive_mentions_iff caption recorded first

segment_caption-compute_mentions_example :
    mentions_in
      (segment_caption caption (map (resolved bobs_name) (compute_mentions caption drafts)))
    ≡ map (resolved bobs_name) (compute_mentions caption drafts)
segment_caption-compute_mentions_example =
    segment_caption-compute_mentions bobs_name caption drafts (λ _. omega arith)

found : by_name (codes "bob") drafts ≡ some (codes "u1")
unfolding by_name
found = refl

compute_mentions-insert_mention_example :
    Memᴰ
      (record { user_id = codes "u1"; start = 19; len = 4 })
      (compute_mentions (insert_mention caption 19 22 (codes "bob")).text drafts)
compute_mentions-insert_mention_example =
    compute_mentions-insert_mention caption 19 22 (codes "bob") (codes "u1") drafts (omega arith)
      (omega arith) (refl, (refl, (refl, tt))) found (omega arith)
