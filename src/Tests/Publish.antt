-- ===== src/Tests/Publish.antt =====
-- A mention in a caption with spaces around it.
use mathlib.Core.List.{Memᴰ}
use thassa.Api.{Outcome, returns}
use thassa.Base.{
  ℕ, ◌*◌, some, arith, ◌≡◌, ◌↔◌, refl, true, false, Text, codes, List, [], ◌∷◌, map, none,
}
use thassa.Card.{Status, pending}
use thassa.Chat.{trim_start, trim_end}
use thassa.Mention.{MentionInput}
use thassa.Publish.{
  Upload, Event, adds, uploaded, fails, removes, initial, add_files, fresh_uploads, update, remove,
  step, run, uploads_pending, media_ids, final_mentions, attachment_valid, can_post,
}
use thassa.Publish.Following.{follow, Followed, follow-Ends}
use thassa.Publish.Trimmed.{Sends, final_mentions_iff}

abbrev caption : Text
caption = codes "  hi @ann "

abbrev mention : MentionInput
mention = record { user_id = codes "u1"; start = 5; len = 4 }

abbrev moved : MentionInput
moved = record { user_id = codes "u1"; start = 3; len = 4 }

sent : final_mentions caption (mention ∷ []) ≡ moved ∷ []
unfolding final_mentions trim_start trim_end
sent = refl

final_mentions_iff_example :
    Memᴰ moved (final_mentions caption (mention ∷ []))
    ↔ ((m : MentionInput) × Memᴰ m (mention ∷ []) × Sends caption m moved)
final_mentions_iff_example = final_mentions_iff caption (mention ∷ []) moved

-- Twelve files, of which ten are taken; all but two are removed, one is uploaded and one fails.
abbrev events : List Event
events =
    adds 12
    ∷ removes 2
    ∷ removes 3
    ∷ removes 4
    ∷ removes 5
    ∷ removes 6
    ∷ removes 7
    ∷ removes 8
    ∷ removes 9
    ∷ uploaded 0 (codes "a")
    ∷ fails 1
    ∷ []

two_left : map (λ (u : Upload). u.key) (run events initial).uploads ≡ 0 ∷ 1 ∷ []
unfolding step add_files fresh_uploads update remove
two_left = refl

postable : can_post 6 false false none [] (run events initial) ≡ true
unfolding step add_files fresh_uploads update remove uploads_pending media_ids attachment_valid
    can_post trim_start trim_end
postable = refl

-- A market that stays pending: fourteen requests.
abbrev clock : ℕ → ℕ
clock k = 1500 * k

abbrev answers : ℕ → Outcome Status
answers k = returns pending

gives_up : follow clock answers 15 0 pending ≡ some (pending, 14)
unfolding follow
gives_up = refl

follow-Ends_example : Followed clock answers (follow clock answers 15 0 pending)
follow-Ends_example = follow-Ends clock answers (λ k. omega arith) pending
