-- ===== src/Mention/Computed.antt =====
-- What `computeMentions` returns, and that `segmentCaption` shows all of it.
use mathlib.Core.Path.{subst}
use mathlib.Core.List.{Memᴰ}
use mathlib.Core.List.Memᴰ
use thassa.Base.{
  ℕ, suc, ◌+◌, ◌<◌, ◌≡◌, ◌↔◌, ◌⊎◌, refl, sym, inl, inr, lower, map, Text, List, [], ◌∷◌, Option,
  none, some, All, length, arith,
}
use thassa.Mention.{DraftMention, MentionInput, Mention}
use thassa.Mention.Scan.{Match, scan, by_name, emit, mentions_of, compute_mentions}
use thassa.Mention.ScanLaws.{InOrder, scan-InOrder}
use thassa.Mention.Matches.{IsMatch, scan_iff}
use thassa.Mention.SegmentLaws.{Ordered, mentions_in}
use thassa.Mention.Segment.{segment_caption}
use thassa.Mention.Compose.{Named, segment_caption_keeps}

-- The mention that stands for a match: its `@` and its word, and the id recorded for the name.
pub record IsEmitted (drafts : List DraftMention) (m : Match) (x : MentionInput) : Type 0 where
  pub start : x.start ≡ m.index
  pub len : x.len ≡ suc (length m.word)
  pub user : by_name (map lower m.word) drafts ≡ some x.user_id
  pub id : 0 < length x.user_id

abbrev pub made : Match → Text → MentionInput
made m uid = record { user_id = uid; start = m.index; len = suc (length m.word) }

pub emit_inv :
    (m : Match) (o : Option Text) (rest : List MentionInput) (x : MentionInput)
    → Memᴰ x (emit m o rest)
    → ((uid : Text) × (o ≡ some uid) × (0 < length uid) × (x ≡ made m uid)) ⊎ Memᴰ x rest
unfolding emit
emit_inv m none rest x h = inr h
emit_inv m (some []) rest x h = inr h
emit_inv m (some (c ∷ uid)) rest x h = elim (Memᴰ.cases_cons h) [
  | inl e ↦ inl (c ∷ uid, refl, omega arith, e)
  | inr d ↦ inr d
]

pub emit_here :
    (m : Match) (uid : Text) (rest : List MentionInput)
    → 0 < length uid
    → Memᴰ (made m uid) (emit m (some uid) rest)
unfolding emit
emit_here m [] rest l = elim l [ ]
emit_here m (c ∷ uid) rest l = Memᴰ.head refl

pub emit_later :
    (m : Match) (o : Option Text) (rest : List MentionInput) (x : MentionInput)
    → Memᴰ x rest
    → Memᴰ x (emit m o rest)
unfolding emit
emit_later m none rest x h = h
emit_later m (some []) rest x h = h
emit_later m (some (c ∷ uid)) rest x h = Memᴰ.tail h

mentions_of_sound :
    (drafts : List DraftMention) (ms : List Match) (x : MentionInput)
    → Memᴰ x (mentions_of drafts ms)
    → (m : Match) × Memᴰ m ms × IsEmitted drafts m x
unfolding mentions_of
mentions_of_sound drafts [] x h = absurd (elim h [ ])
mentions_of_sound drafts (m ∷ ms) x h =
    elim (emit_inv m (by_name (map lower m.word) drafts) (mentions_of drafts ms) x h) [
      | inl (uid, u, l, e) ↦ (
        m,
        Memᴰ.head refl,
        subst (IsEmitted drafts m) (sym e) (record { start = refl; len = refl; user = u; id = l }),
      )
      | inr d ↦ let (n, i, k) = mentions_of_sound drafts ms x d in (n, Memᴰ.tail i, k)
    ]

mentions_of_complete :
    (drafts : List DraftMention) (ms : List Match) (m : Match) (x : MentionInput)
    → Memᴰ m ms
    → IsEmitted drafts m x
    → Memᴰ x (mentions_of drafts ms)
unfolding mentions_of
mentions_of_complete drafts [] m x h k = absurd (elim h [ ])
mentions_of_complete drafts (n ∷ ms) m x h k = elim (Memᴰ.cases_cons h) [
  | inr d ↦
      emit_later n (by_name (map lower n.word) drafts) (mentions_of drafts ms) x
        (mentions_of_complete drafts ms m x d k)
  | inl e ↦ here (subst (λ q. IsEmitted drafts q x) e k)
]
  where
    here :
        IsEmitted drafts n x
        → Memᴰ x (emit n (by_name (map lower n.word) drafts) (mentions_of drafts ms))
    here j =
        let same : x ≡ made n x.user_id = ground (arith, j.start, j.len) in
        rw (j.user) (Memᴰ.cast same (emit_here n x.user_id (mentions_of drafts ms) j.id))

-- `computeMentions` sends a mention if and only if its place is an `@` with a name behind it, the
-- longest run of word characters there, its length counts both, and the name, in lower case, is the
-- name of a draft, whose id it carries (the last such draft's, if that is not empty).
pub compute_mentions_iff :
    (text : Text) (drafts : List DraftMention) (x : MentionInput)
    → Memᴰ x (compute_mentions text drafts) ↔ ((m : Match) × IsMatch text m × IsEmitted drafts m x)
unfolding compute_mentions by_name
compute_mentions_iff text [] x = (λ h. absurd (elim h [ ]), λ (m, i, k). absurd (nobody m k))
  where
    nobody : (m : Match) → IsEmitted [] m x → ⊥
    nobody m k = let u = k.user in ground (arith, u)
compute_mentions_iff text (d ∷ ds) x = (
  λ h.
      let (m, i, k) = mentions_of_sound (d ∷ ds) (scan 0 0 text) x h in
      (m, (scan_iff text m).0 i, k),
  λ (m, i, k). mentions_of_complete (d ∷ ds) (scan 0 0 text) m x ((scan_iff text m).1 i) k,
)

-- The mention that the backend returns for one that was sent: the name is the user's current one.
abbrev pub resolved : (Text → Text) → MentionInput → Mention
resolved name x = record {
  user_id = x.user_id;
  start = x.start;
  len = x.len;
  username = name x.user_id;
}

mentions_of-Ordered :
    (name : Text → Text) (drafts : List DraftMention) (n cursor : ℕ) (ms : List Match)
    → InOrder n cursor ms
    → Ordered n cursor (map (resolved name) (mentions_of drafts ms))
unfolding mentions_of emit
mentions_of-Ordered name drafts n cursor [] o = tt
mentions_of-Ordered name drafts n cursor (m ∷ ms) (a, w, r, o) =
    emitted (by_name (map lower m.word) drafts)
      (mentions_of-Ordered name drafts n (m.index + suc (length m.word)) ms o)
  where
    rest : List MentionInput
    rest = mentions_of drafts ms

    weaken :
        (xs : List MentionInput)
        → Ordered n (m.index + suc (length m.word)) (map (resolved name) xs)
        → Ordered n cursor (map (resolved name) xs)
    weaken [] p = tt
    weaken (x ∷ xs) (p, l, q, s) = (omega arith, l, q, s)

    emitted :
        (o : Option Text)
        → Ordered n (m.index + suc (length m.word)) (map (resolved name) rest)
        → Ordered n cursor (map (resolved name) (emit m o rest))
    emitted none p = weaken rest p
    emitted (some []) p = weaken rest p
    emitted (some (c ∷ uid)) p = (a, omega arith, r, p)

compute_mentions-Ordered :
    (name : Text → Text) (text : Text) (drafts : List DraftMention)
    → Ordered (length text) 0 (map (resolved name) (compute_mentions text drafts))
unfolding compute_mentions
compute_mentions-Ordered name text [] = tt
compute_mentions-Ordered name text (d ∷ ds) =
    mentions_of-Ordered name (d ∷ ds) (length text) 0 (scan 0 0 text)
      (scan-InOrder (length text) 0 0 0 text (omega arith) refl)

every_username :
    (name : Text → Text) (xs : List MentionInput)
    → ((uid : Text) → 0 < length (name uid))
    → All Named (map (resolved name) xs)
every_username name [] h = tt
every_username name (x ∷ xs) h = (h x.user_id, every_username name xs h)

-- What was sent for a caption is shown in full: when every user has a name, the mentions that
-- `computeMentions` counted are the mentions among the segments, all of them, in the same places.
pub segment_caption-compute_mentions :
    (name : Text → Text) (text : Text) (drafts : List DraftMention)
    → ((uid : Text) → 0 < length (name uid))
    → mentions_in (segment_caption text (map (resolved name) (compute_mentions text drafts)))
      ≡ map (resolved name) (compute_mentions text drafts)
segment_caption-compute_mentions name text drafts h =
    segment_caption_keeps text (map (resolved name) (compute_mentions text drafts))
      (compute_mentions-Ordered name text drafts)
      (every_username name (compute_mentions text drafts) h)
