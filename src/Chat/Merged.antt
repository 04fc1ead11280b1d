-- ===== src/Chat/Merged.antt =====
-- What the web client shows of a conversation.
use thassa.Base.{
  ◌≤◌, ◌≡◌, refl, ap, ◌∙◌, ltb, ◌||◌, if◌then◌else◌, true, false, Bool-cases, inl, inr, Text,
  text_eq, text_eq_iff, text_eq_refl, All, List, [], ◌∷◌, ◌++◌, Option, none, some, arith,
}
use thassa.Chat.{Message, Frame, message_new}
use thassa.Chat.Mobile.{has_id}
use thassa.Chat.Settled.{Distinct}
use thassa.Chat.Web.{Thread, from_history, seen_id, unseen, insert, sort, merged, receive}

-- The first message with an id.
abbrev pub find_id : Text → List Message → Option Message
find_id id [] = none
find_id id (m ∷ ms) = if text_eq m.id id then some m else find_id id ms

-- From the oldest to the newest.
abbrev pub Sorted : List Message → Type 0
Sorted [] = Unit {0}
Sorted (m ∷ ms) = All (λ (n : Message). m.created_at ≤ n.created_at) ms × Sorted ms

unseen-seen :
    (id : Text) (seen : List Text) (ms : List Message)
    → seen_id id seen ≡ true
    → has_id id (unseen seen ms) ≡ false
unfolding has_id unseen seen_id
unseen-seen id seen [] h = refl
unseen-seen id seen (m ∷ ms) h = ground (
  arith,
  h,
  text_eq_iff m.id id,
  unseen-seen id seen ms h,
  unseen-seen id (m.id ∷ seen) ms,
  text_eq_refl id,
  ap (λ (i : Text). seen_id i seen),
)

unseen-Distinct : (seen : List Text) (ms : List Message) → Distinct (unseen seen ms)
unfolding unseen seen_id
unseen-Distinct seen [] = tt
unseen-Distinct seen (m ∷ ms) = elim (Bool-cases (seen_id m.id seen)) [
  | inl known ↦ rw known (unseen-Distinct seen ms)
  | inr new ↦ rw new (
    unseen-seen m.id (m.id ∷ seen) ms (ground (arith, text_eq_refl m.id)),
    unseen-Distinct (m.id ∷ seen) ms,
  )
]

find_id-unseen :
    (id : Text) (seen : List Text) (ms : List Message)
    → find_id id (unseen seen ms) ≡ (if seen_id id seen then none else find_id id ms)
unfolding unseen seen_id
find_id-unseen id seen [] = ground arith
find_id-unseen id seen (m ∷ ms) =
    ground
      (arith, find_id-unseen id seen ms, find_id-unseen id (m.id ∷ seen) ms, text_eq_iff m.id id)

has_id-insert :
    (id : Text) (m : Message) (ns : List Message)
    → has_id id (insert m ns) ≡ (text_eq m.id id || has_id id ns)
unfolding has_id insert
has_id-insert id m [] = refl
has_id-insert id m (n ∷ ns) = ground (arith, has_id-insert id m ns)

find_id-insert :
    (id : Text) (m : Message) (ns : List Message)
    → has_id m.id ns ≡ false
    → find_id id (insert m ns) ≡ find_id id (m ∷ ns)
unfolding has_id insert
find_id-insert id m [] h = refl
find_id-insert id m (n ∷ ns) h = ground (
  arith,
  h,
  find_id-insert id m ns,
  text_eq_iff n.id id,
  text_eq_iff m.id id,
  text_eq_iff n.id m.id,
)

insert-Distinct :
    (m : Message) (ns : List Message)
    → has_id m.id ns ≡ false
    → Distinct ns
    → Distinct (insert m ns)
unfolding has_id insert
insert-Distinct m [] h d = (refl, tt)
insert-Distinct m (n ∷ ns) h d = elim (Bool-cases (ltb n.created_at m.created_at)) [
  | inl later ↦ rw later (
    ground (arith, h, d.0, has_id-insert n.id m ns, text_eq_iff m.id n.id, text_eq_refl n.id),
    insert-Distinct m ns (ground (arith, h)) d.1,
  )
  | inr earlier ↦ rw earlier (h, d)
]

All-insert :
    (P : Message → Type 0) (m : Message) (ns : List Message) → P m → All P ns → All P (insert m ns)
unfolding insert
All-insert P m [] p ps = (p, tt)
All-insert P m (n ∷ ns) p ps = elim (Bool-cases (ltb n.created_at m.created_at)) [
  | inl later ↦ rw later (ps.0, All-insert P m ns p ps.1)
  | inr earlier ↦ rw earlier (p, ps)
]

All-weaken :
    (P Q : Message → Type 0)
    → ((m : Message) → P m → Q m)
    → (ms : List Message) → All P ms
    → All Q ms
All-weaken P Q f [] ps = tt
All-weaken P Q f (m ∷ ms) ps = (f m ps.0, All-weaken P Q f ms ps.1)

insert-Sorted : (m : Message) (ns : List Message) → Sorted ns → Sorted (insert m ns)
unfolding insert
insert-Sorted m [] h = (tt, tt)
insert-Sorted m (n ∷ ns) h = elim (Bool-cases (ltb n.created_at m.created_at)) [
  | inl later ↦ rw later (All-insert _ m ns (ground (arith, later)) h.0, insert-Sorted m ns h.1)
  | inr earlier ↦
      rw earlier
        ((ground (arith, earlier), All-weaken _ _ (λ k q. ground (arith, earlier, q)) ns h.0), h)
]

sort-Sorted : (ms : List Message) → Sorted (sort ms)
unfolding sort
sort-Sorted [] = tt
sort-Sorted (m ∷ ms) = insert-Sorted m (sort ms) (sort-Sorted ms)

has_id-sort : (id : Text) (ms : List Message) → has_id id (sort ms) ≡ has_id id ms
unfolding has_id sort
has_id-sort id [] = refl
has_id-sort id (m ∷ ms) = ground (arith, has_id-insert id m (sort ms), has_id-sort id ms)

sort-Distinct : (ms : List Message) → Distinct ms → Distinct (sort ms)
unfolding sort
sort-Distinct [] d = tt
sort-Distinct (m ∷ ms) d =
    insert-Distinct m (sort ms) (has_id-sort m.id ms ∙ d.0) (sort-Distinct ms d.1)

find_id-sort : (id : Text) (ms : List Message) → Distinct ms → find_id id (sort ms) ≡ find_id id ms
unfolding sort
find_id-sort id [] d = refl
find_id-sort id (m ∷ ms) d =
    ground
      (arith, find_id-insert id m (sort ms) (has_id-sort m.id ms ∙ d.0), find_id-sort id ms d.1)

-- What is shown is in the order of the times, no two messages have the same id, and under each id
-- stands the first message that the pages, or the seed before there are pages, and then the live
-- messages have with it, if any has.
pub merged-from_history :
    (s : Thread)
    → Sorted (merged s)
      × Distinct (merged s)
      × ((id : Text) → find_id id (merged s) ≡ find_id id (from_history s ++ s.live))
unfolding merged seen_id
merged-from_history s =
    let all : List Message = from_history s ++ s.live in
    (
      sort-Sorted (unseen [] all),
      sort-Distinct (unseen [] all) (unseen-Distinct [] all),
      λ id. find_id-sort id (unseen [] all) (unseen-Distinct [] all) ∙ find_id-unseen id [] all,
    )

-- Frames that come one after the other.
abbrev pub receive_all : Text → List Frame → Thread → Thread
receive_all me [] s = s
receive_all me (f ∷ fs) s = receive_all me fs (receive me f s)

abbrev pub new_messages : List Frame → List Message
new_messages [] = []
new_messages (message_new m ∷ fs) = m ∷ new_messages fs
new_messages (_ ∷ fs) = new_messages fs

-- The channel adds its messages to the live ones, in their order, and leaves the rest.
record Receives (fs : List Frame) (s t : Thread) : Type 0 where
  history : from_history t ≡ from_history s
  live : t.live ≡ s.live ++ new_messages fs
