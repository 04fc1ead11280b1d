-- ===== src/Social/Reacted.antt =====
-- The reactions of the web card, as they are looked up by their emoji.
use mathlib.Core.Path.{subst}
use thassa.Base.{
  ℕ, ◌+◌, ◌-◌, ◌<◌, ◌≡◌, ◌≢◌, refl, sym, ap, ◌∙◌, ltb, Bool-cases, inl, inr, if_cases,
  if◌then◌else◌, Bool, true, false, Text, text_eq, text_eq_iff, text_eq_refl, List, [], ◌∷◌, ◌++◌,
  Option, none, some, All, arith,
}
use thassa.Social.Likes.{Reaction, find_reaction, others_of, reacted_to, web_react}

abbrev or_find : Option Reaction → Option Reaction → Option Reaction
or_find none o = o
or_find (some r) o = some r

find-append :
    (e : Text) (rs ss : List Reaction)
    → find_reaction e (rs ++ ss) ≡ or_find (find_reaction e rs) (find_reaction e ss)
unfolding find_reaction
find-append e [] ss = refl
find-append e (r ∷ rs) ss = ground (arith, find-append e rs ss)

find-others_self : (e : Text) (rs : List Reaction) → find_reaction e (others_of e rs) ≡ none
unfolding find_reaction others_of
find-others_self e [] = refl
find-others_self e (r ∷ rs) = ground (arith, find-others_self e rs)

find-others_ne :
    (e j : Text) (rs : List Reaction)
    → j ≢ e
    → find_reaction j (others_of e rs) ≡ find_reaction j rs
unfolding find_reaction others_of
find-others_ne e j [] h = refl
find-others_ne e j (r ∷ rs) h =
    ground (arith, text_eq_iff r.emoji e, text_eq_iff r.emoji j, find-others_ne e j rs h)

find-emoji :
    (e : Text) (rs : List Reaction) (r : Reaction) → find_reaction e rs ≡ some r → r.emoji ≡ e
unfolding find_reaction
find-emoji e [] r h = ground (arith, h)
find-emoji e (x ∷ rs) r h = ground (arith, text_eq_iff x.emoji e, find-emoji e rs r, h)

-- What a reaction makes of the entry of its emoji.
abbrev pub toggled : Text → Option Reaction → Option Reaction
toggled e none = some (record { emoji = e; count = 1; reacted = true })
toggled e (some r) =
    if r.reacted
    then if ltb 0 (r.count - 1)
      then some (record { emoji = e; count = r.count - 1; reacted = false })
      else none
    else some (record { emoji = e; count = r.count + 1; reacted = true })

find_one :
    (e : Text) (n : ℕ) (b : Bool)
    → find_reaction e (record { emoji = e; count = n; reacted = b } ∷ [])
      ≡ some (record { emoji = e; count = n; reacted = b })
unfolding find_reaction
find_one e n b = rw (text_eq_refl e) refl

find_none :
    (e j : Text) (n : ℕ) (b : Bool)
    → j ≢ e
    → find_reaction j (record { emoji = e; count = n; reacted = b } ∷ []) ≡ none
unfolding find_reaction
find_none e j n b h = ground (arith, text_eq_iff e j)

added_self :
    (e : Text) (n : ℕ) (b : Bool) (l : List Reaction)
    → find_reaction e l ≡ none
    → find_reaction e (l ++ (record { emoji = e; count = n; reacted = b } ∷ []))
      ≡ some (record { emoji = e; count = n; reacted = b })
added_self e n b l h = rw (find-append e l _, h) (find_one e n b)

or_find-none : (o : Option Reaction) → or_find o none ≡ o
or_find-none none = refl
or_find-none (some r) = refl

added_other :
    (e j : Text) (n : ℕ) (b : Bool) (l : List Reaction)
    → j ≢ e
    → find_reaction j (l ++ (record { emoji = e; count = n; reacted = b } ∷ [])) ≡ find_reaction j l
added_other e j n b l h =
    rw (find-append j l _, find_none e j n b h) (or_find-none (find_reaction j l))

find_self :
    (e : Text) (o : Option Reaction) (l : List Reaction)
    → find_reaction e l ≡ none
    → find_reaction e (reacted_to e o l) ≡ toggled e o
find_self e none l h = added_self e 1 true l h
find_self e (some r) l h =
    by_flags r.reacted (ltb 0 (r.count - 1)) _ _ _ _ (added_self e (r.count - 1) false l h)
      (added_self e (r.count + 1) true l h)
  where
    by_flags :
        (b c : Bool) (x y : List Reaction) (u v : Option Reaction)
        → find_reaction e x ≡ u
        → find_reaction e y ≡ v
        → find_reaction e (if b then (if c then x else l) else y)
          ≡ (if b then (if c then u else none) else v)
    by_flags true true x y u v p q = p
    by_flags true false x y u v p q = h
    by_flags false c x y u v p q = q

find-other :
    (e j : Text) (o : Option Reaction) (l : List Reaction)
    → j ≢ e
    → find_reaction j (reacted_to e o l) ≡ find_reaction j l
find-other e j none l h = added_other e j 1 true l h
find-other e j (some r) l h =
    by_flags r.reacted (ltb 0 (r.count - 1)) _ _ (added_other e j (r.count - 1) false l h)
      (added_other e j (r.count + 1) true l h)
  where
    by_flags :
        (b c : Bool) (x y : List Reaction)
        → find_reaction j x ≡ find_reaction j l
        → find_reaction j y ≡ find_reaction j l
        → find_reaction j (if b then (if c then x else l) else y) ≡ find_reaction j l
    by_flags true true x y p q = p
    by_flags true false x y p q = refl
    by_flags false c x y p q = q

find-web_react :
    (e : Text) (rs : List Reaction)
    → find_reaction e (web_react e rs) ≡ toggled e (find_reaction e rs)
unfolding web_react
find-web_react e rs = find_self e (find_reaction e rs) (others_of e rs) (find-others_self e rs)

find-web_react_ne :
    (e j : Text) (rs : List Reaction)
    → j ≢ e
    → find_reaction j (web_react e rs) ≡ find_reaction j rs
unfolding web_react
find-web_react_ne e j rs h =
    find-other e j (find_reaction e rs) (others_of e rs) h ∙ find-others_ne e j rs h

-- An entry of the card counts somebody.
abbrev pub Counted : List Reaction → Type 0
Counted = All (λ r. 0 < r.count)

find-Counted :
    (e : Text) (rs : List Reaction) (r : Reaction)
    → Counted rs
    → find_reaction e rs ≡ some r
    → 0 < r.count
unfolding find_reaction
find-Counted e [] r c = λ h. ground (arith, h)
find-Counted e (x ∷ rs) r (p, c) =
    if_cases (λ o. o ≡ some r → 0 < r.count) (text_eq x.emoji e)
      (λ q h.
        subst (λ (y : Reaction). 0 < y.count) (ap (λ o. elim o [ none ↦ x | some y ↦ y ]) h) p)
      (λ q h. find-Counted e rs r c h)

twice :
    (e : Text) (n : ℕ) (b : Bool)
    → 0 < n
    → toggled e (toggled e (some (record { emoji = e; count = n; reacted = b })))
      ≡ some (record { emoji = e; count = n; reacted = b })
twice e n true p =
    if_cases
      (λ (o : Option Reaction).
        toggled e o ≡ some (record { emoji = e; count = n; reacted = true }))
      (ltb 0 (n - 1))
      (λ h.
        ap (λ (k : ℕ). some (record { emoji = e; count = k; reacted = true })) (omega (arith, p)))
      (λ h.
        let one : 1 ≡ n = ground (arith, h, p) in
        ap (λ (k : ℕ). some (record { emoji = e; count = k; reacted = true })) one)
twice e n false p =
    let more : ltb 0 (n + 1 - 1) ≡ true = ground (arith, p) in
    rw more (ap (λ (k : ℕ). some (record { emoji = e; count = k; reacted = false })) (omega arith))

toggled-toggled :
    (e : Text) (o : Option Reaction)
    → ((r : Reaction) → o ≡ some r → (r.emoji ≡ e) × (0 < r.count))
    → toggled e (toggled e o) ≡ o
toggled-toggled e none h = refl
toggled-toggled e (some r) h =
    let (q, p) = h r refl in
    subst (λ t. toggled t (toggled t (some r)) ≡ some r) q (twice r.emoji r.count r.reacted p)

-- On a card whose entries count somebody, a reaction and the same again leave every emoji with its
-- count and the user's own mark as they were.
pub web_react-web_react :
    (e j : Text) (rs : List Reaction)
    → Counted rs
    → find_reaction j (web_react e (web_react e rs)) ≡ find_reaction j rs
web_react-web_react e j rs c = elim (Bool-cases (text_eq j e)) [
  | inl h ↦
      let same : j ≡ e = (text_eq_iff j e).0 h in
      subst (λ t. find_reaction t (web_react e (web_react e rs)) ≡ find_reaction t rs) (sym same)
        (find-web_react e (web_react e rs)
          ∙ ap (toggled e) (find-web_react e rs)
          ∙ toggled-toggled e (find_reaction e rs)
              (λ r q. (find-emoji e rs r q, find-Counted e rs r c q)))
  | inr h ↦
      let ne : j ≢ e = ground (arith, h, text_eq_iff j e) in
      find-web_react_ne e j (web_react e rs) ne ∙ find-web_react_ne e j rs ne
]
