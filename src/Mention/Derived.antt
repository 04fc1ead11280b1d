-- ===== src/Mention/Derived.antt =====
-- What `deriveMentions` of the web client returns.
use mathlib.Core.Path.{subst}
use mathlib.Core.List.{Memᴰ}
use mathlib.Core.List.Memᴰ
use thassa.Base.{
  ℕ, suc, ◌-◌, ◌<◌, ◌≡◌, ◌↔◌, refl, sym, inl, inr, false, if_cases, ◌&&◌, ltb, Text, List, [], ◌∷◌,
  some, length, arith,
}
use thassa.Mention.{MentionInput, word_at}
use thassa.Mention.Scan.{Match, scan, recorded_id, derive_matches, derive_mentions}
use thassa.Mention.Matches.{IsMatch, scan_iff}
use thassa.Mention.TokenLaws.{bounded_of, unbounded_of}
use thassa.Mention.Computed.{made, emit_inv, emit_here, emit_later}

-- The mention that stands for a match with no word character before its `@`.
pub record IsDerived (caption : Text) (recorded : List (Text × Text)) (m : Match) (x : MentionInput)
    : Type 0 where
  pub bounded : (j : ℕ) → m.index ≡ suc j → word_at caption j ≡ false
  pub start : x.start ≡ m.index
  pub len : x.len ≡ suc (length m.word)
  pub user : recorded_id m.word recorded ≡ some x.user_id
  pub id : 0 < length x.user_id

derive_matches_sound :
    (t : Text) (recorded : List (Text × Text)) (ms : List Match) (x : MentionInput)
    → Memᴰ x (derive_matches t recorded ms)
    → (m : Match) × Memᴰ m ms × IsDerived t recorded m x
unfolding derive_matches
derive_matches_sound t recorded [] x h = absurd (elim h [ ])
derive_matches_sound t recorded (m ∷ ms) x h =
    if_cases (λ xs. Memᴰ x xs → (n : Match) × Memᴰ n (m ∷ ms) × IsDerived t recorded n x)
      (ltb 0 m.index && word_at t (m.index - 1))
      (λ _ d. later (derive_matches_sound t recorded ms x d))
      (λ b d. elim (emit_inv m (recorded_id m.word recorded) (derive_matches t recorded ms) x d) [
        | inl (uid, u, l, e) ↦ (
          m,
          Memᴰ.head refl,
          subst (IsDerived t recorded m) (sym e) (record {
            bounded = bounded_of t m.index b;
            start = refl;
            len = refl;
            user = u;
            id = l;
          }),
        )
        | inr r ↦ later (derive_matches_sound t recorded ms x r)
      ])
      h
  where
    later :
        (n : Match) × Memᴰ n ms × IsDerived t recorded n x
        → (n : Match) × Memᴰ n (m ∷ ms) × IsDerived t recorded n x
    later (n, i, k) = (n, Memᴰ.tail i, k)

derive_matches_complete :
    (t : Text) (recorded : List (Text × Text)) (ms : List Match) (m : Match) (x : MentionInput)
    → Memᴰ m ms
    → IsDerived t recorded m x
    → Memᴰ x (derive_matches t recorded ms)
unfolding derive_matches
derive_matches_complete t recorded [] m x h k = absurd (elim h [ ])
derive_matches_complete t recorded (n ∷ ms) m x h k = elim (Memᴰ.cases_cons h) [
  | inr d ↦
      let rest = derive_matches_complete t recorded ms m x d k in
      if_cases (Memᴰ x) (ltb 0 n.index && word_at t (n.index - 1)) (λ _. rest)
        (λ _. emit_later n (recorded_id n.word recorded) (derive_matches t recorded ms) x rest)
  | inl e ↦ here (subst (λ q. IsDerived t recorded q x) e k)
]
  where
    here : IsDerived t recorded n x → Memᴰ x (derive_matches t recorded (n ∷ ms))
    here j =
        let same : x ≡ made n x.user_id = ground (arith, j.start, j.len) in
        let m' = emit_here n x.user_id (derive_matches t recorded ms) j.id in
        rw (unbounded_of t n.index j.bounded, j.user) (Memᴰ.cast same m')

-- `deriveMentions` sends a mention if and only if its place is an `@` with no word character before
-- it and a name behind it, the longest run of word characters there, its length counts both, and
-- the name, letter for letter, is recorded with the id that it carries, which is not empty.
pub derive_mentions_iff :
    (caption : Text) (recorded : List (Text × Text)) (x : MentionInput)
    → Memᴰ x (derive_mentions caption recorded)
      ↔ ((m : Match) × IsMatch caption m × IsDerived caption recorded m x)
unfolding derive_mentions
derive_mentions_iff t recorded x = (
  λ h.
      let (m, i, k) = derive_matches_sound t recorded (scan 0 0 t) x h in
      (m, (scan_iff t m).0 i, k),
  λ (m, i, k). derive_matches_complete t recorded (scan 0 0 t) m x ((scan_iff t m).1 i) k,
)
