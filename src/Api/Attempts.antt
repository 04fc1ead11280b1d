-- ===== src/Api/Attempts.antt =====
-- The attempts of one request of the mobile client.
use mathlib.Core.Path.{subst}
use thassa.Base.{
  ℕ, zero, suc, ◌+◌, ◌<◌, ◌≤◌, ◌≡◌, inl, inr, refl, ◌==◌, ltb, ◌&&◌, ◌||◌, if◌then◌else◌, Bool,
  true, false, Bool-cases, Text, codes, text_eq, List, [], ◌∷◌, Option, arith,
}
use thassa.Json.{Json}
use thassa.Api.{network_error, api_error, Outcome, returns, throws}
use thassa.Api.Mobile.{
  Sent, Event, fetched, slept, Answer, unreachable, responds, Net, after_answer, is_retryable,
  backoff_ms, safe_parse, has_text, is_ok, error_of, sent_at, req_from, max_retries,
}

and_false : (b : Bool) → b && false ≡ false
and_false true = refl
and_false false = refl

from_next :
    (a : ℕ) {e : ℕ} (P : ℕ → Type 0)
    → P a
    → ((i : ℕ) → suc a ≤ i → i < e → P i)
    → (i : ℕ) → a ≤ i
    → i < e
    → P i
from_next a P h k i p u = elim (Bool-cases (a == i)) [
  | inl same ↦ subst P (ground (arith, same)) h
  | inr differ ↦ k i (ground (arith, differ, p)) u
]

module _ (net : Net) (method path : Text) (body : Option Json) (idem_key : Option Text) where
  -- An attempt that tells nothing of the request itself: a connection that fails, or an error of a
  -- gateway to a request that is safe to send again.
  abbrev pub is_transient : Answer → Bool
  is_transient unreachable = true
  is_transient (responds status text) =
      is_retryable status && (text_eq method (codes "GET") || has_text idem_key)

  abbrev pub answer_at : ℕ → Answer
  answer_at n = net.answer n (sent_at net method path body idem_key n)

  -- How a request ends with the last answer.
  abbrev pub settled : Answer → Outcome Json
  settled unreachable = throws network_error
  settled (responds status text) =
      if is_ok status
      then returns (safe_parse net.parse text)
      else throws (api_error status (error_of (safe_parse net.parse text)))

  -- Attempts from number `a` on, with `n` before the last.
  abbrev pub attempts : ℕ → ℕ → List Event
  attempts a zero = fetched (sent_at net method path body idem_key a) ∷ []
  attempts a (suc n) =
      fetched (sent_at net method path body idem_key a)
      ∷ slept (backoff_ms net a)
      ∷ attempts (suc a) n

  -- The `n` attempts from `a` on fail in passing, and attempt `e` after them is the last.
  pub record Ends (a n e : ℕ) : Type 0 where
    pub sum : a + n ≡ e
    pub bound : e < max_retries
    pub passing : (i : ℕ) → a ≤ i → i < e → is_transient (answer_at i) ≡ true
    pub last : ltb e 3 && is_transient (answer_at e) ≡ false

  abbrev pub Settled : ℕ → ℕ → Type 0
  Settled fuel a =
      (n : ℕ) × (e : ℕ) × Ends a n e
      × (req_from net method path body idem_key fuel a ≡ (settled (answer_at e), attempts a n))

  after_answer-last :
      (a : ℕ) (sent : Sent) (again : Outcome Json × List Event) (x : Answer)
      → ltb a 3 && is_transient x ≡ false
      → after_answer net method idem_key a sent again x ≡ (settled x, fetched sent ∷ [])
  unfolding after_answer
  after_answer-last a sent again unreachable h = ground (arith, h)
  after_answer-last a sent again (responds status text) h = ground (arith, h)

  after_answer-passing :
      (a : ℕ) (sent : Sent) (again : Outcome Json × List Event) (x : Answer)
      → a < 3
      → is_transient x ≡ true
      → after_answer net method idem_key a sent again x
        ≡ (again.0, fetched sent ∷ slept (backoff_ms net a) ∷ again.1)
  unfolding after_answer
  after_answer-passing a sent again unreachable l h = ground (arith, l)
  after_answer-passing a sent again (responds status text) l h = ground (arith, l, h)

  ends_here :
      (fuel a : ℕ) → a < 4 → ltb a 3 && is_transient (answer_at a) ≡ false → Settled (suc fuel) a
  unfolding req_from
  ends_here fuel a l h = (
    0,
    a,
    record {
      sum = omega arith;
      bound = l;
      passing = λ i p q. absurd (omega (arith, p, q));
      last = h;
    },
    after_answer-last a _ _ (answer_at a) h,
  )

  goes_on :
      (fuel a : ℕ)
      → a < 3
      → is_transient (answer_at a) ≡ true
      → Settled fuel (suc a)
      → Settled (suc fuel) a
  unfolding req_from
  goes_on fuel a l h (n, e, r, q) = (
    suc n,
    e,
    record {
      sum = omega (arith, r.sum);
      bound = r.bound;
      passing = λ i p u. from_next a (λ j. is_transient (answer_at j) ≡ true) h r.passing i p u;
      last = r.last;
    },
    rw
        (
          after_answer-passing a (sent_at net method path body idem_key a)
              (req_from net method path body idem_key fuel (suc a)) (answer_at a) l h,
          q,
        )
        refl,
  )

  settles : (fuel a : ℕ) → a + suc fuel ≡ 4 → Settled (suc fuel) a
  settles zero a s =
      let l : ltb a 3 ≡ false = ground (arith, s) in ends_here 0 a (omega (arith, s)) (rw l refl)
  settles (suc fuel) a s = elim (Bool-cases (is_transient (answer_at a))) [
    | inl passing ↦
        goes_on (suc fuel) a (omega (arith, s)) passing (settles fuel (suc a) (omega (arith, s)))
    | inr final ↦ ends_here (suc fuel) a (omega (arith, s)) (rw final (and_false (ltb a 3)))
  ]

  -- A request ends: after at most three attempts that fail in passing, with the next one's answer.
  pub req-Settled : Settled max_retries 0
  req-Settled = settles 3 0 refl
