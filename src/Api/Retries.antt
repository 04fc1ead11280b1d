-- ===== src/Api/Retries.antt =====
-- What a server sees of one request of the mobile client, and how long the client waits for it.
use mathlib.Core.Path.{subst}
use thassa.Base.{
  ℕ, zero, suc, ◌+◌, ◌<◌, ◌≤◌, ◌≡◌, refl, sym, ap, Text, List, [], ◌∷◌, Option, All, arith,
}
use thassa.Json.{Json}
use thassa.Api.Mobile.{Event, fetched, slept, Net, present, req, max_retries}
use thassa.Api.Attempts.{attempts, req-Settled}

abbrev pub sends : List Event → ℕ
sends [] = 0
sends (fetched s ∷ log) = suc (sends log)
sends (slept w ∷ log) = sends log

abbrev pub waited : List Event → ℕ
waited [] = 0
waited (fetched s ∷ log) = waited log
waited (slept w ∷ log) = w + waited log

module _ (method path : Text) (body : Option Json) (idem_key : Option Text) where
  -- An attempt at this very request, under its key.
  abbrev pub IsAttempt : Event → Type 0
  IsAttempt (fetched s) =
      (s.method ≡ method)
      × (s.path ≡ path)
      × (s.body ≡ body)
      × (s.idempotency_key ≡ present idem_key)
  IsAttempt (slept w) = Unit {0}

module _ (net : Net) (method path : Text) (body : Option Json) (idem_key : Option Text) where
  pub record Bounded (log : List Event) : Type 0 where
    pub same : All (IsAttempt method path body idem_key) log
    pub some_send : 1 ≤ sends log
    pub few : sends log ≤ max_retries
    pub short : waited log ≤ 3247

  attempts-IsAttempt :
      (n a : ℕ)
      → All (IsAttempt method path body idem_key) (attempts net method path body idem_key a n)
  attempts-IsAttempt zero a = ((refl, refl, refl, refl), tt)
  attempts-IsAttempt (suc n) a = ((refl, refl, refl, refl), (tt, attempts-IsAttempt n (suc a)))

  sends-attempts : (n a : ℕ) → sends (attempts net method path body idem_key a n) ≡ suc n
  sends-attempts zero a = refl
  sends-attempts (suc n) a = ap suc (sends-attempts n (suc a))

  waited-attempts :
      (n : ℕ)
      → ((i : ℕ) → net.jitter i < 150)
      → n < 4
      → waited (attempts net method path body idem_key 0 n) ≤ 3247
  waited-attempts zero j l = omega arith
  waited-attempts (suc zero) j l = omega (arith, j 0)
  waited-attempts (suc (suc zero)) j l = omega (arith, j 0, j 1)
  waited-attempts (suc (suc (suc zero))) j l = omega (arith, j 0, j 1, j 2)
  waited-attempts (suc (suc (suc (suc n)))) j l = absurd (omega (arith, l))

  -- With less than 150 ms of jitter: all that is sent is this request, under the same key, at least
  -- once and at most four times, and the waits between come to at most 3.247 s.
  pub req-Bounded : ((i : ℕ) → net.jitter i < 150) → Bounded (req net method path body idem_key).1
  req-Bounded j =
      let (n, e, r, q) = req-Settled net method path body idem_key in
      let few : n < 4 = omega (arith, r.sum, r.bound) in
      subst Bounded (ap (λ p. p.1) (sym q)) (record {
        same = attempts-IsAttempt n 0;
        some_send = rw (sends-attempts n 0) (omega arith);
        few = rw (sends-attempts n 0) few;
        short = waited-attempts n j few;
      })
