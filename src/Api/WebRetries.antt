-- ===== src/Api/WebRetries.antt =====
-- What a server sees of one request of the web client.
use thassa.Base.{
  ◌≤◌, refl, Bool, true, false, if◌then◌else◌, if_cases, Text, List, Option, All, arith,
}
use thassa.Json.{Json}
use thassa.Api.{Outcome}
use thassa.Api.Mobile.{Event}
use thassa.Api.Retries.{IsAttempt, sends, waited}
use thassa.Api.Web.{
  Answer, rejects, responds, Net, is_mutating, idempotency_key_of, sent_of, after_first, req,
}

at_most_two : (b : Bool) → 1 ≤ (if b then 2 else 1)
at_most_two true = omega arith
at_most_two false = omega arith

module _ (net : Net) (method path : Text) (body : Option Json) (key : Option Text) where
  pub record Kept (log : List Event) : Type 0 where
    pub same : All (IsAttempt method path body (idempotency_key_of net method key)) log
    pub some_send : 1 ≤ sends log
    pub few : sends log ≤ (if is_mutating method then 2 else 1)
    pub short : waited log ≤ 600

  after_first-Kept :
      (x : Answer) → Kept (after_first net method (sent_of net method path body key) x).1
  unfolding after_first
  after_first-Kept (responds status text) = record {
    same = ((refl, refl, refl, refl), tt);
    some_send = omega arith;
    few = at_most_two (is_mutating method);
    short = omega arith;
  }
  after_first-Kept (rejects message) =
      if_cases (λ (p : Outcome Json × List Event). Kept p.1) (is_mutating method)
        (λ writes. record {
          same = ((refl, refl, refl, refl), (tt, ((refl, refl, refl, refl), tt)));
          some_send = omega arith;
          few = rw writes (omega arith);
          short = omega arith;
        })
        (λ reads. record {
          same = ((refl, refl, refl, refl), tt);
          some_send = omega arith;
          few = rw reads (omega arith);
          short = omega arith;
        })

  -- A request is sent once, or a mutation twice: the same one, under the same key, 600 ms apart at most.
  pub req-Kept : Kept (req net method path body key).1
  unfolding req
  req-Kept = after_first-Kept (net.first (sent_of net method path body key))
