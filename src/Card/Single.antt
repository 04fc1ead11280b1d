-- ===== src/Card/Single.antt =====
-- One submission at a time.
use thassa.Base.{ℕ, zero, suc, ◌≤◌, ◌≡◌, refl, Bool, true, false, Text, List, [], ◌∷◌, All, arith}
use thassa.Card.{
  Card, Event, picks, toggles_expand, toggles_details, types_amount, types_limit, book_delta,
  market_update, submits, signs, succeeds, fails, is_busy, can_submit, submit, queue, succeed, fail,
  reset_trade, step, run,
}

-- The user neither picks a side nor folds the card.
abbrev pub is_calm : Event → Bool
is_calm (picks side) = false
is_calm toggles_expand = false
is_calm _ = true

-- At most one submission is under way, and the card is busy while one is.
pub record Single (s : Card) : Type 0 where
  pub few : s.under_way ≤ 1
  pub busy : s.under_way ≡ 1 → is_busy s.stage ≡ true

submit-Single : (s : Card) → Single s → Single (submit s)
unfolding submit can_submit
submit-Single s p = record { few = ground (arith, p.few, p.busy); busy = ground (arith, p.busy) }

queue-Single : (n : ℕ) (s : Card) → Single s → Single (queue n s)
unfolding queue
queue-Single zero s p = p
queue-Single (suc n) s p = record { few = p.few; busy = λ _. refl }

ended : (n : ℕ) (s : Card) → s.under_way ≡ suc n → Single s → n ≡ 0
ended n s e p = omega (arith, e, p.few)

succeed-Single : (n : ℕ) (s : Card) → s.under_way ≡ n → Single s → Single (succeed n s)
unfolding succeed reset_trade
succeed-Single zero s e p = p
succeed-Single (suc n) s e p = record {
  few = omega (arith, ended n s e p);
  busy = λ q. absurd (omega (arith, q, ended n s e p));
}

fail-Single : (m : Text) (n : ℕ) (s : Card) → s.under_way ≡ n → Single s → Single (fail m n s)
unfolding fail
fail-Single m zero s e p = p
fail-Single m (suc n) s e p = record {
  few = omega (arith, ended n s e p);
  busy = λ q. absurd (omega (arith, q, ended n s e p));
}

step-Single : (e : Event) (s : Card) → is_calm e ≡ true → Single s → Single (step e s)
unfolding step
step-Single (picks side) s c p = absurd (ground (arith, c))
step-Single toggles_expand s c p = absurd (ground (arith, c))
step-Single toggles_details s c p = record { few = p.few; busy = p.busy }
step-Single (types_amount k) s c p = record { few = p.few; busy = p.busy }
step-Single (types_limit t) s c p = record { few = p.few; busy = p.busy }
step-Single (book_delta y n) s c p = record { few = p.few; busy = p.busy }
step-Single (market_update t) s c p = record { few = p.few; busy = p.busy }
step-Single submits s c p = submit-Single s p
step-Single signs s c p = queue-Single s.under_way s p
step-Single succeeds s c p = succeed-Single s.under_way s refl p
step-Single (fails m) s c p = fail-Single m s.under_way s refl p

-- As long as the user neither picks a side nor folds the card, there is one submission at a time,
-- however often the button is tapped, whatever is typed, and in whatever order the signature, the
-- answers and the frames of the book come.
pub run-Single :
    (es : List Event) (s : Card)
    → All (λ (e : Event). is_calm e ≡ true) es
    → Single s
    → Single (run es s)
run-Single [] s c p = p
run-Single (e ∷ es) s c p = run-Single es (step e s) c.1 (step-Single e s c.0 p)
