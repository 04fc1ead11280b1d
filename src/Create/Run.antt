-- ===== src/Create/Run.antt =====
-- Whatever happens to the composer.
use thassa.Base.{refl, List, [], ◌∷◌, arith}
use thassa.Create.{ready, failed}
use thassa.Create.Media.{active}
use thassa.Create.Uploads.{
  Composer, Event, picks, removes, edits, retries, moves, schedules, progresses, uploads, fails,
  resets, empty, step, run,
}
use thassa.Create.Sound.{Sound, remove_at-Sound}
use thassa.Create.Kept.{
  requeue-Sound, progress_to-Sound, finish-Sound, move_item-Sound, reset-Sound,
}
use thassa.Create.Edits.{apply_edit-Sound}
use thassa.Create.Adding.{pick-Sound}
use thassa.Create.Scheduler.{schedule-Sound}

step-Sound : (e : Event) (s : Composer) → Sound s → Sound (step e s)
unfolding step
step-Sound (picks assets) s v = pick-Sound assets s v
step-Sound (removes i) s v = remove_at-Sound i s v
step-Sound (edits i uri) s v = apply_edit-Sound i uri s v
step-Sound (retries key) s v = requeue-Sound key s v
step-Sound (moves i j) s v = move_item-Sound i j s v
step-Sound schedules s v = schedule-Sound s v
step-Sound (progresses t f) s v = progress_to-Sound t f s v
step-Sound (uploads t id) s v = finish-Sound t (ready id) s refl v
step-Sound (fails t message) s v = finish-Sound t (failed message) s refl v
step-Sound resets s v = reset-Sound s v

empty-Sound : Sound empty
unfolding active
empty-Sound = record {
  few = omega arith;
  slots = omega arith;
  below = tt;
  apart = tt;
  items = tt;
  fresh = λ k a l. refl;
  flights = λ t f e. ground (arith, f);
}

run-Sound-from : (es : List Event) (s : Composer) → Sound s → Sound (run es s)
unfolding run
run-Sound-from [] s v = v
run-Sound-from (e ∷ es) s v = run-Sound-from es (step e s) (step-Sound e s v)

-- After any events from the empty composer: there are at most ten media, each with a key of its own, and
-- at most three of them upload; an item shows as uploading exactly if there is a run of its current
-- attempt that is not aborted, and has no other run of this attempt or of a later one.
pub run-Sound : (es : List Event) → Sound (run es empty)
run-Sound es = run-Sound-from es empty empty-Sound
