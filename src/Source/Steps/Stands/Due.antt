-- ===== src/Source/Steps/Stands/Due.antt =====
-- source/src/sources/transposer/steps.rs: a poll of events where no step runs.
use cozal.Prelude.{
  ℕ, ◌+◌, ◌-◌, ◌<◌, ◌≤◌, ◌≡◌, refl, ◌∙◌, true, false, Option, some, none, List, [], get_elem?-last?,
  last?, last?-append, length, ltb, arith, ok, ◌>>=◌,
}
use cozal.Transposer.Time.{ScheduledTime}
use cozal.Transposer.Backend.{Backend}
use cozal.Transposer.Program.{Transposer}
use cozal.Transposer.Metadata
use cozal.Transposer.Wrapped
use cozal.Transposer.Wrapped.{WrappedTransposer, Future}
use cozal.Transposer.Step
use cozal.Transposer.Step.{Step, saturated, saturating, unsaturated}
use cozal.Source.Steps
use cozal.Source.Steps.{Steps}
use cozal.Source.Steps.Query.{BeforeStatusEvents, get_before_or_at_events}
use cozal.Source.Steps.Delete.{Inv, marked_first}
use cozal.Source.Steps.Events.{
  next, next_started, push-Inv, next-is_unsaturated, get_before_or_at_events_due,
  try_next_scheduled_lem,
}
use cozal.Source.Steps.Stands.{Rests, Runs, Stands, rests, awaits, IsLater, time_of}

module _ (T : Transposer) (B : Backend T.Scheduled) where
  pub try_next_scheduled_unsaturated :
      (self : Steps T B) (uuid : ℕ) (last : Step T B)
      → last? self.steps ≡ some last
      → Step.is_saturated T B last ≡ false
      → Steps.try_next_scheduled T B uuid self ≡ ok self
  unfolding Steps.try_next_scheduled
  try_next_scheduled_unsaturated self uuid last at_end unsat =
      rw (Steps.try_next_scheduled, Steps.get_last, at_end, ◌>>=◌, unsat) refl

  next-is_saturated :
      (uuid : ℕ) (last : Step T B) (t : ScheduledTime)
      → Step.is_saturated T B (next T B uuid last t) ≡ false
  unfolding Step.is_saturated
  next-is_saturated uuid last t = refl

  next_started-get_time :
      (uuid : ℕ) (last : Step T B) (w : WrappedTransposer T B) (t : ScheduledTime)
      → Step.get_time T B (next_started T B uuid last w t) ≡ t.time
  unfolding Step.get_time
  next_started-get_time uuid last w t = refl

  try_next_scheduled_idle :
      (self : Steps T B) (uuid : ℕ) (last : Step T B) (w : WrappedTransposer T B)
      → last? self.steps ≡ some last
      → last.status ≡ saturated w
      → Metadata.get_next_scheduled_time B w.metadata ≡ none
      → Steps.try_next_scheduled T B uuid self ≡ ok self
  unfolding Steps.try_next_scheduled Step.is_saturated Step.next_scheduled_unsaturated
      Step.next_unsaturated
  try_next_scheduled_idle self uuid last w at_end reached idle =
      rw
        (
          Steps.try_next_scheduled, Steps.get_last, at_end, ◌>>=◌, Step.is_saturated, reached,
          Step.next_scheduled_unsaturated, Step.next_unsaturated, reached, idle,
        )
        refl

  pub number_of_last :
      (self : Steps T B) (last : Step T B)
      → last? self.steps ≡ some last
      → Steps.max_sequence_number T B self ≡ ok (self.num_deleted_steps + length self.steps - 1)
  unfolding Steps.max_sequence_number
  number_of_last self last at_end =
      let (i, len, at_i) = get_elem?-last? self.steps last at_end in ground (arith, len)

  module _ {w : WrappedTransposer T B} {self : Steps T B} (r : Rests T B w self) where
    pub awaiting-Inv :
        (uuid : ℕ) (t : ScheduledTime)
        → Inv T B (Steps.push T B (some (next T B uuid r.last t)) self)
    awaiting-Inv uuid t =
        push-Inv T B self (next T B uuid r.last t) (next-is_unsaturated T B uuid r.last t) r.inv

    -- The step that an earlier poll has made is the one that the poll makes.
    awaiting_lem :
        (uuid uuid' time : ℕ) (pinned_times : List ℕ) (t : ScheduledTime)
        → Metadata.get_next_scheduled_time B w.metadata ≡ some t
        → get_before_or_at_events T B uuid time pinned_times
            (Steps.push T B (some (next T B uuid' r.last t)) self)
          ≡ get_before_or_at_events T B uuid' time pinned_times self
    unfolding get_before_or_at_events
    awaiting_lem uuid uuid' time pinned_times t scheduled =
        let s = next T B uuid' r.last t in
        let pushed = Steps.push T B (some s) self in
        rw
          (
            marked_first T B pushed (awaiting-Inv uuid' t),
            marked_first T B self r.inv,
            ◌>>=◌,
            try_next_scheduled_unsaturated pushed uuid s (last?-append self.steps s)
                (next-is_saturated uuid' r.last t),
            try_next_scheduled_lem T B self uuid' r.last w t r.at_end r.reached scheduled,
          )
          refl

    Rests-due :
        (uuid time : ℕ) (t : ScheduledTime)
        → Metadata.get_next_scheduled_time B w.metadata ≡ some t
        → t.time ≤ time
        → (i : ℕ) × (self' : Steps T B) × (get_before_or_at_events T B uuid time [] self
            ≡ ok (BeforeStatusEvents.saturating i, self'))
          × Runs T B (Wrapped.handle_scheduled T B t.time 0 w) t.time self'
    Rests-due uuid time t scheduled due =
        let (self', found, inv', at_k, at_end) =
          get_before_or_at_events_due T B self uuid time [] r.last w t r.inv r.at_end r.reached
            scheduled due (λ u here. absurd (cc)) in
        (
          self.num_deleted_steps + length self.steps,
          self',
          found,
          record {
            inv = inv';
            last = next_started T B uuid r.last w t;
            at_end = at_end;
            running = refl;
            sends = refl;
            at_time = next_started-get_time uuid r.last w t;
          },
        )

    rests_idle :
        (uuid time : ℕ)
        → Metadata.get_next_scheduled_time B w.metadata ≡ none
        → get_before_or_at_events T B uuid time [] self ≡ ok (BeforeStatusEvents.ready none, self)
    unfolding get_before_or_at_events Steps.get_last
    rests_idle uuid time idle =
        rw
          (
            marked_first T B self r.inv,
            ◌>>=◌,
            try_next_scheduled_idle self uuid r.last w r.at_end r.reached idle,
            number_of_last self r.last r.at_end,
            Steps.get_last,
            r.at_end,
          )
          (ground (arith, r.silent))

    rests_before :
        (uuid time : ℕ) (t : ScheduledTime)
        → Metadata.get_next_scheduled_time B w.metadata ≡ some t
        → time < t.time
        → get_before_or_at_events T B uuid time [] self
          ≡ ok (
            BeforeStatusEvents.ready (some t.time),
            Steps.push T B (some (next T B uuid r.last t)) self,
          )
    unfolding get_before_or_at_events Steps.get_last Step.get_time
    rests_before uuid time t scheduled early =
        let s = next T B uuid r.last t in
        let pushed = Steps.push T B (some s) self in
        let at_end = last?-append self.steps s in
        let later : ltb time t.time ≡ true = ground (arith, early) in
        rw
          (
            marked_first T B self r.inv,
            ◌>>=◌,
            try_next_scheduled_lem T B self uuid r.last w t r.at_end r.reached scheduled,
            number_of_last pushed s at_end,
            Steps.get_last,
            at_end,
            Step.get_time,
            later,
          )
          refl

    Rests-later :
        (uuid time : ℕ) (o : Option ScheduledTime)
        → Metadata.get_next_scheduled_time B w.metadata ≡ o
        → IsLater time o
        → (self' : Steps T B) × (get_before_or_at_events T B uuid time [] self
            ≡ ok (BeforeStatusEvents.ready (time_of o), self'))
          × Stands T B w self'
    Rests-later uuid time none e later = (self, rests_idle uuid time e, rests r)
    Rests-later uuid time (some t) e later = (
      Steps.push T B (some (next T B uuid r.last t)) self,
      rests_before uuid time t e later,
      awaits uuid t r e,
    )

  -- A poll of events at or after the next scheduled time: the last step runs the event's handler.
  pub Stands-due :
      (uuid time : ℕ) {w : WrappedTransposer T B} {self : Steps T B} (t : ScheduledTime)
      → Stands T B w self
      → Metadata.get_next_scheduled_time B w.metadata ≡ some t
      → t.time ≤ time
      → (i : ℕ) × (self' : Steps T B) × (get_before_or_at_events T B uuid time [] self
          ≡ ok (BeforeStatusEvents.saturating i, self'))
        × Runs T B (Wrapped.handle_scheduled T B t.time 0 w) t.time self'
  Stands-due uuid time t (rests r) scheduled due = Rests-due r uuid time t scheduled due
  Stands-due uuid time t (awaits uuid' t' r scheduled') scheduled due =
      let (i, self', found, runs) = Rests-due r uuid' time t scheduled due in
      (i, self', awaiting_lem r uuid uuid' time [] t' scheduled' ∙ found, runs)

  -- A poll of events before the next scheduled time gives that time, and the steps stand where they did.
  pub Stands-later :
      (uuid time : ℕ) {w : WrappedTransposer T B} {self : Steps T B}
      → Stands T B w self
      → IsLater time (Metadata.get_next_scheduled_time B w.metadata)
      → (self' : Steps T B) × (get_before_or_at_events T B uuid time [] self
          ≡ ok (
            BeforeStatusEvents.ready (time_of (Metadata.get_next_scheduled_time B w.metadata)),
            self',
          ))
        × Stands T B w self'
  Stands-later uuid time (rests r) later = Rests-later r uuid time _ refl later
  Stands-later uuid time (awaits uuid' t r scheduled) later =
      let (self', found, stands) = Rests-later r uuid' time _ refl later in
      (self', awaiting_lem r uuid uuid' time [] t scheduled ∙ found, stands)
