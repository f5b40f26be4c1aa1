-- ===== src/Source/Steps/Advance.antt =====
-- source/src/sources/transposer/steps.rs: a poll that takes the transposer of the first step, after
-- polls before that step were given up by `delete_before`.
use cozal.Prelude.{
  ℕ, suc, ◌+◌, ◌≡◌, true, some, List, [], ◌∷◌, arith, refl, ok, err, panic, ◌<◌, ◌≤◌,
}
use cozal.Transposer.Backend.{Backend}
use cozal.Transposer.Program.{Transposer}
use cozal.Transposer.Time.{ScheduledTime}
use cozal.Transposer.Wrapped
use cozal.Transposer.Wrapped.{WrappedTransposer}
use cozal.Transposer.Step
use cozal.Transposer.Step.{Step, saturated, unsaturated, saturating, scheduled_data}
use cozal.Source.Sets
use cozal.Source.Steps
use cozal.Source.Steps.{Steps, Found, at, absent}
use cozal.Source.Steps.Query
use cozal.Source.Steps.Query.{BeforeStatusEvents, get_before_or_at, get_before_or_at_events}

module _ (T : Transposer) (B : Backend T.Scheduled) where
  -- Two steps are left: the first is saturated, and its successor, which is scheduled, is not.
  pub record IsSpent (self : Steps T B) (a b : Step T B) (w : WrappedTransposer T B)
      (t : ScheduledTime) (d : ℕ) : Type 0 where
    pub steps : self.steps ≡ a ∷ b ∷ []
    pub checkpoints : self.not_unsaturated ≡ self.num_deleted_steps ∷ []
    pub deleted : self.deleted_before ≡ some d
    pub first : a.status ≡ saturated w
    pub second : b.status ≡ unsaturated
    pub successor : b.uuid_prev ≡ some a.uuid_self
    pub scheduled : b.step_data ≡ scheduled_data t
    pub before : Step.get_time T B a < d

module _ (T : Transposer) (B : Backend T.Scheduled) {self : Steps T B} {a b : Step T B}
    {w : WrappedTransposer T B} {t : ScheduledTime} {d : ℕ} (h : IsSpent T B self a b w t d) where
  abbrev pub resumed : Step T B
  resumed = record b { status = saturating (Wrapped.handle_scheduled T B t.time b.event_count w) }

  -- The transposer of the first step moves on to the second, and the first step is dropped.
  abbrev pub moved : Steps T B
  moved = record self {
    steps = resumed ∷ [];
    not_unsaturated = (self.num_deleted_steps + 1) ∷ [];
    num_deleted_steps = self.num_deleted_steps + 1;
  }

  deletes_first :
      (pinned_times : List ℕ)
      → Steps.sequence_number_to_delete T B pinned_times (0 + 1 + self.num_deleted_steps) self
        ≡ ok (some self.num_deleted_steps)
  unfolding Steps.sequence_number_to_delete
  deletes_first pinned_times = ground (arith, h)

  takes_first :
      Steps.saturate_adjacent T B 1 true self
      ≡ ok (record self {
        steps = record a { status = unsaturated } ∷ resumed ∷ [];
        not_unsaturated = (1 + self.num_deleted_steps) ∷ [];
      })
  unfolding Steps.saturate_adjacent Step.saturate_take Sets.insert Sets.remove
  takes_first = ground (arith, h)

  -- Two steps are left, the first of them saturated and earlier than the time of `delete_before`, the
  -- second scheduled: to saturate the second returns, with its future started from the first step's
  -- transposer, and the first step dropped.
  saturate_spent :
      (pinned_times : List ℕ)
      → Steps.saturate T B (0 + 1 + self.num_deleted_steps) pinned_times self ≡ ok moved
  unfolding Steps.saturate Steps.make_room Steps.ensure_first_step_is_not_unsaturated
      Step.is_unsaturated
  saturate_spent pinned_times = ground (arith, h, deletes_first pinned_times, takes_first)

  -- Two steps are left, the first saturated and earlier than the second, which is scheduled, and
  -- earlier than the time of `delete_before`: `get_before_or_at` panics for every time at or after the
  -- second step. It reads the step at the index that it had before the first step was dropped.
  pub get_before_or_at_after_delete :
      (fuel uuid time : ℕ) (pinned_times : List ℕ)
      → Step.get_time T B a < Step.get_time T B b
      → Step.get_time T B b ≤ time
      → get_before_or_at T B (suc fuel) uuid time pinned_times self ≡ panic
  unfolding get_before_or_at Query.look_back Steps.debug_assertions Steps.try_next_scheduled
      Steps.binary_search Step.is_saturated Step.is_saturating
  get_before_or_at_after_delete fuel uuid time pinned_times apart due =
      ground (arith, h, saturate_spent pinned_times)

  resumed_time : Step.get_time T B resumed ≡ Step.get_time T B b
  unfolding Step.get_time
  resumed_time = refl

  last_number : Steps.max_sequence_number T B self ≡ ok (0 + 1 + self.num_deleted_steps)
  unfolding Steps.max_sequence_number
  last_number = ground (arith, h)

  -- A poll of events at or after the second step starts that step, and so drops the first one.
  events_spent :
      (uuid time : ℕ) (pinned_times : List ℕ)
      → b.can_produce_events ≡ true
      → Step.get_time T B b ≤ time
      → (get_before_or_at_events T B uuid time pinned_times self
          ≡ ok (BeforeStatusEvents.saturating (0 + 1 + self.num_deleted_steps), moved))
  unfolding get_before_or_at_events Steps.debug_assertions Steps.try_next_scheduled Steps.get_last
      Step.is_saturated Step.is_unsaturated
  events_spent uuid time pinned_times produces due =
      ground (arith, h, produces, due, last_number, saturate_spent pinned_times)

  -- Two steps are left: the first is saturated, and earlier than the time of `delete_before`; the second
  -- is scheduled, and not started. A poll of events at or after the second step starts that step. Then a
  -- poll of any time before the second step is an error, also at or after the time of `delete_before`.
  pub get_before_or_at_events-moved :
      (fuel uuid uuid' time time' : ℕ) (pinned_times pinned_times' : List ℕ)
      → b.can_produce_events ≡ true
      → Step.get_time T B b ≤ time
      → time' < Step.get_time T B b
      → (get_before_or_at_events T B uuid time pinned_times self
          ≡ ok (BeforeStatusEvents.saturating (0 + 1 + self.num_deleted_steps), moved))
        × (get_before_or_at T B fuel uuid' time' pinned_times' moved ≡ err)
  unfolding get_before_or_at Steps.debug_assertions Steps.try_next_scheduled Steps.binary_search
      Step.is_saturated
  get_before_or_at_events-moved fuel uuid uuid' time time' pinned_times pinned_times' produces due
        early =
      (events_spent uuid time pinned_times produces due, ground (arith, h, early, resumed_time))
