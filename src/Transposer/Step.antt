-- ===== src/Transposer/Step.antt =====
-- transposer/src/step/mod.rs: a step of a transposer, which is unsaturated, saturating or saturated.
-- The model is of a build with debug assertions, so steps carry their identifiers. The state of the
-- inputs, which a step holds for its handlers, is no part of it.
pub mod Replay
pub mod Resume
use cozal.Prelude.{
  ℕ, ◌+◌, ◌≡◌, ◌⊎◌, inl, inr, Bool, true, false, Option, none, some, Outcome, ok, panic,
  out_of_fuel, ◌>>=◌, ltb, ◌==◌, if◌then◌else◌,
}
use cozal.Transposer.Time.{ScheduledTime}
use cozal.Transposer.Backend.{Backend}
use cozal.Transposer.Metadata
use cozal.Transposer.Program.{Transposer}
use cozal.Transposer.Inputs.{StepInputs}
use cozal.Transposer.Wrapped
use cozal.Transposer.Wrapped.{
  WrappedTransposer, Future, FuturePoll, is_ready, is_pending, has_panicked,
}

pub data StepPoll (OutputEvent : Type 0) : Type 0 where
  emitted : OutputEvent → StepPoll OutputEvent
  pending : StepPoll OutputEvent
  ready : StepPoll OutputEvent

pub data PollErr : Type 0 where
  poll_unsaturated poll_saturated : PollErr

pub data InterpolateErr : Type 0 where
  not_saturated time_past : InterpolateErr

pub data NextUnsaturatedErr : Type 0 where
  next_not_saturated : NextUnsaturatedErr

-- `SaturateTakeErr` and `SaturateCloneErr`, of which the code returns these.
pub data SaturateErr : Type 0 where
  previous_not_saturated incorrect_previous : SaturateErr

-- `self.uuid_prev != Some(prev.uuid_self)`
abbrev pub is_previous : Option ℕ → ℕ → Bool
is_previous none uuid = false
is_previous (some prev) uuid = prev == uuid

module _ (T : Transposer) (B : Backend T.Scheduled) where
  pub data StepData : Type 0 where
    init_data : ℕ → StepData
    input_data : StepInputs T → StepData
    scheduled_data : ScheduledTime → StepData

  -- The receiver of a saturating step is empty between two polls: an event is taken in the poll that
  -- sends it.
  pub data StepStatus : Type 0 where
    unsaturated : StepStatus
    saturating : Future T B → StepStatus
    saturated : WrappedTransposer T B → StepStatus

module _ (T : Transposer) (B : Backend T.Scheduled) where
  pub record Step : Type 0 where
    pub step_data : StepData T B
    pub status : StepStatus T B
    pub event_count : ℕ
    pub can_produce_events : Bool
    pub uuid_self : ℕ
    pub uuid_prev : Option ℕ

-- What `next_unsaturated` makes a step of, and the inputs that it leaves.
abbrev pub choose_data :
    {T : Transposer} {B : Backend T.Scheduled}
    → Option (StepInputs T)
    → Option ScheduledTime
    → Option (StepData T B) × Option (StepInputs T)
choose_data none none = (none, none)
choose_data none (some t) = (some (scheduled_data t), none)
choose_data (some i) none = (some (input_data i), none)
choose_data (some i) (some s) =
    if ltb s.time i.time then (some (scheduled_data s), some i) else (some (input_data i), none)

module _ (T : Transposer) (B : Backend T.Scheduled) where
  -- A fresh identifier, `Uuid::new_v4()`, is an argument.
  unfoldable pub new_init : ℕ → T.Self → ℕ → B.Seed → Step T B
  new_init uuid transposer start_time rng_seed = record {
    step_data = init_data start_time;
    status = saturating (Wrapped.init T B transposer rng_seed start_time 0);
    event_count = 0;
    can_produce_events = true;
    uuid_self = uuid;
    uuid_prev = none;
  }

  abbrev pub new_step : ℕ → ℕ → StepData T B → Step T B
  new_step uuid prev data' = record {
    step_data = data';
    status = unsaturated;
    event_count = 0;
    can_produce_events = true;
    uuid_self = uuid;
    uuid_prev = some prev;
  }

  abbrev pub next_of :
      ℕ
      → ℕ
      → Option (StepData T B) × Option (StepInputs T)
      → Option (Step T B) × Option (StepInputs T)
  next_of uuid prev (none, inputs) = (none, inputs)
  next_of uuid prev (some d, inputs) = (some (new_step uuid prev d), inputs)

  -- The next step, if there is one, and the inputs that are left.
  unfoldable pub next_unsaturated :
      ℕ
      → Step T B
      → Option (StepInputs T)
      → NextUnsaturatedErr ⊎ (Option (Step T B) × Option (StepInputs T))
  next_unsaturated uuid self next_inputs = elim (self.status) [
    | saturated w ↦ inr (
        next_of uuid self.uuid_self
          (choose_data next_inputs (Metadata.get_next_scheduled_time B w.metadata)))
    | _ ↦ inl next_not_saturated
  ]

  abbrev pub without_inputs :
      NextUnsaturatedErr ⊎ (Option (Step T B) × Option (StepInputs T))
      → NextUnsaturatedErr ⊎ Option (Step T B)
  without_inputs (inl e) = inl e
  without_inputs (inr (s, _)) = inr s

  unfoldable pub next_scheduled_unsaturated : ℕ → Step T B → NextUnsaturatedErr ⊎ Option (Step T B)
  unfolding next_unsaturated
  next_scheduled_unsaturated uuid self = without_inputs (next_unsaturated uuid self none)

  -- The status of a step that starts to saturate from the transposer of its predecessor.
  unfoldable pub saturate : WrappedTransposer T B → Step T B → Outcome (Step T B)
  saturate w self = elim (self.step_data) [
    | init_data _ ↦ panic
    | input_data i ↦
        ok (record self { status = saturating (Wrapped.handle_input T B i self.event_count w) })
    | scheduled_data t ↦ ok (record self {
      status = saturating (Wrapped.handle_scheduled T B t.time self.event_count w);
    })
  ]

  -- On an error both steps are as they were. Else the step, and its predecessor, now unsaturated.
  unfoldable pub saturate_take : Step T B → Step T B → Outcome (SaturateErr ⊎ (Step T B × Step T B))
  unfolding saturate
  saturate_take self prev =
      if is_previous self.uuid_prev prev.uuid_self
      then (elim (prev.status) [
        | saturated w ↦ do
          self' ← saturate w self
          ok (inr (self', record prev { status = unsaturated }))
        | _ ↦ ok (inl previous_not_saturated)
      ])
      else ok (inl incorrect_previous)

  unfoldable pub saturate_clone : Step T B → Step T B → Outcome (SaturateErr ⊎ Step T B)
  unfolding saturate
  saturate_clone self prev =
      if is_previous self.uuid_prev prev.uuid_self
      then (elim (prev.status) [
        | saturated w ↦ do self' ← saturate w self; ok (inr self')
        | _ ↦ ok (inl previous_not_saturated)
      ])
      else ok (inl incorrect_previous)

  unfoldable pub desaturate : Step T B → Step T B
  desaturate self = record self { status = unsaturated }

  -- What a poll of the future of a saturating step makes of the step.
  abbrev pub after_poll : Step T B → FuturePoll T B → Outcome (StepPoll T.OutputEvent × Step T B)
  after_poll self (is_ready w) =
      ok (ready, record self { status = saturated w; can_produce_events = false })
  after_poll self (is_pending (some e) f) =
      ok (emitted e, record self { status = saturating f; event_count = self.event_count + 1 })
  after_poll self (is_pending none f) = ok (pending, record self { status = saturating f })
  after_poll self has_panicked = panic
  after_poll self Wrapped.FuturePoll.out_of_fuel = out_of_fuel

  abbrev pub poll_with :
      Step T B → FuturePoll T B → Outcome (PollErr ⊎ (StepPoll T.OutputEvent × Step T B))
  poll_with self p = do polled ← after_poll self p; ok (inr polled)

  -- `fuel` bounds the handlers of one poll.
  unfoldable pub poll : ℕ → Step T B → Outcome (PollErr ⊎ (StepPoll T.OutputEvent × Step T B))
  poll fuel self = elim (self.status) [
    | unsaturated ↦ ok (inl poll_unsaturated)
    | saturating f ↦ poll_with self (Wrapped.poll T B fuel f)
    | saturated _ ↦ ok (inl poll_saturated)
  ]

  -- The time and the transposer that an `Interpolation` is made of.
  unfoldable pub interpolate : ℕ → Step T B → InterpolateErr ⊎ (ℕ × WrappedTransposer T B)
  interpolate time self = elim (self.status) [
    | saturated w ↦ if ltb time w.metadata.last_updated.time then inl time_past else inr (time, w)
    | _ ↦ inl not_saturated
  ]

  abbrev pub time_of_data : StepData T B → ℕ
  time_of_data (init_data time) = time
  time_of_data (input_data i) = i.time
  time_of_data (scheduled_data t) = t.time

  unfoldable pub get_time : Step T B → ℕ
  get_time self = time_of_data self.step_data

  abbrev pub status_is_unsaturated : StepStatus T B → Bool
  status_is_unsaturated unsaturated = true
  status_is_unsaturated _ = false

  abbrev pub status_is_saturating : StepStatus T B → Bool
  status_is_saturating (saturating _) = true
  status_is_saturating _ = false

  abbrev pub status_is_saturated : StepStatus T B → Bool
  status_is_saturated (saturated _) = true
  status_is_saturated _ = false

  unfoldable pub is_unsaturated : Step T B → Bool
  is_unsaturated self = status_is_unsaturated self.status

  unfoldable pub is_saturating : Step T B → Bool
  is_saturating self = status_is_saturating self.status

  unfoldable pub is_saturated : Step T B → Bool
  is_saturated self = status_is_saturated self.status
