-- ===== src/Transposer/Metadata.antt =====
-- transposer/src/step/transposer_metadata.rs: the schedule of a transposer, and the handles by which
-- events on it can be expired.
pub mod Sync
pub mod Expire
use cozal.Prelude.{ℕ, Option, none, some}
use cozal.Transposer.Time.{SubStepTime, ScheduledTime, ExpireHandle, ExpireHandleFactory, next}
use cozal.Transposer.Backend.{Backend}

-- `ExpireEventError` has one value; `none` stands for a panic.
pub data ExpireResult (Scheduled : Type 0) : Type 0 where
  expired : ℕ → Scheduled → ExpireResult Scheduled
  invalid_or_used_handle : ExpireResult Scheduled

module _ {Scheduled : Type 0} (B : Backend Scheduled) where
  pub record TransposerMetaData : Type 0 where
    pub last_updated : SubStepTime
    pub schedule : B.schedules.Map
    pub expire_handles_forward : B.forwards.Map
    pub expire_handles_backward : B.backwards.Map
    pub expire_handle_factory : ExpireHandleFactory
    pub rng : B.Rng

module _ {Scheduled : Type 0} (B : Backend Scheduled) where
  unfoldable pub new : B.Seed → ℕ → TransposerMetaData B
  new rng_seed start_time = record {
    last_updated = record { index = 0; time = start_time };
    schedule = B.schedules.new;
    expire_handles_forward = B.forwards.new;
    expire_handles_backward = B.backwards.new;
    expire_handle_factory = record { next_handle = 0 };
    rng = B.from_seed rng_seed;
  }

  unfoldable pub schedule_event :
      ScheduledTime → Scheduled → TransposerMetaData B → TransposerMetaData B
  schedule_event time payload self = record self {
    schedule = B.schedules.insert time payload self.schedule;
  }

  unfoldable pub schedule_event_expireable :
      ScheduledTime → Scheduled → TransposerMetaData B → ExpireHandle × TransposerMetaData B
  unfolding schedule_event
  schedule_event_expireable time payload self =
      let self' = schedule_event time payload self in
      let (handle, factory) = next self'.expire_handle_factory in
      (
        handle,
        record self' {
          expire_handle_factory = factory;
          expire_handles_forward = B.forwards.insert handle time self'.expire_handles_forward;
          expire_handles_backward = B.backwards.insert time handle self'.expire_handles_backward;
        },
      )

  -- The two removals after the payload is taken.
  abbrev pub forget_handle :
      ExpireHandle → ScheduledTime → B.schedules.Map → TransposerMetaData B → TransposerMetaData B
  forget_handle handle time schedule self = record self {
    schedule = schedule;
    expire_handles_backward = (B.backwards.remove time self.expire_handles_backward).1;
    expire_handles_forward = (B.forwards.remove handle self.expire_handles_forward).1;
  }

  -- `payload.unwrap()`
  abbrev pub finish_expire :
      ExpireHandle
      → ScheduledTime
      → Option Scheduled
      → B.schedules.Map
      → TransposerMetaData B
      → Option (ExpireResult Scheduled × TransposerMetaData B)
  finish_expire handle time none schedule self = none
  finish_expire handle time (some payload) schedule self =
      some (expired time.time payload, forget_handle handle time schedule self)

  unfoldable pub expire_event :
      ExpireHandle → TransposerMetaData B → Option (ExpireResult Scheduled × TransposerMetaData B)
  expire_event handle self = elim (B.forwards.get handle self.expire_handles_forward) [
    | none ↦ some (invalid_or_used_handle, self)
    | some time ↦
        let removed = B.schedules.remove time self.schedule in
        finish_expire handle time removed.0 removed.1 self
  ]

  unfoldable pub get_next_scheduled_time : TransposerMetaData B → Option ScheduledTime
  get_next_scheduled_time self = elim (B.schedules.get_first self.schedule) [
    | none ↦ none
    | some (k, _) ↦ some k
  ]

  -- The handle of an event that leaves the schedule, where it has one.
  abbrev pub release_handle : Option ExpireHandle → B.forwards.Map → B.forwards.Map
  release_handle none m = m
  release_handle (some h) m = (B.forwards.remove h m).1

  abbrev pub finish_pop :
      Option (ScheduledTime × Scheduled)
      → B.schedules.Map
      → TransposerMetaData B
      → Option (ScheduledTime × Scheduled) × TransposerMetaData B
  finish_pop none schedule self = (none, record self { schedule = schedule })
  finish_pop (some (k, v)) schedule self =
      let removed = B.backwards.remove k self.expire_handles_backward in
      (
        some (k, v),
        record self {
          schedule = schedule;
          expire_handles_backward = removed.1;
          expire_handles_forward = release_handle removed.0 self.expire_handles_forward;
        },
      )

  unfoldable pub pop_first_event :
      TransposerMetaData B → Option (ScheduledTime × Scheduled) × TransposerMetaData B
  pop_first_event self =
      let popped = B.schedules.pop_first self.schedule in finish_pop popped.0 popped.1 self
