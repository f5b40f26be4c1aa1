-- ===== src/Transposer/Program.antt =====
-- transposer/src/lib.rs and transposer/src/context.rs: what a user of the crate provides, and the
-- calls that its handlers make of the engine.
use cozal.Prelude.{ℕ, Bool, Option, Ordering}
use cozal.Transposer.Time.{ExpireHandle}
use cozal.Transposer.Metadata.{ExpireResult}

-- The body of an `async fn` of a transposer, as the calls that it makes of its context, each with
-- what follows. `pending` is an await of any other future that is not ready at this poll.
pub data Program (Scheduled OutputEvent R : Type 0) : Type 0 where
  finish : R → Program Scheduled OutputEvent R
  current_time : (ℕ → Program Scheduled OutputEvent R) → Program Scheduled OutputEvent R
  last_updated_time : (ℕ → Program Scheduled OutputEvent R) → Program Scheduled OutputEvent R
  -- `false` is `Err(ScheduleEventError::NewEventBeforeCurrent)`.
  schedule_event :
      ℕ → Scheduled → (Bool → Program Scheduled OutputEvent R) → Program Scheduled OutputEvent R
  schedule_event_expireable :
      ℕ
      → Scheduled
      → (Option ExpireHandle → Program Scheduled OutputEvent R)
      → Program Scheduled OutputEvent R
  expire_event :
      ExpireHandle
      → (ExpireResult Scheduled → Program Scheduled OutputEvent R)
      → Program Scheduled OutputEvent R
  emit_event : OutputEvent → Program Scheduled OutputEvent R → Program Scheduled OutputEvent R
  get_rng : (ℕ → Program Scheduled OutputEvent R) → Program Scheduled OutputEvent R
  pending : Program Scheduled OutputEvent R → Program Scheduled OutputEvent R

-- `trait Transposer` with its `TransposerInputEventHandler`s. An `InputEvent` is an event of any of
-- the input types; `input_type` is the `TypeId` of its type, `sort` its `SORT`.
pub record Transposer : Type 1 where
  pub Self : Type 0
  pub OutputEvent : Type 0
  pub Scheduled : Type 0
  pub InputEvent : Type 0
  pub init : Self → Program Scheduled OutputEvent Self
  pub handle_scheduled : Scheduled → Self → Program Scheduled OutputEvent Self
  pub handle_input : InputEvent → Self → Program Scheduled OutputEvent Self
  pub sort_input_events : ℕ → InputEvent → InputEvent → Ordering
  pub input_type : InputEvent → ℕ
  pub sort : InputEvent → ℕ
