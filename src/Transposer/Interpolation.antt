-- ===== src/Transposer/Interpolation.antt =====
-- transposer/src/step/interpolation.rs and transposer/src/step/interpolate_context.rs: the state of a
-- transposer at a time between its steps.
pub mod Polls
use cozal.Prelude.{ℕ, zero, suc, Option, some, none}
use cozal.Transposer.Backend.{Backend}
use cozal.Transposer.Program.{Transposer}
use cozal.Transposer.Wrapped.{WrappedTransposer}

-- The body of a user's `interpolate`, as the calls that it makes of its `InterpolateContext`. `pending`
-- is an await of a future that is not ready at this poll.
pub data Inquiry (OutputState : Type 0) : Type 0 where
  finish : OutputState → Inquiry OutputState
  current_time : (ℕ → Inquiry OutputState) → Inquiry OutputState
  last_updated_time : (ℕ → Inquiry OutputState) → Inquiry OutputState
  pending : Inquiry OutputState → Inquiry OutputState

-- `StepInterpolateContext`; of the metadata it reads the time of the last update.
pub record StepInterpolateContext : Type 0 where
  pub interpolation_time : ℕ
  pub last_updated : ℕ

-- `Interpolation`: what its future has still to do, and the context that the future owns.
pub record Interpolation (OutputState : Type 0) : Type 0 where
  pub future : Inquiry OutputState
  pub context : StepInterpolateContext

module _ (T : Transposer) (B : Backend T.Scheduled) {OutputState : Type 0} where
  -- `Interpolation::new` with `create_fut`, for the user's `interpolate`.
  unfoldable pub new :
      (T.Self → Inquiry OutputState) → ℕ → WrappedTransposer T B → Interpolation OutputState
  new interpolate time wrapped_transposer = record {
    future = interpolate wrapped_transposer.transposer;
    context = record {
      interpolation_time = time;
      last_updated = wrapped_transposer.metadata.last_updated.time;
    };
  }

module _ {OutputState : Type 0} where
  -- Where a poll of the future ends: it returns, or it waits with the rest of its body.
  unfoldable pub run :
      Inquiry OutputState → StepInterpolateContext → Option OutputState × Inquiry OutputState
  run (finish state) cx = (some state, finish state)
  run (current_time f) cx = run (f cx.interpolation_time) cx
  run (last_updated_time f) cx = run (f cx.last_updated) cx
  run (pending q) cx = (none, q)

  -- `Future::poll`
  unfoldable pub poll : Interpolation OutputState → Option OutputState × Interpolation OutputState
  unfolding run
  poll self =
      let polled = run self.future self.context in (polled.0, record self { future = polled.1 })
