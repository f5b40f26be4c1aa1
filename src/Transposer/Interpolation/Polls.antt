-- ===== src/Transposer/Interpolation/Polls.antt =====
-- transposer/src/step/interpolation.rs: an interpolation that is polled often enough gives the state
-- that the user's `interpolate` computes.
use cozal.Prelude.{ℕ, zero, suc, ◌≡◌, refl, Option, some, none}
use cozal.Transposer.Backend.{Backend}
use cozal.Transposer.Program.{Transposer}
use cozal.Transposer.Wrapped.{WrappedTransposer}
use cozal.Transposer.Interpolation.{
  Inquiry, finish, current_time, last_updated_time, pending, Interpolation, StepInterpolateContext,
  new, poll,
}

module _ {OutputState : Type 0} where
  -- What `interpolate` computes at a time, for a transposer that was last updated at another.
  abbrev pub value : Inquiry OutputState → ℕ → ℕ → OutputState
  value (finish state) now updated = state
  value (current_time f) now updated = value (f now) now updated
  value (last_updated_time f) now updated = value (f updated) now updated
  value (pending q) now updated = value q now updated

  -- How often it waits.
  abbrev pub waits : Inquiry OutputState → ℕ → ℕ → ℕ
  waits (finish state) now updated = 0
  waits (current_time f) now updated = waits (f now) now updated
  waits (last_updated_time f) now updated = waits (f updated) now updated
  waits (pending q) now updated = suc (waits q now updated)

  -- `n` polls, up to the first that is ready.
  abbrev pub poll_times : ℕ → Interpolation OutputState → Option OutputState
  poll_times zero i = none
  poll_times (suc n) i = elim ((poll i).0) [
    | some state ↦ some state
    | none ↦ poll_times n (poll i).1
  ]

  poll_times_lem :
      (q : Inquiry OutputState) (cx : StepInterpolateContext)
      → (poll_times
            (suc (waits q cx.interpolation_time cx.last_updated))
            (record { future = q; context = cx })
          ≡ some (value q cx.interpolation_time cx.last_updated))
  unfolding poll
  poll_times_lem (finish state) cx = refl
  poll_times_lem (current_time f) cx = poll_times_lem (f cx.interpolation_time) cx
  poll_times_lem (last_updated_time f) cx = poll_times_lem (f cx.last_updated) cx
  poll_times_lem (pending q) cx = poll_times_lem q cx

  module _ (T : Transposer) (B : Backend T.Scheduled) where
    -- An interpolation for `time`, polled once more than its future waits, gives the state that the
    -- user's `interpolate` computes from `time` and the time of the last update.
    pub poll_times-new :
        (interpolate : T.Self → Inquiry OutputState) (time : ℕ) (w : WrappedTransposer T B)
        → (poll_times
              (suc (waits (interpolate w.transposer) time w.metadata.last_updated.time))
              (new T B interpolate time w)
            ≡ some (value (interpolate w.transposer) time w.metadata.last_updated.time))
    unfolding new
    poll_times-new interpolate time w =
        poll_times_lem (interpolate w.transposer)
          (record { interpolation_time = time; last_updated = w.metadata.last_updated.time })
