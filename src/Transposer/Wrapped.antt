-- ===== src/Transposer/Wrapped.antt =====
-- transposer/src/step/wrapped_transposer.rs, with `StepInputs::handle` of
-- transposer/src/step/step_inputs.rs: the futures that init a transposer and handle its inputs and
-- scheduled events.
pub mod Drive
pub mod Polls
pub mod Ends
use cozal.Prelude.{
  ℕ, zero, suc, ◌+◌, Bool, true, false, Option, none, some, List, [], ◌∷◌, ◌++◌, ◌==◌,
  if◌then◌else◌,
}
use cozal.Transposer.Time.{SubStepTime, ScheduledTime, new_init}
use cozal.Transposer.Backend.{Backend}
use cozal.Transposer.Metadata
use cozal.Transposer.Metadata.{TransposerMetaData}
use cozal.Transposer.Program.{Program, Transposer}
use cozal.Transposer.Context
use cozal.Transposer.Context.{SubStepUpdateContext, Run, finished, emitted, waiting, panicked, run}
use cozal.Transposer.Inputs.{StepInputs, handled}

-- Where a future of `WrappedTransposer` is: in the user's `init`, in its handler of an input event
-- with the events that are left, or in its handler of a scheduled event. A `SubStepTime` is the local
-- variable `time` of the function.
pub data Phase (T : Transposer) : Type 0 where
  in_init : ℕ → Phase T
  in_input : SubStepTime → List T.InputEvent → Phase T
  in_scheduled : SubStepTime → Phase T

module _ (T : Transposer) (B : Backend T.Scheduled) where
  pub record WrappedTransposer : Type 0 where
    pub transposer : T.Self
    pub metadata : TransposerMetaData B

  -- A future: it has its result, or it is in a handler, or it met a panic.
  pub data Future : Type 0 where
    ready : WrappedTransposer → Future
    handler : Phase T → Program T.Scheduled T.OutputEvent T.Self → SubStepUpdateContext B → Future
    failed : Future

  -- The scheduled event that the loop of `handle_scheduled` pops, or `unwrap` on `none`.
  abbrev pub handle_popped :
      SubStepTime
      → T.Self
      → SubStepUpdateContext B
      → Option (ScheduledTime × T.Scheduled) × TransposerMetaData B
      → Future
  handle_popped time transposer context (none, metadata) = failed
  handle_popped time transposer context (some (_, e), metadata) =
      handler (in_scheduled time) (T.handle_scheduled e transposer)
        (record context { metadata = metadata })

  -- `get_next_scheduled_time().map(|s| s.time) == Some(time.time)`
  abbrev pub is_due : Option ScheduledTime → ℕ → Bool
  is_due none time = false
  is_due (some s) time = s.time == time

  -- The head of the `while` loop of `handle_scheduled`.
  unfoldable pub scheduled_loop : SubStepTime → T.Self → SubStepUpdateContext B → Future
  scheduled_loop time transposer context =
      if is_due (Metadata.get_next_scheduled_time B context.metadata) time.time
      then handle_popped time transposer context (Metadata.pop_first_event B context.metadata)
      else ready (record { transposer = transposer; metadata = context.metadata })

  unfoldable pub handle_scheduled : ℕ → ℕ → WrappedTransposer → Future
  unfolding scheduled_loop
  handle_scheduled time outputs_to_swallow self =
      let time' : SubStepTime = record {
        index = self.metadata.last_updated.index + 1;
        time = time;
      } in
      scheduled_loop time' self.transposer (Context.new B time' self.metadata outputs_to_swallow)

  -- The loop of `StepInputs::handle`, and what `handle_input` does after it.
  unfoldable pub input_loop :
      SubStepTime → List T.InputEvent → T.Self → SubStepUpdateContext B → Future
  unfolding handle_scheduled
  input_loop time [] transposer context =
      handle_scheduled time.time context.outputs_to_swallow (record {
        transposer = transposer;
        metadata = record (context.metadata) { last_updated = time };
      })
  input_loop time (i ∷ rest) transposer context =
      handler (in_input time rest) (T.handle_input i transposer) context

  unfoldable pub handle_input : StepInputs T → ℕ → WrappedTransposer → Future
  unfolding input_loop handled
  handle_input input outputs_to_swallow self =
      let time : SubStepTime = record {
        index = self.metadata.last_updated.index + 1;
        time = input.time;
      } in
      input_loop time (handled T input) self.transposer
        (Context.new B time self.metadata outputs_to_swallow)

  unfoldable pub init : T.Self → B.Seed → ℕ → ℕ → Future
  init transposer rng_seed start_time outputs_to_swallow =
      handler (in_init start_time) (T.init transposer) (
        Context.new B (new_init start_time) (Metadata.new B rng_seed start_time) outputs_to_swallow)

  -- What follows when a handler has returned.
  unfoldable pub after_handler : Phase T → T.Self → SubStepUpdateContext B → Future
  unfolding handle_scheduled input_loop scheduled_loop
  after_handler (in_init start_time) transposer context =
      handle_scheduled start_time context.outputs_to_swallow
        (record { transposer = transposer; metadata = context.metadata })
  after_handler (in_input time rest) transposer context =
      let updated : SubStepTime = record {
        index = context.metadata.last_updated.index + 1;
        time = time.time;
      } in
      input_loop time rest transposer
        (record context { metadata = record (context.metadata) { last_updated = updated } })
  after_handler (in_scheduled time) transposer context =
      scheduled_loop (record time { index = time.index + 1 }) transposer
        (record context { metadata = record (context.metadata) { last_updated = time } })

  -- `Future::poll`, with the event that was sent meanwhile. `out_of_fuel` is a poll that has run more
  -- handlers than its fuel.
  pub data FuturePoll : Type 0 where
    is_ready : WrappedTransposer → FuturePoll
    is_pending : Option T.OutputEvent → Future → FuturePoll
    has_panicked : FuturePoll
    out_of_fuel : FuturePoll

  unfoldable pub poll : ℕ → Future → FuturePoll
  poll zero f = out_of_fuel
  poll (suc n) (ready w) = is_ready w
  poll (suc n) failed = has_panicked
  poll (suc n) (handler phase p context) = elim (run B p context) [
    | finished transposer context' ↦ poll n (after_handler phase transposer context')
    | emitted e p' context' ↦ is_pending (some e) (handler phase p' context')
    | waiting p' context' ↦ is_pending none (handler phase p' context')
    | panicked ↦ has_panicked
  ]
