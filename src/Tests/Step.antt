-- ===== src/Tests/Step.antt =====
-- transposer/src/step/mod.rs on a step of `CollatzTransposer` that handles one scheduled event.
use cozal.Prelude.{
  ℕ, suc, ◌≡◌, refl, ◌⊎◌, inr, none, some, Option, List, [], ◌∷◌, Outcome, ok, true, arith,
}
use cozal.Transposer.Time.{ScheduledTime}
use cozal.Transposer.Storage.Std.{btree_map, hash_map}
use cozal.Transposer.Metadata
use cozal.Transposer.Program.{Program, emit_event, finish}
use cozal.Transposer.Context
use cozal.Transposer.Context.{SubStepUpdateContext, run, run_to_end}
use cozal.Transposer.Context.Swallow.{swallowing}
use cozal.Transposer.Wrapped
use cozal.Transposer.Wrapped.{WrappedTransposer, Future, FuturePoll}
use cozal.Transposer.Wrapped.Drive.{drive}
use cozal.Transposer.Wrapped.Ends.{Ends, Ends-of_drive}
use cozal.Transposer.Step.{
  Step, StepPoll, PollErr, poll, saturate, desaturate, unsaturated, saturating, scheduled_data,
}
use cozal.Transposer.Step.Replay.{Polls, ends, emits, replay}
use cozal.Transposer.Step.Resume.{replay_total}
use cozal.Tests.Collatz.{collatz, maps}

abbrev first : ScheduledTime
first = record { time = 3; parent_index = 0; emission_index = 0 }

-- The transposer after its init.
abbrev w : WrappedTransposer collatz maps
w = record {
  transposer = 6;
  metadata = Metadata.schedule_event maps first tt (Metadata.new maps 0 3);
}

abbrev step : Step collatz maps
step = record {
  step_data = scheduled_data first;
  status = unsaturated;
  event_count = 0;
  can_produce_events = true;
  uuid_self = 1;
  uuid_prev = some 0;
}

abbrev future : Future collatz maps
future = Wrapped.handle_scheduled collatz maps 3 0 w

abbrev step_of :
    Outcome (PollErr ⊎ (StepPoll ℕ × Step collatz maps)) → Step collatz maps → Step collatz maps
step_of (ok (inr (_, s))) _ = s
step_of _ s = s

abbrev polled : Step collatz maps → Step collatz maps
polled s = step_of (poll collatz maps 4 s) s

abbrev started : Step collatz maps
started = record step { status = saturating future }

abbrev done : Step collatz maps
done = polled (polled started)

abbrev again : Step collatz maps
again = record done { status = saturating (Wrapped.handle_scheduled collatz maps 3 1 w) }

saturate-step : saturate collatz maps w step ≡ ok started
unfolding saturate
saturate-step = refl

polls : Polls collatz maps 4 started (6 ∷ []) done
unfolding poll Wrapped.poll run Wrapped.handle_scheduled Wrapped.after_handler Metadata.new
    Metadata.schedule_event Metadata.get_next_scheduled_time Metadata.pop_first_event
    Context.schedule btree_map hash_map
polls = emits refl (ends refl)

saturate-again : saturate collatz maps w (desaturate collatz maps done) ≡ ok again
unfolding saturate desaturate poll Wrapped.poll run Wrapped.handle_scheduled Wrapped.after_handler
    Metadata.new Metadata.schedule_event Metadata.get_next_scheduled_time Metadata.pop_first_event
    Context.schedule btree_map hash_map
saturate-again = refl

polls_again : Polls collatz maps 4 again [] (polled again)
unfolding poll Wrapped.poll run Wrapped.handle_scheduled Wrapped.after_handler Metadata.new
    Metadata.schedule_event Metadata.get_next_scheduled_time Metadata.pop_first_event
    Context.schedule btree_map hash_map
polls_again = ends refl

replay_total_example :
    (fuel' : ℕ) × (s₂ : Step collatz maps) × (saturate collatz maps w (desaturate collatz maps done)
      ≡ ok s₂)
    × Polls collatz maps fuel' s₂ [] done
replay_total_example =
    replay_total collatz maps w 4 step started done (6 ∷ []) refl saturate-step polls

replay_example : (◌≡◌ {A = List ℕ} [] []) × (polled again ≡ done)
replay_example =
    replay collatz maps w 4 4 step started done again (polled again) (6 ∷ []) [] refl saturate-step
      polls saturate-again polls_again

-- The events and the transposer that a drive gives, if it ends.
abbrev result_of :
    Option (List ℕ × WrappedTransposer collatz maps) → List ℕ × WrappedTransposer collatz maps
result_of none = ([], w)
result_of (some x) = x

abbrev result : List ℕ × WrappedTransposer collatz maps
result = result_of (drive collatz maps 3 future)

driven : drive collatz maps 3 future ≡ some result
unfolding drive run_to_end Wrapped.handle_scheduled Wrapped.after_handler Metadata.new
    Metadata.schedule_event Metadata.get_next_scheduled_time Metadata.pop_first_event
    Context.schedule btree_map hash_map
driven = refl

Ends-of_drive_example :
    Ends collatz maps (suc 2) (Wrapped.poll collatz maps 3 future) result.0 result.1
Ends-of_drive_example =
    Ends-of_drive collatz maps 2 3 3 future result.0 result.1 (omega arith) (omega arith) driven

-- A handler that emits two events, in a context that the test makes.
abbrev two_events : Program (Unit {0}) ℕ ℕ
two_events = emit_event 1 (emit_event 2 (finish 3))

abbrev context : SubStepUpdateContext maps
context = Context.new maps (record { index = 1; time = 3 }) w.metadata 0

swallows_one :
    run_to_end maps two_events (swallowing maps 1 context)
    ≡ some (2 ∷ [], 3, swallowing maps 0 context)
unfolding run_to_end
swallows_one = refl
