-- ===== src/Tests/Saturate.antt =====
-- source/src/sources/transposer/steps.rs: a step that is started from the one before it.
use cozal.Prelude.{last?, ◌≡◌, ◌<◌, ◌≤◌, refl, some, [], ◌∷◌, ok, err, arith}
use cozal.Transposer.Time.{ScheduledTime}
use cozal.Transposer.Storage.Std.{btree_map}
use cozal.Transposer.Metadata
use cozal.Transposer.Wrapped
use cozal.Transposer.Wrapped.{WrappedTransposer}
use cozal.Transposer.Step
use cozal.Transposer.Step.{Step, saturated, saturating, unsaturated}
use cozal.Source.Steps
use cozal.Source.Steps.{Steps}
use cozal.Source.Steps.Delete.{Inv}
use cozal.Source.Steps.Saturate.{Pinned}
use cozal.Source.Steps.Saturate.Adjacent.{Starts, saturate_total}
use cozal.Source.Steps.Events.{next_started, get_before_or_at_events_due}
use cozal.Source.Steps.Query.{BeforeStatusEvents, get_before_or_at, get_before_or_at_events}
use cozal.Source.Steps.Advance.{IsSpent, moved, get_before_or_at_events-moved}
use cozal.Tests.Collatz.{collatz, maps}
use cozal.Tests.Steps.{w, step, steps_of}

abbrev started : Step collatz maps
started = step 1 (saturating (Wrapped.handle_scheduled collatz maps 1 0 w))

starts : Starts collatz maps (step 0 (saturated w)) (step 1 unsaturated) started
unfolding Step.is_unsaturated Step.saturate
starts = record { transposer = w; ready = refl; follows = refl; waits = refl; started = refl }

abbrev three : Steps collatz maps
three = steps_of (step 0 (saturated w) ∷ step 1 unsaturated ∷ step 2 unsaturated ∷ []) (0 ∷ [])

three-Inv : Inv collatz maps three
unfolding Step.is_unsaturated
three-Inv = record { marked = refl; front = (step 0 (saturated w), refl, refl) }

three-Pinned : Pinned collatz maps three three-Inv (4 ∷ [])
unfolding Step.get_time
three-Pinned t here s first = ground (arith, first)

saturate_total_example :
    (self' : Steps collatz maps) × (Steps.saturate collatz maps 1 (4 ∷ []) three ≡ ok self')
    × Inv collatz maps self'
    × (Steps.get_by_sequence_number collatz maps 1 self' ≡ some started)
saturate_total_example =
    saturate_total collatz maps starts three 0 (4 ∷ []) three-Inv refl refl three-Pinned

abbrev at_two : ScheduledTime
at_two = record { time = 2; parent_index = 0; emission_index = 0 }

-- It has an event at the time 2.
abbrev busy : WrappedTransposer collatz maps
busy = record {
  transposer = 6;
  metadata = Metadata.schedule_event maps at_two tt (Metadata.new maps 0 0);
}

abbrev one : Steps collatz maps
one = steps_of (step 0 (saturated busy) ∷ []) (0 ∷ [])

one-Inv : Inv collatz maps one
unfolding Step.is_unsaturated
one-Inv = record { marked = refl; front = (step 0 (saturated busy), refl, refl) }

one-Pinned : Pinned collatz maps one one-Inv (3 ∷ [])
unfolding Step.get_time
one-Pinned t here s first = ground (arith, first)

scheduled : Metadata.get_next_scheduled_time maps busy.metadata ≡ some at_two
unfolding Metadata.get_next_scheduled_time Metadata.schedule_event Metadata.new btree_map
scheduled = refl

get_before_or_at_events_due_example :
    (self' : Steps collatz maps) × (get_before_or_at_events collatz maps 7 5 (3 ∷ []) one
      ≡ ok (BeforeStatusEvents.saturating 1, self'))
    × Inv collatz maps self'
    × (Steps.get_by_sequence_number collatz maps 1 self'
        ≡ some (next_started collatz maps 7 (step 0 (saturated busy)) busy at_two))
    × (last? self'.steps ≡ some (next_started collatz maps 7 (step 0 (saturated busy)) busy at_two))
get_before_or_at_events_due_example =
    get_before_or_at_events_due collatz maps one 7 5 (3 ∷ []) (step 0 (saturated busy)) busy at_two
      one-Inv refl refl scheduled (omega arith) one-Pinned

-- As `step 3`, but after the step 0.
abbrev third : Step collatz maps
third = record (step 3 unsaturated) { uuid_prev = some 1 }

-- After `delete_before 1` the step 0 is kept for the polls before the step 3.
abbrev passed : Steps collatz maps
passed = record (steps_of (step 0 (saturated w) ∷ third ∷ []) (0 ∷ [])) { deleted_before = some 1 }

passed-IsSpent :
    IsSpent collatz maps passed
      (step 0 (saturated w))
      third
      w
      (record { time = 3; parent_index = 0; emission_index = 0 })
      1
unfolding Step.get_time
passed-IsSpent = record {
  steps = refl;
  checkpoints = refl;
  deleted = refl;
  first = refl;
  second = refl;
  successor = refl;
  scheduled = refl;
  before = omega arith;
}

third_due : Step.get_time collatz maps third ≤ 5
unfolding Step.get_time
third_due = omega arith

before : 2 < Step.get_time collatz maps third
unfolding Step.get_time
before = omega arith

-- A poll of events at the time 5, and then a poll of the time 2.
get_before_or_at_events-moved_example :
    (get_before_or_at_events collatz maps 7 5 [] passed
      ≡ ok (BeforeStatusEvents.saturating 1, moved collatz maps passed-IsSpent))
    × (get_before_or_at collatz maps 3 8 2 [] (moved collatz maps passed-IsSpent) ≡ err)
get_before_or_at_events-moved_example =
    get_before_or_at_events-moved collatz maps passed-IsSpent 3 7 8 5 2 [] [] refl third_due before
