-- ===== src/Tests/Reference.antt =====
-- source/src/sources/transposer/no_input_transposer.rs: the events of a source, and of its transposer
-- alone, up to the time 2.
use cozal.Prelude.{ℕ, ◌≡◌, refl, false, subst, ◌++◌, List, [], ◌∷◌, Option, some, none, arith}
use cozal.Transposer.Time.{ScheduledTime}
use cozal.Transposer.Metadata
use cozal.Transposer.Context
use cozal.Transposer.Storage
use cozal.Transposer.Storage.Std.{btree_map, hash_map}
use cozal.Transposer.Wrapped
use cozal.Transposer.Wrapped.{WrappedTransposer}
use cozal.Transposer.Wrapped.Drive.{drive}
use cozal.Source.NoInput
use cozal.Source.NoInput.Reference.{stamp, RunsTo, idle, handled, Refines, StandsAt}
use cozal.Source.NoInput.Reference.Refined.{poll_events-RunsTo}
use cozal.Source.Steps.Stands.{IsLater, rests}
use cozal.Source.NoInput.{NoInputTransposerSource, SourcePoll, interrupt, ready, finalized_event}
use cozal.Transposer.Step
use cozal.Transposer.Step.{init_data, scheduled_data, saturated, unsaturated}
use cozal.Tests.Collatz.{collatz, maps, value}

abbrev left_by :
    Option (List ℕ × WrappedTransposer collatz maps)
    → WrappedTransposer collatz maps
    → WrappedTransposer collatz maps
left_by none w = w
left_by (some (_, w)) _ = w

abbrev begun : WrappedTransposer collatz maps
begun = record { transposer = 0; metadata = Metadata.new maps 0 0 }

-- The transposer after its init, and after each of two scheduled events.
abbrev pub w₀ : WrappedTransposer collatz maps
w₀ = left_by (drive collatz maps 3 (Wrapped.init collatz maps 6 0 0 0)) begun

abbrev pub w₁ : WrappedTransposer collatz maps
w₁ = left_by (drive collatz maps 3 (Wrapped.handle_scheduled collatz maps 1 0 w₀)) w₀

abbrev pub w₂ : WrappedTransposer collatz maps
w₂ = left_by (drive collatz maps 3 (Wrapped.handle_scheduled collatz maps 2 0 w₁)) w₁

abbrev time_scheduled : ℕ → WrappedTransposer collatz maps → ScheduledTime
time_scheduled n w = elim (Metadata.get_next_scheduled_time maps w.metadata) [
  | none ↦ record { time = n; parent_index = 0; emission_index = 0 }
  | some t ↦ t
]

first_scheduled : Metadata.get_next_scheduled_time maps w₀.metadata ≡ some (time_scheduled 1 w₀)
unfolding drive Wrapped.init Wrapped.handle_scheduled Wrapped.scheduled_loop Wrapped.after_handler
    Context.run_to_end Context.schedule Metadata.new Metadata.schedule_event
    Metadata.get_next_scheduled_time Metadata.pop_first_event btree_map hash_map Storage.lookup
    Storage.insert_entry Storage.without
first_scheduled = refl

first_time : (time_scheduled 1 w₀).time ≡ 1
unfolding drive Wrapped.init Wrapped.handle_scheduled Wrapped.scheduled_loop Wrapped.after_handler
    Context.run_to_end Context.schedule Metadata.new Metadata.schedule_event
    Metadata.get_next_scheduled_time Metadata.pop_first_event btree_map hash_map Storage.lookup
    Storage.insert_entry Storage.without
first_time = refl

first_driven :
    drive collatz maps 3 (Wrapped.handle_scheduled collatz maps (time_scheduled 1 w₀).time 0 w₀)
    ≡ some (3 ∷ [], w₁)
unfolding drive Wrapped.init Wrapped.handle_scheduled Wrapped.scheduled_loop Wrapped.after_handler
    Context.run_to_end Context.schedule Metadata.new Metadata.schedule_event
    Metadata.get_next_scheduled_time Metadata.pop_first_event btree_map hash_map Storage.lookup
    Storage.insert_entry Storage.without
first_driven = refl

second_scheduled : Metadata.get_next_scheduled_time maps w₁.metadata ≡ some (time_scheduled 2 w₁)
unfolding drive Wrapped.init Wrapped.handle_scheduled Wrapped.scheduled_loop Wrapped.after_handler
    Context.run_to_end Context.schedule Metadata.new Metadata.schedule_event
    Metadata.get_next_scheduled_time Metadata.pop_first_event btree_map hash_map Storage.lookup
    Storage.insert_entry Storage.without
second_scheduled = refl

second_time : (time_scheduled 2 w₁).time ≡ 2
unfolding drive Wrapped.init Wrapped.handle_scheduled Wrapped.scheduled_loop Wrapped.after_handler
    Context.run_to_end Context.schedule Metadata.new Metadata.schedule_event
    Metadata.get_next_scheduled_time Metadata.pop_first_event btree_map hash_map Storage.lookup
    Storage.insert_entry Storage.without
second_time = refl

second_driven :
    drive collatz maps 3 (Wrapped.handle_scheduled collatz maps (time_scheduled 2 w₁).time 0 w₁)
    ≡ some (10 ∷ [], w₂)
unfolding drive Wrapped.init Wrapped.handle_scheduled Wrapped.scheduled_loop Wrapped.after_handler
    Context.run_to_end Context.schedule Metadata.new Metadata.schedule_event
    Metadata.get_next_scheduled_time Metadata.pop_first_event btree_map hash_map Storage.lookup
    Storage.insert_entry Storage.without
second_driven = refl

next-IsLater : IsLater 2 (Metadata.get_next_scheduled_time maps w₂.metadata)
unfolding drive Wrapped.init Wrapped.handle_scheduled Wrapped.scheduled_loop Wrapped.after_handler
    Context.run_to_end Context.schedule Metadata.new Metadata.schedule_event
    Metadata.get_next_scheduled_time Metadata.pop_first_event btree_map hash_map Storage.lookup
    Storage.insert_entry Storage.without
next-IsLater = omega arith

-- The events at the times 1 and 2.
pub up_to_two : RunsTo collatz maps 3 2 2 w₀ ((1, 3) ∷ (2, 10) ∷ []) w₂
up_to_two =
    subst (λ t. RunsTo collatz maps 3 2 2 w₀ (stamp t (3 ∷ []) ++ (2, 10) ∷ []) w₂) first_time
      (subst
        (λ t.
          RunsTo collatz maps 3 2 2 w₀
            (stamp (time_scheduled 1 w₀).time (3 ∷ []) ++ stamp t (10 ∷ [])) w₂)
        second_time
        (handled first_scheduled (omega (arith, first_time)) first_driven (
          handled second_scheduled (omega (arith, second_time)) second_driven (idle next-IsLater))))

-- A source that has one step, which rests after its init.
abbrev pub standing : NoInputTransposerSource collatz maps value
standing = record {
  steps = record {
    steps =
        record {
          step_data = init_data 0;
          status = saturated w₀;
          event_count = 1;
          can_produce_events = false;
          uuid_self = 1;
          uuid_prev = none;
        }
        ∷ [];
    not_unsaturated = 0 ∷ [];
    num_deleted_steps = 0;
    deleted_before = none;
    number_of_checkpoints = 30;
  };
  channel_statuses = record { blocked_caller_channels = []; blocked_repeat_step_wakers = [] };
}

pub standing-StandsAt : StandsAt collatz maps value w₀ standing
unfolding Step.is_unsaturated
standing-StandsAt = record {
  steps = rests (record {
    inv = record { marked = refl; front = (_, refl, refl) };
    last = _;
    at_end = refl;
    reached = refl;
    silent = refl;
  });
  no_channels = refl;
}

poll_events-RunsTo_example :
    Refines collatz maps value 3 4
      (λ n. n)
      2
      (NoInput.poll_events collatz maps value 3 4 (λ n. n) 2 standing)
      ((1, 3) ∷ (2, 10) ∷ [])
      w₂
poll_events-RunsTo_example =
    poll_events-RunsTo collatz maps value 3 (λ n. n) 2 2 3 2 3 standing (omega arith) up_to_two
      standing-StandsAt (omega arith) (omega arith)
