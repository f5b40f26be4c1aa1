-- ===== src/Tests/Sessions.antt =====
-- source/src/sources/transposer/no_input_transposer.rs: a source that is polled, advanced and polled again.
use cozal.Prelude.{ℕ, ◌≡◌, Outcome, ok, refl, false, true, List, [], ◌∷◌, Option, some, arith}
use cozal.Transposer.Time.{ScheduledTime}
use cozal.Transposer.Metadata
use cozal.Transposer.Context
use cozal.Transposer.Storage
use cozal.Transposer.Storage.Std.{btree_map, hash_map}
use cozal.Transposer.Wrapped
use cozal.Transposer.Wrapped.{WrappedTransposer}
use cozal.Transposer.Wrapped.Drive.{drive}
use cozal.Source.NoInput
use cozal.Source.NoInput.Reference.{Answers, is_ready, sends, StandsAt}
use cozal.Source.NoInput.Reference.Sessions.{Session, ends, polls, advances, Session-RunsTo}
use cozal.Source.NoInput.{NoInputTransposerSource, SourcePoll, interrupt, ready, finalized_event}
use cozal.Source.Steps
use cozal.Source.Steps.Query
use cozal.Source.Sets
use cozal.Source.Channels
use cozal.Transposer.Step
use cozal.Transposer.Step.{init_data, scheduled_data, saturated, unsaturated}
use cozal.Tests.Collatz.{collatz, maps, value}
use cozal.Tests.Reference.{standing, standing-StandsAt, up_to_two, w₁, w₂}

abbrev left_of :
    Outcome (SourcePoll ℕ (Unit {0}) × NoInputTransposerSource collatz maps value)
    → NoInputTransposerSource collatz maps value
left_of (ok (_, self)) = self
left_of _ = standing

abbrev event_at : ℕ → ScheduledTime
event_at t = record { time = t; parent_index = t; emission_index = 0 }

abbrev polled_at :
    ℕ
    → NoInputTransposerSource collatz maps value
    → Outcome (SourcePoll ℕ (Unit {0}) × NoInputTransposerSource collatz maps value)
polled_at time self = NoInput.poll_events collatz maps value 3 4 (λ n. n) time self

-- The source after two polls at the time 1, the advance to that time, and two polls at the time 2.
abbrev s₁ : NoInputTransposerSource collatz maps value
s₁ = left_of (polled_at 1 standing)

abbrev s₂ : NoInputTransposerSource collatz maps value
s₂ = left_of (polled_at 1 s₁)

abbrev s₃ : NoInputTransposerSource collatz maps value
s₃ = record standing {
  steps = record {
    steps =
        record {
          step_data = scheduled_data (event_at 1);
          status = saturated w₁;
          event_count = 1;
          can_produce_events = false;
          uuid_self = 2;
          uuid_prev = some 1;
        }
        ∷ record {
          step_data = scheduled_data (event_at 2);
          status = unsaturated;
          event_count = 0;
          can_produce_events = true;
          uuid_self = 1;
          uuid_prev = some 2;
        }
        ∷ [];
    not_unsaturated = 1 ∷ [];
    num_deleted_steps = 1;
    deleted_before = some 1;
    number_of_checkpoints = 30;
  };
}

abbrev s₄ : NoInputTransposerSource collatz maps value
s₄ = left_of (polled_at 2 s₃)

abbrev s₅ : NoInputTransposerSource collatz maps value
s₅ = left_of (polled_at 2 s₄)

at_one : polled_at 1 standing ≡ ok (interrupt 1 (finalized_event 3), s₁)
unfolding NoInput.poll_events NoInput.advance Query.get_before_or_at_events Query.delete_before
    Query.keep_from Steps.debug_assertions Steps.get_last Steps.max_sequence_number
    Steps.try_next_scheduled Steps.saturate Steps.sequence_number_to_delete Steps.make_room
    Steps.saturate_adjacent Steps.ensure_first_step_is_not_unsaturated Steps.drop_unsaturated
    Steps.get_not_unsaturated_before_or_at_time Steps.binary_search Steps.choose_to_delete
    Steps.not_needed Step.next_unsaturated Step.next_scheduled_unsaturated Step.saturate
    Step.saturate_take Step.saturate_clone Step.poll Step.get_time Step.is_unsaturated
    Step.is_saturated Wrapped.init Wrapped.poll Wrapped.handle_scheduled Wrapped.scheduled_loop
    Wrapped.after_handler Context.run Context.run_to_end Context.schedule Metadata.new
    Metadata.schedule_event Metadata.get_next_scheduled_time Metadata.pop_first_event
    Channels.get_pinned_times Sets.insert Sets.remove Sets.up_to Sets.from Sets.least btree_map
    hash_map drive Storage.lookup Storage.insert_entry Storage.without
at_one = refl

at_rest : polled_at 1 s₁ ≡ ok (ready tt (some 2), s₂)
unfolding NoInput.poll_events NoInput.advance Query.get_before_or_at_events Query.delete_before
    Query.keep_from Steps.debug_assertions Steps.get_last Steps.max_sequence_number
    Steps.try_next_scheduled Steps.saturate Steps.sequence_number_to_delete Steps.make_room
    Steps.saturate_adjacent Steps.ensure_first_step_is_not_unsaturated Steps.drop_unsaturated
    Steps.get_not_unsaturated_before_or_at_time Steps.binary_search Steps.choose_to_delete
    Steps.not_needed Step.next_unsaturated Step.next_scheduled_unsaturated Step.saturate
    Step.saturate_take Step.saturate_clone Step.poll Step.get_time Step.is_unsaturated
    Step.is_saturated Wrapped.init Wrapped.poll Wrapped.handle_scheduled Wrapped.scheduled_loop
    Wrapped.after_handler Context.run Context.run_to_end Context.schedule Metadata.new
    Metadata.schedule_event Metadata.get_next_scheduled_time Metadata.pop_first_event
    Channels.get_pinned_times Sets.insert Sets.remove Sets.up_to Sets.from Sets.least btree_map
    hash_map drive Storage.lookup Storage.insert_entry Storage.without
at_rest = refl

advanced : NoInput.advance collatz maps value 1 s₂ ≡ ok s₃
unfolding NoInput.poll_events NoInput.advance Query.get_before_or_at_events Query.delete_before
    Query.keep_from Steps.debug_assertions Steps.get_last Steps.max_sequence_number
    Steps.try_next_scheduled Steps.saturate Steps.sequence_number_to_delete Steps.make_room
    Steps.saturate_adjacent Steps.ensure_first_step_is_not_unsaturated Steps.drop_unsaturated
    Steps.get_not_unsaturated_before_or_at_time Steps.binary_search Steps.choose_to_delete
    Steps.not_needed Step.next_unsaturated Step.next_scheduled_unsaturated Step.saturate
    Step.saturate_take Step.saturate_clone Step.poll Step.get_time Step.is_unsaturated
    Step.is_saturated Wrapped.init Wrapped.poll Wrapped.handle_scheduled Wrapped.scheduled_loop
    Wrapped.after_handler Context.run Context.run_to_end Context.schedule Metadata.new
    Metadata.schedule_event Metadata.get_next_scheduled_time Metadata.pop_first_event
    Channels.get_pinned_times Sets.insert Sets.remove Sets.up_to Sets.from Sets.least btree_map
    hash_map drive Storage.lookup Storage.insert_entry Storage.without
advanced = refl

at_two : polled_at 2 s₃ ≡ ok (interrupt 2 (finalized_event 10), s₄)
unfolding NoInput.poll_events NoInput.advance Query.get_before_or_at_events Query.delete_before
    Query.keep_from Steps.debug_assertions Steps.get_last Steps.max_sequence_number
    Steps.try_next_scheduled Steps.saturate Steps.sequence_number_to_delete Steps.make_room
    Steps.saturate_adjacent Steps.ensure_first_step_is_not_unsaturated Steps.drop_unsaturated
    Steps.get_not_unsaturated_before_or_at_time Steps.binary_search Steps.choose_to_delete
    Steps.not_needed Step.next_unsaturated Step.next_scheduled_unsaturated Step.saturate
    Step.saturate_take Step.saturate_clone Step.poll Step.get_time Step.is_unsaturated
    Step.is_saturated Wrapped.init Wrapped.poll Wrapped.handle_scheduled Wrapped.scheduled_loop
    Wrapped.after_handler Context.run Context.run_to_end Context.schedule Metadata.new
    Metadata.schedule_event Metadata.get_next_scheduled_time Metadata.pop_first_event
    Channels.get_pinned_times Sets.insert Sets.remove Sets.up_to Sets.from Sets.least btree_map
    hash_map drive Storage.lookup Storage.insert_entry Storage.without
at_two = refl

at_end : polled_at 2 s₄ ≡ ok (ready tt (some 3), s₅)
unfolding NoInput.poll_events NoInput.advance Query.get_before_or_at_events Query.delete_before
    Query.keep_from Steps.debug_assertions Steps.get_last Steps.max_sequence_number
    Steps.try_next_scheduled Steps.saturate Steps.sequence_number_to_delete Steps.make_room
    Steps.saturate_adjacent Steps.ensure_first_step_is_not_unsaturated Steps.drop_unsaturated
    Steps.get_not_unsaturated_before_or_at_time Steps.binary_search Steps.choose_to_delete
    Steps.not_needed Step.next_unsaturated Step.next_scheduled_unsaturated Step.saturate
    Step.saturate_take Step.saturate_clone Step.poll Step.get_time Step.is_unsaturated
    Step.is_saturated Wrapped.init Wrapped.poll Wrapped.handle_scheduled Wrapped.scheduled_loop
    Wrapped.after_handler Context.run Context.run_to_end Context.schedule Metadata.new
    Metadata.schedule_event Metadata.get_next_scheduled_time Metadata.pop_first_event
    Channels.get_pinned_times Sets.insert Sets.remove Sets.up_to Sets.from Sets.least btree_map
    hash_map drive Storage.lookup Storage.insert_entry Storage.without
at_end = refl

one_event :
    (time t e : ℕ) (next : Option ℕ) (self self₁ self₂ : NoInputTransposerSource collatz maps value)
    → polled_at time self ≡ ok (interrupt t (finalized_event e), self₁)
    → polled_at time self₁ ≡ ok (ready tt next, self₂)
    → Answers collatz maps value 3 4 (λ n. n) time (polled_at time self) ((t, e) ∷ []) next self₂
one_event time t e next self self₁ self₂ h h' = rw h (sends (rw h' is_ready))

session : Session collatz maps value 3 4 2 standing ((1, 3) ∷ (2, 10) ∷ []) s₅
session =
    polls (λ n. n) 1 (omega arith) (one_event 1 1 3 (some 2) standing s₁ s₂ at_one at_rest)
      (advances 1 advanced (ends (λ n. n) (one_event 2 2 10 (some 3) s₃ s₄ s₅ at_two at_end)))

Session-RunsTo_example :
    (◌≡◌ {A = List (ℕ × ℕ)} ((1, 3) ∷ (2, 10) ∷ []) ((1, 3) ∷ (2, 10) ∷ []))
    × StandsAt collatz maps value w₂ s₅
Session-RunsTo_example =
    Session-RunsTo collatz maps value 3 2 2 3 2 (omega arith) (omega arith) up_to_two
      standing-StandsAt session
