-- ===== src/Tests/Reach.antt =====
-- source/src/sources/transposer/no_input_transposer.rs: a source that is polled for events and advanced.
use cozal.Prelude.{some, ℕ, Outcome, ◌≡◌, refl, ok}
use cozal.Source.Steps
use cozal.Source.Steps.Query
use cozal.Source.NoInput
use cozal.Source.NoInput.{NoInputTransposerSource, SourcePoll, interrupt, ready, finalized_event}
use cozal.Transposer.Storage
use cozal.Source.NoInput.Reach.{IsSound, started, asked, polled, advanced, Reached-IsSound}
use cozal.Source.Channels
use cozal.Source.Sets
use cozal.Transposer.Step
use cozal.Transposer.Context
use cozal.Transposer.Wrapped
use cozal.Transposer.Metadata
use cozal.Transposer.Storage.Std.{btree_map, hash_map}
use cozal.Tests.Collatz.{collatz, maps, value}

abbrev fresh : NoInputTransposerSource collatz maps value
fresh = NoInput.new collatz maps value 1 6 0 0

abbrev left_of :
    Outcome (SourcePoll ℕ (Unit {0}) × NoInputTransposerSource collatz maps value)
    → NoInputTransposerSource collatz maps value
left_of (ok (_, self)) = self
left_of _ = fresh

abbrev source_of :
    Outcome (NoInputTransposerSource collatz maps value)
    → NoInputTransposerSource collatz maps value
source_of (ok self) = self
source_of _ = fresh

abbrev state_of :
    Outcome (SourcePoll ℕ ℕ × NoInputTransposerSource collatz maps value)
    → NoInputTransposerSource collatz maps value
state_of (ok (_, self)) = self
state_of _ = fresh

-- The first event is the value that the transposer starts from.
abbrev once_asked : NoInputTransposerSource collatz maps value
once_asked = state_of (NoInput.poll collatz maps value 6 5 (λ n. n) 0 3 fresh)

first_question :
    NoInput.poll collatz maps value 6 5 (λ n. n) 0 3 fresh
    ≡ ok (interrupt 0 (finalized_event 6), once_asked)
unfolding NoInput.poll_events NoInput.new NoInput.advance Query.get_before_or_at_events
    Query.delete_before Query.keep_from Steps.new Steps.debug_assertions Steps.get_last
    Steps.max_sequence_number Steps.try_next_scheduled Steps.saturate
    Steps.sequence_number_to_delete Steps.make_room Steps.saturate_adjacent
    Steps.ensure_first_step_is_not_unsaturated Steps.drop_unsaturated
    Steps.get_not_unsaturated_before_or_at_time Steps.binary_search Steps.choose_to_delete
    Steps.not_needed Step.new_init Step.next_unsaturated Step.next_scheduled_unsaturated
    Step.saturate Step.saturate_take Step.saturate_clone Step.poll Step.get_time Step.is_unsaturated
    Step.is_saturated Wrapped.init Wrapped.poll Wrapped.handle_scheduled Wrapped.scheduled_loop
    Wrapped.after_handler Context.run Context.schedule Metadata.new Metadata.schedule_event
    Metadata.get_next_scheduled_time Metadata.pop_first_event Channels.new Channels.get_pinned_times
    Sets.insert Sets.remove Sets.up_to Sets.from Sets.least btree_map hash_map NoInput.poll
    NoInput.round_free NoInput.round_original Query.get_before_or_at Query.get_before_or_at_internal
    Query.look_back Query.as_status Channels.get_channel_status Channels.start_original_step
    Channels.start_repeat_step Channels.occupy Channels.vacate Step.is_saturating Storage.lookup
    Storage.insert_entry Storage.without
first_question = refl

-- The next event is at the time 1.
abbrev then_polled : NoInputTransposerSource collatz maps value
then_polled = left_of (NoInput.poll_events collatz maps value 4 5 (λ n. n) 0 once_asked)

next_poll :
    NoInput.poll_events collatz maps value 4 5 (λ n. n) 0 once_asked
    ≡ ok (ready tt (some 1), then_polled)
unfolding NoInput.poll_events NoInput.new NoInput.advance Query.get_before_or_at_events
    Query.delete_before Query.keep_from Steps.new Steps.debug_assertions Steps.get_last
    Steps.max_sequence_number Steps.try_next_scheduled Steps.saturate
    Steps.sequence_number_to_delete Steps.make_room Steps.saturate_adjacent
    Steps.ensure_first_step_is_not_unsaturated Steps.drop_unsaturated
    Steps.get_not_unsaturated_before_or_at_time Steps.binary_search Steps.choose_to_delete
    Steps.not_needed Step.new_init Step.next_unsaturated Step.next_scheduled_unsaturated
    Step.saturate Step.saturate_take Step.saturate_clone Step.poll Step.get_time Step.is_unsaturated
    Step.is_saturated Wrapped.init Wrapped.poll Wrapped.handle_scheduled Wrapped.scheduled_loop
    Wrapped.after_handler Context.run Context.schedule Metadata.new Metadata.schedule_event
    Metadata.get_next_scheduled_time Metadata.pop_first_event Channels.new Channels.get_pinned_times
    Sets.insert Sets.remove Sets.up_to Sets.from Sets.least btree_map hash_map NoInput.poll
    NoInput.round_free NoInput.round_original Query.get_before_or_at Query.get_before_or_at_internal
    Query.look_back Query.as_status Channels.get_channel_status Channels.start_original_step
    Channels.start_repeat_step Channels.occupy Channels.vacate Step.is_saturating Storage.lookup
    Storage.insert_entry Storage.without
next_poll = refl

abbrev then_advanced : NoInputTransposerSource collatz maps value
then_advanced = source_of (NoInput.advance collatz maps value 5 then_polled)

next_advance : NoInput.advance collatz maps value 5 then_polled ≡ ok then_advanced
unfolding NoInput.poll_events NoInput.new NoInput.advance Query.get_before_or_at_events
    Query.delete_before Query.keep_from Steps.new Steps.debug_assertions Steps.get_last
    Steps.max_sequence_number Steps.try_next_scheduled Steps.saturate
    Steps.sequence_number_to_delete Steps.make_room Steps.saturate_adjacent
    Steps.ensure_first_step_is_not_unsaturated Steps.drop_unsaturated
    Steps.get_not_unsaturated_before_or_at_time Steps.binary_search Steps.choose_to_delete
    Steps.not_needed Step.new_init Step.next_unsaturated Step.next_scheduled_unsaturated
    Step.saturate Step.saturate_take Step.saturate_clone Step.poll Step.get_time Step.is_unsaturated
    Step.is_saturated Wrapped.init Wrapped.poll Wrapped.handle_scheduled Wrapped.scheduled_loop
    Wrapped.after_handler Context.run Context.schedule Metadata.new Metadata.schedule_event
    Metadata.get_next_scheduled_time Metadata.pop_first_event Channels.new Channels.get_pinned_times
    Sets.insert Sets.remove Sets.up_to Sets.from Sets.least btree_map hash_map NoInput.poll
    NoInput.round_free NoInput.round_original Query.get_before_or_at Query.get_before_or_at_internal
    Query.look_back Query.as_status Channels.get_channel_status Channels.start_original_step
    Channels.start_repeat_step Channels.occupy Channels.vacate Step.is_saturating Storage.lookup
    Storage.insert_entry Storage.without
next_advance = refl

Reached-IsSound_example : IsSound collatz maps value then_advanced
Reached-IsSound_example = Reached-IsSound collatz maps value then_advanced (
    advanced 5 then_polled then_advanced
      (polled 4 5 0 (λ n. n) (ready tt (some 1)) once_asked then_polled
        (asked 6 5 0 3 (λ n. n) (interrupt 0 (finalized_event 6)) fresh once_asked (started 1 0 6 0)
          first_question)
        next_poll)
      next_advance)
