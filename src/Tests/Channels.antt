-- ===== src/Tests/Channels.antt =====
-- source/src/sources/transposer/channels and no_input_transposer.rs: two channels that wait for the
-- same step to be saturated again.
use cozal.Prelude.{ℕ, ◌≡◌, ◌≢◌, refl, none, some, [], ◌∷◌, ok, panic, ◌>>=◌, true, false}
use cozal.Transposer.Time.{nat_ord}
use cozal.Transposer.Storage.{lookup}
use cozal.Transposer.Metadata
use cozal.Transposer.Step
use cozal.Transposer.Step.{Step, scheduled_data, saturated}
use cozal.Source.Steps
use cozal.Source.Steps.{Steps}
use cozal.Source.Channels
use cozal.Source.Channels.{ChannelStatuses, repeat_step, repeat, original_step, release_channel}
use cozal.Source.Channels.Counts.{Counted, new-Counted, start_repeat_step-Counted}
use cozal.Source.Channels.Release.{release_channel_total}
use cozal.Source.NoInput
use cozal.Source.NoInput.{NoInputTransposerSource}
use cozal.Source.NoInput.Polls.{poll_other_time, poll_saturated_panics}
use cozal.Tests.Collatz.{collatz, maps, value}

abbrev one : ChannelStatuses ℕ
one = Channels.start_repeat_step 1 4 9 Channels.new

abbrev two : ChannelStatuses ℕ
two = Channels.start_repeat_step 2 4 9 one

first_free : lookup ⦃o = nat_ord⦄ 1 (Channels.new {I = ℕ}).blocked_caller_channels ≡ none
unfolding Channels.new lookup
first_free = refl

second_free : lookup ⦃o = nat_ord⦄ 2 one.blocked_caller_channels ≡ none
unfolding Channels.start_repeat_step Channels.new
second_free = refl

one-Counted : Counted one
one-Counted = start_repeat_step-Counted Channels.new 1 4 9 new-Counted first_free

two-Counted : Counted two
two-Counted = start_repeat_step-Counted one 2 4 9 one-Counted second_free

release_channel_total_example :
    (self' : ChannelStatuses ℕ) × (release_channel 1 two ≡ ok self')
    × Counted self'
    × (lookup ⦃o = nat_ord⦄ 1 self'.blocked_caller_channels ≡ none)
    × ((j : ℕ)
        → j ≢ 1
        → lookup ⦃o = nat_ord⦄ j self'.blocked_caller_channels
          ≡ lookup ⦃o = nat_ord⦄ j two.blocked_caller_channels)
release_channel_total_example = release_channel_total two 1 two-Counted

-- The step with the number 4, which is the first that is left.
abbrev step : Step collatz maps
step = record {
  step_data = scheduled_data (record { time = 3; parent_index = 4; emission_index = 0 });
  status = saturated (record { transposer = 6; metadata = Metadata.new maps 0 3 });
  event_count = 1;
  can_produce_events = false;
  uuid_self = 5;
  uuid_prev = some 4;
}

abbrev source : NoInputTransposerSource collatz maps value
source = record {
  steps = record {
    steps = step ∷ [];
    not_unsaturated = 4 ∷ [];
    num_deleted_steps = 4;
    deleted_before = none;
    number_of_checkpoints = 30;
  };
  channel_statuses = two;
}

waiting : Channels.get_channel_status 1 two ≡ ok (repeat 9 4 (2, []))
unfolding Channels.get_channel_status Channels.start_repeat_step Channels.new
waiting = refl

poll_other_time_example : NoInput.poll collatz maps value 6 5 (λ n. n) 8 1 source ≡ (
    NoInput.release_channel collatz maps value 1 source >>= λ self'.
    NoInput.poll collatz maps value 5 5 (λ n. n) 8 1 self')
poll_other_time_example =
    poll_other_time collatz maps value 5 5 (λ n. n) 8 1 9 (repeat 9 4 (2, [])) source waiting refl
      (λ e. cc e)

found :
    lookup ⦃o = nat_ord⦄ 1 two.blocked_caller_channels
    ≡ some (record { poll_time = 9; inner = repeat_step 4 })
unfolding Channels.start_repeat_step Channels.new
found = refl

wakers : lookup ⦃o = nat_ord⦄ 4 two.blocked_repeat_step_wakers ≡ some (2, [])
unfolding Channels.start_repeat_step Channels.new
wakers = refl

present : Steps.get_by_sequence_number collatz maps 4 source.steps ≡ some step
unfolding Steps.get_by_sequence_number
present = refl

is_saturated : Step.is_saturated collatz maps step ≡ true
unfolding Step.is_saturated
is_saturated = refl

poll_saturated_panics_example : NoInput.poll collatz maps value 6 5 (λ n. n) 9 1 source ≡ panic
poll_saturated_panics_example =
    poll_saturated_panics collatz maps value 5 5 (λ n. n) 9 1 4 2 step source found wakers present
      is_saturated
