-- ===== src/Tests/Stream.antt =====
-- source/src/adapters/interrupt_stream.rs over a source of the transposer `collatz`.
use cozal.Prelude.{
  ℕ, suc, ◌≡◌, ◌<◌, ◌≤◌, refl, some, none, Bool, true, false, ltb, leb, ok, inr, if◌then◌else◌,
  arith,
}
use cozal.Source.NoInput.{SourcePoll, ready, pending}
use cozal.Source.Trait.{Source, Schedules, no_input_source}
use cozal.Source.Trait.Schedule.{no_input_source-Schedules}
use cozal.Source.InterruptStream
use cozal.Source.InterruptStream.{Wait, pending_item}
use cozal.Source.InterruptStream.Waits.{Answers, poll_next_total}
use cozal.Tests.Collatz.{collatz, maps, value}

no_input_source-Schedules_example : Schedules (no_input_source collatz maps value 9 9 (λ n. n))
no_input_source-Schedules_example = no_input_source-Schedules collatz maps value 9 9 (λ n. n)

-- A source of one event at the time 4, which is not sent.
abbrev pub once_poll : ℕ → SourcePoll ℕ (Unit {0})
once_poll time = if ltb time 4 then ready tt (some 4) else pending

abbrev pub once : Source
once = record {
  Self = Bool;
  Event = ℕ;
  State = ℕ;
  Error = Unit {0};
  poll = λ _ _ self. ok (inr pending, self);
  poll_forget = λ _ _ self. ok (inr pending, self);
  poll_events = λ time self. ok (inr (once_poll time), self);
  release_channel = λ _ self. ok self;
  advance = λ _ self. ok self;
  max_channel = 0;
}

once-Schedules : Schedules once
once-Schedules = record { later = λ time t s s' h. ground (arith, h) }

-- The future is the instant that it waits for.
abbrev instants : Wait
instants = record { Fut = ℕ; wait_fn = λ t. t; is_ready = λ now t. leb t now }

not_before : (now t : ℕ) → now < t → leb t now ≡ false
not_before now t h = ground (arith, h)

-- The first call reads the instant 3, and its wait is polled at 4.
abbrev clock : ℕ → ℕ
clock k = if ltb k 4 then 4 else 3

abbrev polled : ℕ → ℕ
polled k = if leb k 4 then 4 else 3

onward : (k : ℕ) → clock k ≤ polled k
onward k = ground arith

forward : (k : ℕ) → polled (suc k) ≤ clock k
forward k = ground arith

-- The wait for the event at 4 is ready at once, and the second poll of the source is pending.
poll_next_again :
    InterruptStream.poll_next once instants 5 clock polled (InterruptStream.new once instants true)
    ≡ ok (pending_item, record { source = true; current_wait = none })
unfolding InterruptStream.poll_next InterruptStream.new
poll_next_again = refl

poll_next_total_example :
    Answers once instants clock polled 4 (InterruptStream.new once instants true) (
      InterruptStream.poll_next once instants 5 clock polled
        (InterruptStream.new once instants true))
unfolding InterruptStream.new
poll_next_total_example =
    poll_next_total once instants clock polled 4 (InterruptStream.new once instants true)
      once-Schedules not_before onward forward (omega arith)
