-- ===== src/Tests/Collatz.antt =====
-- source/src/sources/transposer/steps.rs: the transposer of its tests, on the maps of the standard
-- library. The random numbers count up; no test draws one.
use cozal.Prelude.{ℕ, ◌+◌, ◌*◌, ◌/◌, ◌%◌, ◌==◌, if◌then◌else◌, Option, compare}
use cozal.Transposer.Time.{ScheduledTime, scheduled_ord, nat_ord, ExpireHandle}
use cozal.Transposer.Storage.Std.{btree_map, hash_map}
use cozal.Transposer.Backend.{Backend}
use cozal.Transposer.Program.{Transposer, finish, current_time, schedule_event, emit_event}
use cozal.Source.NoInput.{Interpolate}

abbrev pub next_value : ℕ → ℕ
next_value value = if value % 2 == 0 then value / 2 else value * 3 + 1

-- The events of the inputs, which the transposer has none of, are sorted by their values.
abbrev pub collatz : Transposer
collatz = record {
  Self = ℕ;
  OutputEvent = ℕ;
  Scheduled = Unit {0};
  InputEvent = ℕ;
  init = λ value. current_time (λ t. schedule_event t tt (λ _. finish value));
  handle_scheduled = λ _ value.
      emit_event value
        (current_time (λ t. schedule_event (t + 1) tt (λ _. finish (next_value value))));
  handle_input = λ input value. finish (value + input);
  sort_input_events = λ _ a b. compare a b;
  input_type = λ _. 0;
  sort = λ _. 0;
}

abbrev pub maps : Backend (Unit {0})
maps = record {
  schedules = btree_map ScheduledTime scheduled_ord (Unit {0});
  backwards = btree_map ScheduledTime scheduled_ord ExpireHandle;
  forwards = hash_map ExpireHandle nat_ord ScheduledTime;
  Rng = ℕ;
  Seed = ℕ;
  from_seed = λ seed. seed;
  next_u64 = λ rng. (rng, rng + 1);
}

-- The state of the transposer is read off at once.
abbrev pub value : Interpolate collatz maps
value = record {
  OutputState = ℕ;
  Interpolation = ℕ;
  interpolate = λ _ w. w.transposer;
  poll = λ i. (Option.some i, i);
}
