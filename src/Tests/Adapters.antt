-- ===== src/Tests/Adapters.antt =====
-- source/src/adapters on small maps.
use cozal.Prelude.{
  ℕ, ◌+◌, ◌*◌, ◌≡◌, ◌≢◌, ◌≤◌, ◌<◌, ◌⊎◌, inr, refl, none, some, List, [], ◌∷◌, ◌++◌, ◌==◌, ltb,
  if◌then◌else◌, true, false, ok, arith,
}
use cozal.Source.NoInput.{ready, pending}
use cozal.Source.Adapters.ChannelMap
use cozal.Source.Adapters.ChannelMap.{int_sqrt, max_channel, half_product}
use cozal.Source.Adapters.ChannelMap.Sqrt.{int_sqrt_lem}
use cozal.Source.Adapters.ChannelMap.Bounds.{triangle, map_injective}
use cozal.Source.Adapters.ChannelMap.Maximum.{max_channel_total}
use cozal.Source.Adapters.InputBuffer.{
  InputBuffer, hot, cold, insert_back, extend_front, rollback, first_entry,
}
use cozal.Source.Adapters.InputBuffer.View.{inputs_at, inputs_at-changes, first_entry_lem}
use cozal.Source.Adapters.Rollback
use cozal.Source.Adapters.Rollback.{
  RollbackEvent, event, finalize, cmp_rollback, insert, first_event_time,
}
use cozal.Source.Adapters.Rollback.Stored.{Sorted, Earliest, first_event_time_lem}
use cozal.Source.Adapters.Rollback.Insert.{is_taken, insert_lem}
use cozal.Source.Adapters.Multiplex
use cozal.Source.Adapters.Multiplex.{Multiplex}
use cozal.Source.Adapters.Multiplex.Idle.{
  Call, at_normal, at_forget, at_events, at_advance, of_state, of_events, advanced, run,
  with_source, run-new,
}
use cozal.Source.Adapters.Advanced
use cozal.Source.Adapters.Advanced.{
  Advanced, register_new_duplicate, advance, current_aggregate_advancement,
}
use cozal.Source.Adapters.Advanced.Drift.{advance-advance}
use cozal.Tests.Stream.{once}

int_sqrt_lem_example :
    (r : ℕ) × (int_sqrt 50 ≡ ok r) × (r * r ≤ 50) × (50 < (r + 1) * (r + 1)) × (r < ChannelMap.word)
int_sqrt_lem_example = int_sqrt_lem 50 (omega arith)

mapped : ChannelMap.map 1 2 ≡ ok 8
unfolding ChannelMap.map half_product
mapped = refl

map_injective_example : (◌≡◌ {A = ℕ} 1 1) × (◌≡◌ {A = ℕ} 2 2)
map_injective_example = map_injective 1 2 1 2 8 mapped mapped

room : triangle 3 ≤ 10
unfolding triangle
room = omega arith

max_channel_total_example :
    (k : ℕ) × (max_channel 10 1 ≡ ok k)
    × ((channel : ℕ) → channel ≤ k → (r : ℕ) × (ChannelMap.map 1 channel ≡ ok r) × (r ≤ 10))
max_channel_total_example = max_channel_total 10 1 (omega arith) room

abbrev buffer : InputBuffer ℕ
buffer = (4, cold (7 ∷ [])) ∷ (2, hot (1 ∷ 3 ∷ [])) ∷ []

inputs_at-changes_example :
    (inputs_at (insert_back 4 8 buffer) 4
      ≡ (if 4 == 4 then inputs_at buffer 4 ++ 8 ∷ [] else inputs_at buffer 4))
    × (inputs_at (extend_front 4 (5 ∷ 6 ∷ []) buffer) 4
        ≡ (if 4 == 4 then (5 ∷ 6 ∷ []) ++ inputs_at buffer 4 else inputs_at buffer 4))
    × (inputs_at (rollback 4 buffer) 4 ≡ (if ltb 4 4 then inputs_at buffer 4 else []))
inputs_at-changes_example = inputs_at-changes buffer 4 8 (5 ∷ 6 ∷ []) 4

first_entry_lem_example :
    ((first_entry buffer ≡ none) × ((j : ℕ) → inputs_at buffer j ≡ []))
    ⊎ ((time : ℕ) × (rest : InputBuffer ℕ) × (first_entry buffer
          ≡ some (time, inputs_at buffer time, rest))
        × ((j : ℕ) → inputs_at rest j ≡ (if time == j then [] else inputs_at buffer j))
        × ((j : ℕ) → inputs_at buffer j ≢ [] → time ≤ j))
first_entry_lem_example = first_entry_lem buffer

abbrev stored : List (RollbackEvent ℕ)
stored = Rollback.rollback 6 ∷ finalize 2 ∷ event 5 40 ∷ []

stored-Sorted : Sorted stored
unfolding cmp_rollback
stored-Sorted = ((refl, (refl, tt)), ((refl, tt), (tt, tt)))

-- An event with a time that another one has.
insert_lem_example :
    ((is_taken (event 5 41) stored ≡ true) × (insert (event 5 41) stored ≡ (false, stored)))
    ⊎ ((is_taken (event 5 41) stored ≡ false)
        × (bs : List (RollbackEvent ℕ)) × (gs : List (RollbackEvent ℕ)) × (stored ≡ bs ++ gs)
        × (insert (event 5 41) stored ≡ (true, bs ++ event 5 41 ∷ gs))
        × Sorted (bs ++ event 5 41 ∷ gs))
insert_lem_example = insert_lem (event 5 41) stored stored-Sorted

-- It is lost, like an event with the time of a finalize; one with a time of its own is stored.
event_lost : insert (event 5 41) stored ≡ (false, stored)
unfolding insert cmp_rollback
event_lost = refl

finalized_lost : insert (event 2 41) stored ≡ (false, stored)
unfolding insert cmp_rollback
finalized_lost = refl

event_stored :
    insert (event 3 41) stored
    ≡ (true, Rollback.rollback 6 ∷ finalize 2 ∷ event 3 41 ∷ event 5 40 ∷ [])
unfolding insert cmp_rollback
event_stored = refl

first_event_time_lem_example :
    Earliest 9 (first_event_time (some 9) stored) stored × (first_event_time none stored ≡ none)
first_event_time_lem_example = first_event_time_lem 9 stored stored-Sorted

abbrev calls : List (Call once)
calls = at_normal 3 0 ∷ at_events 2 ∷ at_forget 4 1 ∷ at_advance 5 ∷ []

run-new_example :
    with_source once (run once calls (Multiplex.new once true))
    ≡ ok (
      of_state (inr pending)
          ∷ of_events (inr (ready tt (some 4)))
          ∷ of_state (inr pending)
          ∷ advanced
          ∷ [],
      true,
    )
run-new_example = run-new once calls true

advance-advance_example :
    (a b : Advanced) × (advance 3 0 (register_new_duplicate 0 Advanced.new).1 ≡ ok (some 3, a))
    × (advance 7 0 a ≡ ok (none, b))
    × (current_aggregate_advancement b ≡ some 3)
advance-advance_example = advance-advance 0 3 7 (omega arith)
