-- ===== src/Tests/Inputs.antt =====
-- transposer/src/step/step_inputs.rs on the input events 5 and 3 of one type.
use cozal.Prelude.{ℕ, compare, Ordering, ◌≢◌, arith, ◌≡◌, refl, [], ◌∷◌, ok}
use mathlib.Core.List.{Perm}
use cozal.Transposer.Inputs.{StepInputs, add_input, insert_sorted, add_entry, add_event, handled}
use cozal.Transposer.Inputs.Order.{Typed, typed_nil, typed_cons, add_event_total}
use cozal.Transposer.Inputs.Descends.{AllDescend, Inserted, add_event-Descends}
use cozal.Tests.Collatz.{collatz}

abbrev five : StepInputs collatz
five = record { time = 2; inputs = (0, record { values = 5 ∷ []; input_type_id = 0 }) ∷ [] }

five-Typed : Typed collatz five.inputs
five-Typed = typed_cons (λ i e. refl) typed_nil

add_event_total_example :
    (self' : StepInputs collatz) × (add_event collatz 3 five ≡ ok self')
    × Typed collatz self'.inputs
    × (self'.time ≡ 2)
    × Perm (handled collatz self') (3 ∷ handled collatz five)
add_event_total_example = add_event_total collatz (λ i j e. refl) 3 five five-Typed

-- The events are handled from the greatest on.
descending :
    add_event collatz 3 five
    ≡ ok (record { time = 2; inputs = (0, record { values = 5 ∷ 3 ∷ []; input_type_id = 0 }) ∷ [] })
unfolding add_event add_entry add_input insert_sorted
descending = refl

abbrev five_three : StepInputs collatz
five_three = record {
  time = 2;
  inputs = (0, record { values = 5 ∷ 3 ∷ []; input_type_id = 0 }) ∷ [];
}

flips : (a b : ℕ) → compare a b ≡ Ordering.lt → compare b a ≢ Ordering.lt
flips a b lt = ground (arith, lt)

add_event-Descends_example :
    AllDescend collatz 2 five_three.inputs
    × Inserted 3 (handled collatz five) (handled collatz five_three)
add_event-Descends_example =
    add_event-Descends collatz 3 five five_three flips ((tt, tt), tt) descending
