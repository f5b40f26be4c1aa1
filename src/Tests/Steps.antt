-- ===== src/Tests/Steps.antt =====
-- source/src/sources/transposer/steps.rs on a few steps.
use cozal.Prelude.{
  ℕ, suc, ◌+◌, ◌≡◌, ◌≢◌, ◌≤◌, ◌<◌, refl, none, some, List, [], ◌∷◌, ok, panic, out_of_fuel, true,
  false, ◌⊎◌, get_elem?, length, ◌==◌, arith,
}
use cozal.Transposer.Metadata
use cozal.Transposer.Wrapped
use cozal.Transposer.Wrapped.{WrappedTransposer}
use cozal.Transposer.Step
use cozal.Transposer.Step.{Step, StepStatus, scheduled_data, saturated, saturating, unsaturated}
use cozal.Source.Sets
use cozal.Source.Steps
use cozal.Source.Steps.{Steps}
use cozal.Source.Steps.Query.{get_before_or_at, found_or_before, delete_before, earliest_poll_time}
use cozal.Source.Steps.Search.{Ascending, one_step, earlier, binary_search_lem}
use cozal.Source.Steps.Delete.{Inv, delete_before_total}
use cozal.Source.Steps.Choice.{sequence_number_to_delete_lem}
use cozal.Source.Steps.LookBack.{get_before_or_at_diverges}
use cozal.Source.Steps.Advance.{IsSpent, get_before_or_at_after_delete}
use cozal.Tests.Collatz.{collatz, maps}

abbrev pub w : WrappedTransposer collatz maps
w = record { transposer = 6; metadata = Metadata.new maps 0 0 }

-- The step with the number `n`, scheduled for that time.
abbrev pub step : ℕ → StepStatus collatz maps → Step collatz maps
step n status = record {
  step_data = scheduled_data (record { time = n; parent_index = 0; emission_index = 0 });
  status = status;
  event_count = 0;
  can_produce_events = true;
  uuid_self = n + 1;
  uuid_prev = some n;
}

abbrev pub steps_of : List (Step collatz maps) → List ℕ → Steps collatz maps
steps_of steps not_unsaturated = record {
  steps = steps;
  not_unsaturated = not_unsaturated;
  num_deleted_steps = 0;
  deleted_before = none;
  number_of_checkpoints = 2;
}

-- The steps 0 and 3 are checkpoints.
abbrev four : Steps collatz maps
four =
    steps_of
      (step 0 (saturated w)
        ∷ step 1 unsaturated
        ∷ step 2 unsaturated
        ∷ step 3 (saturating (Wrapped.handle_scheduled collatz maps 3 0 w))
        ∷ [])
      (0 ∷ 3 ∷ [])

checked : Steps.debug_assertions collatz maps four ≡ ok tt
unfolding Steps.debug_assertions
checked = refl

at_end :
    Steps.get_last collatz maps four
    ≡ ok (step 3 (saturating (Wrapped.handle_scheduled collatz maps 3 0 w)))
unfolding Steps.get_last
at_end = refl

more :
    Step.is_saturated collatz maps
      (step 3 (saturating (Wrapped.handle_scheduled collatz maps 3 0 w)))
    ≡ false
unfolding Step.is_saturated
more = refl

unsat : (n : ℕ) → Step.is_unsaturated collatz maps (step n unsaturated) ≡ true
unfolding Step.is_unsaturated
unsat n = refl

sat : (n : ℕ) → Step.is_unsaturated collatz maps (step n (saturated w)) ≡ false
unfolding Step.is_unsaturated
sat n = refl

search : found_or_before collatz maps (Steps.binary_search collatz maps 2 four.steps) ≡ ok 2
unfolding Steps.binary_search Step.get_time
search = refl

get_before_or_at_diverges_example : get_before_or_at collatz maps 9 7 2 [] four ≡ out_of_fuel
get_before_or_at_diverges_example =
    get_before_or_at_diverges collatz maps four 9 7 2 1 []
      (step 3 (saturating (Wrapped.handle_scheduled collatz maps 3 0 w))) (step 2 unsaturated)
      (step 1 unsaturated) checked at_end more search refl refl (unsat 2) (unsat 1)

four-Inv : Inv collatz maps four
unfolding Step.is_unsaturated
four-Inv = record { marked = refl; front = (step 0 (saturated w), refl, refl) }

early : (s : Step collatz maps) → get_elem? four.steps 0 ≡ some s → Step.get_time collatz maps s ≤ 3
unfolding Step.get_time
early s e = ground (arith, e)

delete_before_total_example :
    (self' : Steps collatz maps) × (delete_before collatz maps 3 four
      ≡ ok (earliest_poll_time collatz maps self', self'))
    × Inv collatz maps self'
    × (Steps.get_not_unsaturated_before_or_at_time collatz maps 3 four ≡ ok self'.num_deleted_steps)
    × ((q : ℕ) (s : Step collatz maps)
        → Steps.get_by_sequence_number collatz maps q four ≡ some s
        → 3 ≤ Step.get_time collatz maps s
        → Steps.get_by_sequence_number collatz maps q self' ≡ some s)
delete_before_total_example = delete_before_total collatz maps four 3 four-Inv early refl

-- The steps 0, 3 and 5 are checkpoints, and a poll of the time 4 is pinned.
abbrev six : Steps collatz maps
six =
    steps_of
      (step 0 (saturated w)
        ∷ step 1 unsaturated
        ∷ step 2 unsaturated
        ∷ step 3 (saturated w)
        ∷ step 4 unsaturated
        ∷ step 5 (saturated w)
        ∷ [])
      (0 ∷ 3 ∷ 5 ∷ [])

chosen : Steps.sequence_number_to_delete collatz maps (4 ∷ []) 6 six ≡ ok (some 5)
unfolding Steps.sequence_number_to_delete Steps.get_not_unsaturated_before_or_at_time Step.get_time
    Sets.least Sets.up_to
chosen = refl

sequence_number_to_delete_lem_example :
    (Sets.contains 5 six.not_unsaturated ≡ true)
    × (((◌≡◌ {A = ℕ} 5 0)
          × (Steps.first_is_spent collatz maps six.deleted_before
                (Step.get_time collatz maps (step 0 (saturated w)))
                0
                6
              ≡ true))
        ⊎ ((six.number_of_checkpoints ≤ length six.not_unsaturated)
            × (◌≢◌ {A = ℕ} 5 0)
            × ((5 + 1 == 6) ≡ false → ◌≢◌ {A = ℕ} 5 5)
            × ((t : ℕ)
                → Sets.contains t (4 ∷ []) ≡ true
                → Steps.get_not_unsaturated_before_or_at_time collatz maps t six ≢ ok 5)))
sequence_number_to_delete_lem_example =
    sequence_number_to_delete_lem collatz maps six (4 ∷ []) 6 0 5 5 (step 0 (saturated w)) refl refl
      refl chosen

-- After `delete_before 2` only the first checkpoint is left before the time 2.
abbrev spent : Steps collatz maps
spent = record (steps_of (step 0 (saturated w) ∷ step 1 unsaturated ∷ []) (0 ∷ [])) {
  deleted_before = some 2;
}

is_spent :
    IsSpent collatz maps spent
      (step 0 (saturated w))
      (step 1 unsaturated)
      w
      (record { time = 1; parent_index = 0; emission_index = 0 })
      2
unfolding Step.get_time
is_spent = record {
  steps = refl;
  checkpoints = refl;
  deleted = refl;
  first = refl;
  second = refl;
  successor = refl;
  scheduled = refl;
  before = omega arith;
}

apart :
    Step.get_time collatz maps (step 0 (saturated w))
    < Step.get_time collatz maps (step 1 unsaturated)
unfolding Step.get_time
apart = omega arith

due : Step.get_time collatz maps (step 1 unsaturated) ≤ 4
unfolding Step.get_time
due = omega arith

get_before_or_at_after_delete_example : get_before_or_at collatz maps (suc 3) 7 4 [] spent ≡ panic
get_before_or_at_after_delete_example =
    get_before_or_at_after_delete collatz maps is_spent 3 7 4 [] apart due

abbrev later_steps : List (Step collatz maps)
later_steps = step 4 unsaturated ∷ step 9 unsaturated ∷ []

steps-Ascending : Ascending collatz maps (step 2 (saturated w) ∷ later_steps)
unfolding Step.get_time
steps-Ascending = earlier (omega arith) (earlier (omega arith) one_step)

due_first : Step.get_time collatz maps (step 2 (saturated w)) ≤ 5
unfolding Step.get_time
due_first = omega arith

binary_search_lem_example :
    (i : ℕ) × (s : Step collatz maps) × (found_or_before collatz maps
        (Steps.binary_search collatz maps 5 (step 2 (saturated w) ∷ later_steps))
      ≡ ok i)
    × (get_elem? (step 2 (saturated w) ∷ later_steps) i ≡ some s)
    × (Step.get_time collatz maps s ≤ 5)
    × ((u : Step collatz maps)
        → get_elem? (step 2 (saturated w) ∷ later_steps) (suc i) ≡ some u
        → 5 < Step.get_time collatz maps u)
binary_search_lem_example =
    binary_search_lem collatz maps 5 (step 2 (saturated w)) later_steps steps-Ascending due_first
