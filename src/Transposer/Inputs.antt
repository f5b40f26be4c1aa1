-- ===== src/Transposer/Inputs.antt =====
-- transposer/src/step/step_inputs.rs: the input events of one time, by the `SORT` of their types.
pub mod Order
pub mod Descends
use cozal.Prelude.{
  ℕ, Ordering, compare, Bool, true, false, List, [], ◌∷◌, ◌++◌, ◌==◌, if◌then◌else◌, Outcome, ok,
  panic, ◌>>=◌,
}
use cozal.Transposer.Program.{Transposer}

module _ (T : Transposer) where
  -- `values` is type erased in the source; the `handler` of an entry is that of its type.
  pub record StepInputsEntry : Type 0 where
    pub values : List T.InputEvent
    pub input_type_id : ℕ

module _ (T : Transposer) where
  -- `inputs` is a `BTreeMap`, which is walked in the order of its keys.
  pub record StepInputs : Type 0 where
    pub time : ℕ
    pub inputs : List (ℕ × StepInputsEntry T)

  -- `sort_input_events(time, &input, existing).is_lt()`
  abbrev pub is_before : ℕ → T.InputEvent → T.InputEvent → Bool
  is_before time input existing = elim (T.sort_input_events time input existing) [
    | Ordering.lt ↦ true
    | _ ↦ false
  ]

  -- `partition_point` and `insert`: the input goes before the first value that the test refuses.
  unfoldable pub insert_sorted : ℕ → T.InputEvent → List T.InputEvent → List T.InputEvent
  insert_sorted time input [] = input ∷ []
  insert_sorted time input (existing ∷ rest) =
      if is_before time input existing
      then existing ∷ insert_sorted time input rest
      else input ∷ existing ∷ rest

  abbrev pub new_entry : T.InputEvent → StepInputsEntry T
  new_entry input = record { values = []; input_type_id = T.input_type input }

  unfoldable pub add_input : ℕ → T.InputEvent → StepInputsEntry T → Outcome (StepInputsEntry T)
  add_input time input self =
      if T.input_type input == self.input_type_id
      then ok (record self { values = insert_sorted time input self.values })
      else panic

  -- `self.inputs.entry(I::SORT)`, and the call of `add_input` on what it gives.
  unfoldable pub add_entry :
      ℕ → T.InputEvent → List (ℕ × StepInputsEntry T) → Outcome (List (ℕ × StepInputsEntry T))
  add_entry time input [] = do
    e ← add_input time input (new_entry input)
    ok ((T.sort input, e) ∷ [])
  add_entry time input ((j, existing) ∷ m) = elim (compare (T.sort input) j) [
    | Ordering.lt ↦ do
      e ← add_input time input (new_entry input)
      ok ((T.sort input, e) ∷ (j, existing) ∷ m)
    | Ordering.eq ↦ do e ← add_input time input existing; ok ((j, e) ∷ m)
    | Ordering.gt ↦ do rest ← add_entry time input m; ok ((j, existing) ∷ rest)
  ]

  unfoldable pub add_event : T.InputEvent → StepInputs → Outcome StepInputs
  add_event event self = do
    inputs ← add_entry self.time event self.inputs
    ok (record self { inputs = inputs })

  abbrev pub values_of : List (ℕ × StepInputsEntry T) → List T.InputEvent
  values_of [] = []
  values_of ((_, e) ∷ m) = e.values ++ values_of m

  -- The events in the order in which `StepInputs::handle` hands them to the transposer.
  unfoldable pub handled : StepInputs → List T.InputEvent
  handled self = values_of self.inputs
