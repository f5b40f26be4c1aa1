-- ===== src/Transposer/Inputs/Order.antt =====
-- transposer/src/step/step_inputs.rs: the input events that are added and those that are handled.
use cozal.Prelude.{
  ℕ, ◌≡◌, refl, Ordering, compare, Bool-cases, inl, inr, List, [], ◌∷◌, ◌++◌, ok, arith,
}
use mathlib.Core.List.{Perm, perm_middle}
use mathlib.Core.List.Perm
use cozal.Transposer.Program.{Transposer}
use cozal.Transposer.Inputs
use cozal.Transposer.Inputs.{
  StepInputs, StepInputsEntry, insert_sorted, add_input, add_entry, add_event, values_of, handled,
  new_entry,
}

module _ (T : Transposer) where
  -- An entry holds inputs of the type that has the entry's `SORT`.
  pub data Typed : List (ℕ × StepInputsEntry T) → Type 0 where
    typed_nil : Typed []
    typed_cons :
        {k : ℕ} {e : StepInputsEntry T} {m : List (ℕ × StepInputsEntry T)}
        → ((i : T.InputEvent) → T.sort i ≡ k → T.input_type i ≡ e.input_type_id)
        → Typed m
        → Typed ((k, e) ∷ m)

module _ (T : Transposer) where
  Perm-insert_sorted :
      (time : ℕ) (i : T.InputEvent) (vs : List T.InputEvent)
      → Perm (insert_sorted T time i vs) (i ∷ vs)
  unfolding insert_sorted
  Perm-insert_sorted time i [] = Perm.refl (i ∷ [])
  Perm-insert_sorted time i (v ∷ vs) = elim (Bool-cases (Inputs.is_before T time i v)) [
    | inl e ↦
        rw (e, insert_sorted)
          (Perm.trans (Perm.cons v (Perm-insert_sorted time i vs)) (Perm.swap i v vs))
    | inr e ↦ rw (e, insert_sorted) (Perm.refl (i ∷ v ∷ vs))
  ]

  -- The sorts are unique, as `TransposerInput` asks.
  module _
      (sorts : (i j : T.InputEvent) → T.sort i ≡ T.sort j → T.input_type i ≡ T.input_type j) where
    add_input_ok :
        (time : ℕ) (i : T.InputEvent) (e : StepInputsEntry T)
        → T.input_type i ≡ e.input_type_id
        → add_input T time i e ≡ ok (record e { values = insert_sorted T time i e.values })
    unfolding add_input
    add_input_ok time i e same = ground (arith, same)

    new_entry_ok :
        (time : ℕ) (i : T.InputEvent)
        → add_input T time i (new_entry T i)
          ≡ ok (record { values = i ∷ []; input_type_id = T.input_type i })
    unfolding insert_sorted
    new_entry_ok time i = add_input_ok time i (new_entry T i) refl

    of_sort : (i j : T.InputEvent) → T.sort j ≡ T.sort i → T.input_type j ≡ T.input_type i
    of_sort i j h = sorts j i h

    -- What the maps of entries become.
    abbrev Added : ℕ → T.InputEvent → List (ℕ × StepInputsEntry T) → Type 0
    Added time i m =
        (m' : List (ℕ × StepInputsEntry T)) × (add_entry T time i m ≡ ok m')
        × Typed T m'
        × Perm (values_of T m') (i ∷ values_of T m)

    add_entry_total :
        (time : ℕ) (i : T.InputEvent) (m : List (ℕ × StepInputsEntry T))
        → Typed T m
        → Added time i m
    unfolding add_entry
    add_entry_total time i [] typed_nil = (
      (T.sort i, record { values = i ∷ []; input_type_id = T.input_type i }) ∷ [],
      rw (add_entry, new_entry_ok time i) refl,
      typed_cons (of_sort i) typed_nil,
      Perm.refl (i ∷ []),
    )
    add_entry_total time i ((k, e) ∷ m) (typed_cons typed rest) =
        go (add_entry_total time i m rest) (compare (T.sort i) k) refl
      where
        go : Added time i m → (o : Ordering) → compare (T.sort i) k ≡ o → Added time i ((k, e) ∷ m)
        go _ Ordering.lt h = (
          (T.sort i, record { values = i ∷ []; input_type_id = T.input_type i }) ∷ (k, e) ∷ m,
          rw (add_entry, h, new_entry_ok time i) refl,
          typed_cons (of_sort i) (typed_cons typed rest),
          Perm.refl (i ∷ (e.values ++ values_of T m)),
        )
        go _ Ordering.eq h = (
          (k, record e { values = insert_sorted T time i e.values }) ∷ m,
          rw (add_entry, h, add_input_ok time i e (typed i (ground (arith, h)))) refl,
          typed_cons typed rest,
          Perm.append_right (values_of T m) (Perm-insert_sorted time i e.values),
        )
        go (m', added, typed', perm) Ordering.gt h = (
          (k, e) ∷ m',
          rw (add_entry, h, added) refl,
          typed_cons typed typed',
          Perm.trans (Perm.append_left e.values perm) (perm_middle e.values (values_of T m)),
        )

    -- With unique sorts, `add_event` does not panic: the entries still hold inputs of their types, the
    -- time is the same, and the events that are handled are those of before and the new one.
    pub add_event_total :
        (i : T.InputEvent) (self : StepInputs T)
        → Typed T self.inputs
        → (self' : StepInputs T) × (add_event T i self ≡ ok self')
          × Typed T self'.inputs
          × (self'.time ≡ self.time)
          × Perm (handled T self') (i ∷ handled T self)
    unfolding add_event handled
    add_event_total i self typed =
        let (m, added, typed', perm) = add_entry_total self.time i self.inputs typed in
        (record self { inputs = m }, rw (add_event, added) refl, typed', refl, perm)
