-- ===== src/Source/Adapters/InputBuffer/View.antt =====
-- source/src/adapters/transpose/input_buffer.rs: a buffer is a list of inputs for each time.
use cozal.Prelude.{
  ℕ, ◌≡◌, ◌≢◌, ◌≤◌, ◌⊎◌, refl, sym, ◌∙◌, ap, Option, Option-cases, none, some, inl, inr, List, [],
  ◌∷◌, ◌++◌, ◌==◌, ltb, if◌then◌else◌, Bool-cases, arith,
}
use mathlib.Core.List.{append-nil}
use cozal.Transposer.Time.{nat_ord}
use cozal.Transposer.Storage.{lookup, insert_entry, without, least}
use cozal.Transposer.Storage.Std.{
  lookup-insert_entry, lookup-without, lookup-least, least_lem, least-none,
}
use cozal.Source.Adapters.InputBuffer.{
  InputBuffer, InputContainer, hot, cold, insert_back, extend_front, first_entry, rollback,
  into_iter, push, heat, push_at, extend_at,
}

module _ {Input : Type 0} where
  abbrev pub contents : Option (InputContainer Input) → List Input
  contents none = []
  contents (some (hot vec)) = vec
  contents (some (cold slice)) = slice

  -- The inputs that are handled at a time, in their order.
  abbrev pub inputs_at : InputBuffer Input → ℕ → List Input
  inputs_at self t = contents (lookup ⦃o = nat_ord⦄ t self)

  contents-push_at :
      (time : ℕ) (x : Input) (c : Option (InputContainer Input))
      → contents (some (push_at time x c)) ≡ contents c ++ x ∷ []
  unfolding push heat
  contents-push_at time x none = refl
  contents-push_at time x (some (hot vec)) = refl
  contents-push_at time x (some (cold b)) = refl

  contents-extend_at :
      (xs : List Input) (c : Option (InputContainer Input))
      → contents (some (extend_at xs c)) ≡ xs ++ contents c
  unfolding into_iter
  contents-extend_at xs none = sym (append-nil xs)
  contents-extend_at xs (some (hot vec)) = refl
  contents-extend_at xs (some (cold b)) = refl

  inputs_at-insert_entry :
      (time : ℕ) (c : InputContainer Input) (self : InputBuffer Input) (j : ℕ)
      → inputs_at (insert_entry ⦃o = nat_ord⦄ time c self) j
        ≡ (if time == j then contents (some c) else inputs_at self j)
  inputs_at-insert_entry time c self j = elim (Bool-cases (time == j)) [
    | inl e ↦ rw (lookup-insert_entry ⦃o = nat_ord⦄ time c self j, e) refl
    | inr e ↦ rw (lookup-insert_entry ⦃o = nat_ord⦄ time c self j, e) refl
  ]

  lookup-rollback :
      (time : ℕ) (self : InputBuffer Input) (j : ℕ)
      → lookup ⦃o = nat_ord⦄ j (rollback time self)
        ≡ (if ltb j time then lookup ⦃o = nat_ord⦄ j self else none)
  unfolding rollback lookup
  lookup-rollback time [] j = ground arith
  lookup-rollback time ((t, c) ∷ self) j = ground (arith, lookup-rollback time self j)

  -- An input that is inserted comes last at its time, inputs that extend the front come first, and after
  -- a rollback the inputs before its time are left.
  pub inputs_at-changes :
      (self : InputBuffer Input) (time : ℕ) (input : Input) (inputs : List Input) (j : ℕ)
      → (inputs_at (insert_back time input self) j
          ≡ (if time == j then inputs_at self time ++ input ∷ [] else inputs_at self j))
        × (inputs_at (extend_front time inputs self) j
            ≡ (if time == j then inputs ++ inputs_at self time else inputs_at self j))
        × (inputs_at (rollback time self) j ≡ (if ltb j time then inputs_at self j else []))
  unfolding insert_back extend_front
  inputs_at-changes self time x xs j =
      let c = lookup ⦃o = nat_ord⦄ time self in
      (
        inputs_at-insert_entry time (push_at time x c) self j
            ∙ ap (λ ys. if time == j then ys else inputs_at self j) (contents-push_at time x c),
        inputs_at-insert_entry time (extend_at xs c) self j
            ∙ ap (λ ys. if time == j then ys else inputs_at self j) (contents-extend_at xs c),
        elim (Bool-cases (ltb j time)) [
          | inl e ↦ rw (lookup-rollback time self j, e) refl
          | inr e ↦ rw (lookup-rollback time self j, e) refl
        ],
      )

  inputs_at-without :
      (time : ℕ) (self : InputBuffer Input) (j : ℕ)
      → inputs_at (without ⦃o = nat_ord⦄ time self) j ≡ (if time == j then [] else inputs_at self j)
  inputs_at-without time self j = elim (Bool-cases (time == j)) [
    | inl e ↦ rw (lookup-without ⦃o = nat_ord⦄ time self j, e) refl
    | inr e ↦ rw (lookup-without ⦃o = nat_ord⦄ time self j, e) refl
  ]

  into_iter-contents : (c : InputContainer Input) → into_iter c ≡ contents (some c)
  unfolding into_iter
  into_iter-contents (hot vec) = refl
  into_iter-contents (cold slice) = refl

  not_before :
      (self : InputBuffer Input) (t j : ℕ) (c : InputContainer Input)
      → least ⦃o = nat_ord⦄ self ≡ some (t, c)
      → inputs_at self j ≢ []
      → t ≤ j
  not_before self t j c e has = elim (Option-cases (lookup ⦃o = nat_ord⦄ j self)) [
    | inl missing ↦ absurd (has (rw missing refl))
    | inr (d, found) ↦ ground (arith, least_lem ⦃o = nat_ord⦄ self t c j d e found)
  ]

  -- The first entry, when it is taken, has the inputs of its time; of these none are left, no other time
  -- has changed, and no earlier time has inputs. Without a first entry no time has inputs.
  pub first_entry_lem :
      (self : InputBuffer Input)
      → ((first_entry self ≡ none) × ((j : ℕ) → inputs_at self j ≡ []))
        ⊎ ((time : ℕ) × (rest : InputBuffer Input) × (first_entry self
              ≡ some (time, inputs_at self time, rest))
            × ((j : ℕ) → inputs_at rest j ≡ (if time == j then [] else inputs_at self j))
            × ((j : ℕ) → inputs_at self j ≢ [] → time ≤ j))
  unfolding first_entry
  first_entry_lem self = elim (Option-cases (least ⦃o = nat_ord⦄ self)) [
    | inl e ↦ inl (rw e refl, λ j. ap contents (least-none ⦃o = nat_ord⦄ self j e))
    | inr ((t, c), e) ↦
        let here : into_iter c ≡ inputs_at self t =
          into_iter-contents c ∙ sym (ap contents (lookup-least ⦃o = nat_ord⦄ self t c e)) in
        inr (
          t,
          without ⦃o = nat_ord⦄ t self,
          rw (e, here) refl,
          λ j. inputs_at-without t self j,
          λ j has. not_before self t j c e has,
        )
  ]
