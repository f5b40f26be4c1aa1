-- ===== src/Source/Adapters/InputBuffer.antt =====
-- source/src/adapters/transpose/input_buffer.rs: the inputs that a transposed source has still to
-- handle, by their times.
pub mod View
use cozal.Prelude.{ℕ, Option, none, some, List, [], ◌∷◌, ◌++◌, ltb, if◌then◌else◌}
use cozal.Transposer.Time.{nat_ord}
use cozal.Transposer.Storage.{lookup, insert_entry, without, least}

-- A `Vec` that can grow, or a boxed slice.
pub data InputContainer (Input : Type 0) : Type 0 where
  hot : List Input → InputContainer Input
  cold : List Input → InputContainer Input

-- The `BTreeMap` as the list of its entries.
abbrev pub InputBuffer : Type 0 → Type 0
InputBuffer Input = List (ℕ × InputContainer Input)

module _ {Input : Type 0} where
  unfoldable pub heat : InputContainer Input → List Input
  heat (hot vec) = vec
  heat (cold b) = b

  unfoldable pub push : Input → InputContainer Input → InputContainer Input
  unfolding heat
  push input self = hot (heat self ++ input ∷ [])

  -- `into_iter`, and the conversions to a `Vec` and to a boxed slice.
  unfoldable pub into_iter : InputContainer Input → List Input
  into_iter (hot vec) = vec
  into_iter (cold slice) = slice

  abbrev pub new : InputBuffer Input
  new = []

  abbrev pub push_at : ℕ → Input → Option (InputContainer Input) → InputContainer Input
  push_at time input none = hot (input ∷ [])
  push_at time input (some current) = push input current

  unfoldable pub insert_back : ℕ → Input → InputBuffer Input → InputBuffer Input
  insert_back time input self =
      insert_entry ⦃o = nat_ord⦄ time (push_at time input (lookup ⦃o = nat_ord⦄ time self)) self

  abbrev pub extend_at : List Input → Option (InputContainer Input) → InputContainer Input
  extend_at inputs none = cold inputs
  extend_at inputs (some current) = hot (inputs ++ into_iter current)

  unfoldable pub extend_front : ℕ → List Input → InputBuffer Input → InputBuffer Input
  unfolding into_iter
  extend_front time inputs self =
      insert_entry ⦃o = nat_ord⦄ time (extend_at inputs (lookup ⦃o = nat_ord⦄ time self)) self

  -- `first_entry`, with what `take` of the entry gives, and the buffer that it leaves.
  abbrev pub take_entry :
      Option (ℕ × InputContainer Input)
      → InputBuffer Input
      → Option (ℕ × List Input × InputBuffer Input)
  take_entry none self = none
  take_entry (some (time, c)) self = some (time, into_iter c, without ⦃o = nat_ord⦄ time self)

  unfoldable pub first_entry : InputBuffer Input → Option (ℕ × List Input × InputBuffer Input)
  unfolding into_iter
  first_entry self = take_entry (least ⦃o = nat_ord⦄ self) self

  -- `split_off` keeps the entries before the time in the map.
  unfoldable pub rollback : ℕ → InputBuffer Input → InputBuffer Input
  rollback time [] = []
  rollback time ((t, c) ∷ self) =
      let rest = rollback time self in if ltb t time then (t, c) ∷ rest else rest
