-- ===== src/Util/Entry/Slot.antt =====
-- util/src/extended_entry/option.rs: an entry of an `Option`, which holds the option that it borrows;
-- `unreachable_unchecked` is a panic.
use cozal.Prelude.{
  ◌≡◌, refl, ◌⊎◌, inl, inr, Option, none, some, Outcome, ok, panic, unwrap, ◌>>=◌, arith,
}

pub record OccupiedExtEntry (A : Type 0) : Type 0 where
  pub option : Option A

pub record VacantExtEntry (A : Type 0) : Type 0 where
  pub option : Option A

module _ {A : Type 0} where
  -- `Ok` is the occupied entry.
  unfoldable pub get_occupied : Option A → VacantExtEntry A ⊎ OccupiedExtEntry A
  get_occupied none = inl (record { option = none })
  get_occupied (some inner) = inr (record { option = some inner })

  unfoldable pub get_value : OccupiedExtEntry A → Outcome A
  get_value self = unwrap self.option

  -- A write through `get_value_mut`.
  abbrev pub set_value : A → OccupiedExtEntry A → OccupiedExtEntry A
  set_value value self = record { option = some value }

  unfoldable pub vacate : OccupiedExtEntry A → Outcome (VacantExtEntry A × A)
  vacate self = do value ← unwrap self.option; ok (record { option = none }, value)

  abbrev pub fill : A → Option A → Outcome (OccupiedExtEntry A)
  fill value none = ok (record { option = some value })
  fill value (some _) = panic

  unfoldable pub occupy : A → VacantExtEntry A → Outcome (OccupiedExtEntry A)
  occupy value self = fill value self.option

  -- What `get_occupied` finds is what the option holds: an occupied entry gives the value up, and takes
  -- another one.
  occupied_lem :
      (option : Option A) (entry : OccupiedExtEntry A) (v : A)
      → get_occupied option ≡ inr entry
      → (x : A) × (free : VacantExtEntry A) × (option ≡ some x)
        × (get_value entry ≡ ok x)
        × (vacate entry ≡ ok (free, x))
        × (get_occupied free.option ≡ inl free)
        × (occupy v free ≡ ok (record { option = some v }))
  unfolding get_occupied get_value vacate occupy
  occupied_lem none entry v h = absurd (cc)
  occupied_lem (some x) entry v h =
      (x, record { option = none }, refl, ground (arith, h), ground (arith, h), refl, refl)

  -- A free entry of an option takes a value, without the `unreachable_unchecked`.
  vacant_lem :
      (option : Option A) (entry : VacantExtEntry A) (v : A)
      → get_occupied option ≡ inl entry
      → (held : OccupiedExtEntry A) × (option ≡ none)
        × (occupy v entry ≡ ok held)
        × (get_occupied held.option ≡ inr held)
        × (get_value held ≡ ok v)
  unfolding get_occupied get_value occupy
  vacant_lem none entry v h = (record { option = some v }, refl, ground (arith, h), refl, refl)
  vacant_lem (some x) entry v h = absurd (cc)
