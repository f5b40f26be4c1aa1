-- ===== src/Util/Entry/Hash.antt =====
-- util/src/extended_entry/hash_map.rs: entries of a `HashMap`, as the list of its entries.
use cozal.Prelude.{◌⊎◌, inl, inr, none, some, List, Outcome, ok, panic, ◌>>=◌, unwrap}
use cozal.Transposer.Time.{Ord}
use cozal.Transposer.Storage.{lookup, without, insert_entry}
use cozal.Util.Entry.{OccupiedExtEntry, VacantExtEntry}

module _ {K V : Type 0} ⦃o : Ord K⦄ where
  -- `Ok` is the occupied entry.
  unfoldable pub get_occupied : K → List (K × V) → VacantExtEntry K V ⊎ OccupiedExtEntry K V
  unfolding lookup
  get_occupied key this = elim (lookup key this) [
    | some _ ↦ inr (record { map = this; key = key })
    | none ↦ inl (record { map = this; key = key })
  ]

  unfoldable pub get_value : OccupiedExtEntry K V → Outcome V
  unfolding lookup
  get_value self = unwrap (lookup self.key self.map)

  -- A write through `get_value_mut`.
  unfoldable pub set_value : V → OccupiedExtEntry K V → OccupiedExtEntry K V
  unfolding insert_entry
  set_value value self = record self { map = insert_entry self.key value self.map }

  abbrev pub get_key_value : OccupiedExtEntry K V → Outcome (K × V)
  get_key_value self = do v ← get_value self; ok (self.key, v)

  -- `unreachable!()` for an entry of the other kind.
  abbrev pub expect_vacant :
      VacantExtEntry K V ⊎ OccupiedExtEntry K V → Outcome (VacantExtEntry K V)
  expect_vacant (inl e) = ok e
  expect_vacant (inr e) = panic

  abbrev pub expect_occupied :
      VacantExtEntry K V ⊎ OccupiedExtEntry K V → Outcome (OccupiedExtEntry K V)
  expect_occupied (inl e) = panic
  expect_occupied (inr e) = ok e

  unfoldable pub vacate : OccupiedExtEntry K V → Outcome (VacantExtEntry K V × V)
  unfolding lookup without get_occupied
  vacate self = do
    value ← unwrap (lookup self.key self.map)
    entry ← expect_vacant (get_occupied self.key (without self.key self.map))
    ok (entry, value)

  unfoldable pub occupy : V → VacantExtEntry K V → Outcome (OccupiedExtEntry K V)
  unfolding insert_entry get_occupied
  occupy value self = expect_occupied (get_occupied self.key (insert_entry self.key value self.map))
