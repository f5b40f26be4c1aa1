-- ===== src/Util/Entry.antt =====
-- util/src/extended_entry: entries of collections. An entry of a map borrows the map, so it holds the map
-- and its key.
pub mod BTree
pub mod Hash
pub mod Indexed
pub mod Slot
pub mod Vacant
pub mod Trips
use cozal.Prelude.{ℕ, ◌≡◌, List}

-- An entry that has a value in the map.
pub record OccupiedExtEntry (K V : Type 0) : Type 0 where
  pub map : List (K × V)
  pub key : K

-- An entry that has none.
pub record VacantExtEntry (K V : Type 0) : Type 0 where
  pub map : List (K × V)
  pub key : K
