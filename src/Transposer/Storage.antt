-- ===== src/Transposer/Storage.antt =====
-- transposer/src/schedule_storage.rs: the maps that a `StorageFamily` names, behind their laws, and
-- the maps of the standard library that the file gives as one choice.
pub mod Std
use cozal.Prelude.{◌≡◌, ◌≢◌, Ordering, List, [], ◌∷◌, Option, none, some, if◌then◌else◌}
use cozal.Transposer.Time.{Ord, same}

-- `OrdMapStorage`. A method on `&mut self` returns the new map. The laws are those of an ordered map.
pub record OrdMapStorage (K : Type 0) (o : Ord K) (V : Type 0) : Type 1 where
  pub Map : Type 0
  pub new : Map
  pub insert : K → V → Map → Map
  pub get : K → Map → Option V
  pub remove : K → Map → Option V × Map
  pub get_first : Map → Option (K × V)
  pub pop_first : Map → Option (K × V) × Map
  pub get-new : (k : K) → get k new ≡ none
  pub get-insert :
      (k : K) (v : V) (m : Map) (j : K)
      → get j (insert k v m) ≡ (if same ⦃o = o⦄ k j then some v else get j m)
  pub removed : (k : K) (m : Map) → (remove k m).0 ≡ get k m
  pub get-remove :
      (k : K) (m : Map) (j : K)
      → get j (remove k m).1 ≡ (if same ⦃o = o⦄ k j then none else get j m)
  pub get-get_first : (m : Map) (k : K) (v : V) → get_first m ≡ some (k, v) → get k m ≡ some v
  pub get_first_least :
      (m : Map) (k : K) (v : V) (j : K) (w : V)
      → get_first m ≡ some (k, v)
      → get j m ≡ some w
      → o.cmp j k ≢ Ordering.lt
  pub get_first_none : (m : Map) (k : K) → get_first m ≡ none → get k m ≡ none
  pub popped : (m : Map) → (pop_first m).0 ≡ get_first m
  pub pop_first_some :
      (m : Map) (k : K) (v : V) → get_first m ≡ some (k, v) → (pop_first m).1 ≡ (remove k m).1
  pub pop_first_none : (m : Map) → get_first m ≡ none → (pop_first m).1 ≡ m

-- `HashMapStorage`.
pub record HashMapStorage (K : Type 0) (o : Ord K) (V : Type 0) : Type 1 where
  pub Map : Type 0
  pub new : Map
  pub insert : K → V → Map → Map
  pub get : K → Map → Option V
  pub remove : K → Map → Option V × Map
  pub get-new : (k : K) → get k new ≡ none
  pub get-insert :
      (k : K) (v : V) (m : Map) (j : K)
      → get j (insert k v m) ≡ (if same ⦃o = o⦄ k j then some v else get j m)
  pub removed : (k : K) (m : Map) → (remove k m).0 ≡ get k m
  pub get-remove :
      (k : K) (m : Map) (j : K)
      → get j (remove k m).1 ≡ (if same ⦃o = o⦄ k j then none else get j m)

-- A map of the standard library, as the list of its entries. Its order is kept by no field: the
-- first entry of an ordered map is the one with the least key.
module _ {K V : Type 0} ⦃o : Ord K⦄ where
  unfoldable pub lookup : K → List (K × V) → Option V
  lookup k [] = none
  lookup k ((j, w) ∷ m) = if same j k then some w else lookup k m

  unfoldable pub without : K → List (K × V) → List (K × V)
  without k [] = []
  without k ((j, w) ∷ m) = let rest = without k m in if same k j then rest else (j, w) ∷ rest

  unfoldable pub insert_entry : K → V → List (K × V) → List (K × V)
  unfolding without
  insert_entry k v m = (k, v) ∷ without k m

  unfoldable pub remove_entry : K → List (K × V) → Option V × List (K × V)
  unfolding without lookup
  remove_entry k m = (lookup k m, without k m)

  abbrev pub lesser : K × V → Option (K × V) → Option (K × V)
  lesser e none = some e
  lesser e (some f) = elim (o.cmp f.0 e.0) [ Ordering.lt ↦ some f | _ ↦ some e ]

  unfoldable pub least : List (K × V) → Option (K × V)
  least [] = none
  least (e ∷ m) = lesser e (least m)

  abbrev pub without_least : Option (K × V) → List (K × V) → Option (K × V) × List (K × V)
  without_least none m = (none, m)
  without_least (some e) m = (some e, without e.0 m)

  unfoldable pub pop_least : List (K × V) → Option (K × V) × List (K × V)
  unfolding without least
  pop_least m = without_least (least m) m
