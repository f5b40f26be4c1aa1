-- ===== src/Util/Entry/BTree.antt =====
-- util/src/extended_entry/btree_map.rs: entries of a `BTreeMap`, as the list of its entries in the order
-- of their keys.
use cozal.Prelude.{
  ℕ, ◌+◌, ◌==◌, ◌⊎◌, inl, inr, Option, none, some, List, [], ◌∷◌, length, if◌then◌else◌, Ordering,
  Outcome, ok, panic, ◌>>=◌, unwrap,
}
use cozal.Transposer.Time.{Ord, nat_ord}
use cozal.Transposer.Storage.{lookup, without}
use cozal.Util.Entry.{OccupiedExtEntry, VacantExtEntry}

module _ {K V : Type 0} ⦃o : Ord K⦄ where
  -- `BTreeMap::insert`
  unfoldable pub insert : K → V → List (K × V) → List (K × V)
  insert k v [] = (k, v) ∷ []
  insert k v ((j, w) ∷ m) =
      let rest = insert k v m in
      elim (o.cmp k j) [
        | Ordering.lt ↦ (k, v) ∷ (j, w) ∷ m
        | Ordering.eq ↦ (k, v) ∷ m
        | Ordering.gt ↦ (j, w) ∷ rest
      ]

  -- `Ok` is the occupied entry.
  unfoldable pub get_occupied : K → List (K × V) → VacantExtEntry K V ⊎ OccupiedExtEntry K V
  unfolding lookup
  get_occupied key map = elim (lookup key map) [
    | some _ ↦ inr (record { map = map; key = key })
    | none ↦ inl (record { map = map; key = key })
  ]

  unfoldable pub get_first_occupied_mut : List (K × V) → Option (OccupiedExtEntry K V)
  get_first_occupied_mut [] = none
  get_first_occupied_mut ((k, v) ∷ m) = some (record { map = (k, v) ∷ m; key = k })

  unfoldable pub get_value : OccupiedExtEntry K V → Outcome V
  unfolding lookup
  get_value self = unwrap (lookup self.key self.map)

  -- A write through `get_value_mut`.
  unfoldable pub set_value : V → OccupiedExtEntry K V → OccupiedExtEntry K V
  unfolding insert
  set_value value self = record self { map = insert self.key value self.map }

  abbrev pub get_key_value : OccupiedExtEntry K V → Outcome (K × V)
  get_key_value self = do v ← get_value self; ok (self.key, v)

  -- `unreachable!()` for an entry of the other kind.
  abbrev pub expect_vacant :
      VacantExtEntry K V ⊎ OccupiedExtEntry K V → Outcome (VacantExtEntry K V)
  expect_vacant (inl e) = ok e
  expect_vacant (inr e) = panic

  abbrev pub expect_occupied :
      VacantExtEntry K V ⊎ OccupiedExtEntry K V → Outcome (OccupiedExtEntry K V)
  expect_occupied (inl e) = panic
  expect_occupied (inr e) = ok e

  unfoldable pub vacate : OccupiedExtEntry K V → Outcome (VacantExtEntry K V × V)
  unfolding lookup without get_occupied
  vacate self = do
    value ← unwrap (lookup self.key self.map)
    entry ← expect_vacant (get_occupied self.key (without self.key self.map))
    ok (entry, value)

  unfoldable pub occupy : V → VacantExtEntry K V → Outcome (OccupiedExtEntry K V)
  unfolding insert get_occupied
  occupy value self = expect_occupied (get_occupied self.key (insert self.key value self.map))

-- The loop of `get_first_vacant_index`, at the entry with the number `i`.
unfoldable pub first_gap : {V : Type 0} → ℕ → List (ℕ × V) → Option ℕ
first_gap i [] = none
first_gap i ((k, v) ∷ m) = let rest = first_gap (i + 1) m in if i == k then rest else some i

abbrev pub index_or : ℕ → Option ℕ → ℕ
index_or n none = n
index_or n (some i) = i

unfoldable pub get_first_vacant_index : {V : Type 0} → List (ℕ × V) → ℕ
unfolding first_gap
get_first_vacant_index map = index_or (length map) (first_gap 0 map)

unfoldable pub get_first_vacant : {V : Type 0} → List (ℕ × V) → Outcome (VacantExtEntry ℕ V)
unfolding get_first_vacant_index
get_first_vacant map = expect_vacant (get_occupied ⦃o = nat_ord⦄ (get_first_vacant_index map) map)
