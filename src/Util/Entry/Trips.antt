-- ===== src/Util/Entry/Trips.antt =====
-- util/src/extended_entry: an entry that is emptied and filled again.
use cozal.Prelude.{
  ◌≡◌, refl, ap, ◌∙◌, Bool-cases, Ordering, inl, inr, none, some, List, [], ◌∷◌, arith, ok,
  unwrap-some, ◌>>=◌,
}
use cozal.Transposer.Time.{Ord, same}
use cozal.Transposer.Storage.{lookup, without, insert_entry}
use cozal.Transposer.Storage.Std.{lookup-without, lookup-insert_entry}
use cozal.Util.Entry.{OccupiedExtEntry, VacantExtEntry}
use cozal.Util.Entry.BTree
use cozal.Util.Entry.BTree.{insert}
use cozal.Util.Entry.Hash

module _ {K V : Type 0} ⦃o : Ord K⦄ where
  -- The keys of the entries ascend.
  abbrev pub IsAbove : K → List (K × V) → Type 0
  IsAbove k [] = Unit {0}
  IsAbove k ((j, _) ∷ m) = (o.cmp k j ≡ Ordering.lt) × IsAbove k m

  abbrev pub IsAscending : List (K × V) → Type 0
  IsAscending [] = Unit {0}
  IsAscending ((k, _) ∷ m) = IsAbove k m × IsAscending m

  pub lookup-insert : (k : K) (v : V) (m : List (K × V)) → lookup k (insert k v m) ≡ some v
  unfolding lookup insert
  lookup-insert k v [] = ground (arith, o.cmp_refl k)
  lookup-insert k v ((j, w) ∷ m) =
      ground
        (arith, lookup-insert k v m, o.cmp_refl k, o.eq_of_cmp k j, o.eq_of_cmp j k, o.cmp_refl j)

  without_above : (k : K) (m : List (K × V)) → IsAbove k m → without k m ≡ m
  unfolding without
  without_above k [] up = refl
  without_above k ((j, w) ∷ m) (lt, up) = ground (arith, lt, without_above k m up)

  insert_above : (k : K) (v : V) (m : List (K × V)) → IsAbove k m → insert k v m ≡ (k, v) ∷ m
  unfolding insert
  insert_above k v [] up = refl
  insert_above k v ((j, w) ∷ m) (lt, up) = ground (arith, lt)

  lookup_above : (k : K) (m : List (K × V)) → IsAbove k m → lookup k m ≡ none
  unfolding lookup
  lookup_above k [] up = refl
  lookup_above k ((j, w) ∷ m) (lt, up) =
      ground (arith, lt, lookup_above k m up, o.eq_of_cmp j k, o.cmp_refl k)

  IsAbove-without : (j k : K) (m : List (K × V)) → IsAbove j m → IsAbove j (without k m)
  unfolding without
  IsAbove-without j k [] up = tt
  IsAbove-without j k ((i, w) ∷ m) (lt, up) = elim (Bool-cases (same k i)) [
    | inl e ↦ rw e (IsAbove-without j k m up)
    | inr e ↦ rw e (lt, IsAbove-without j k m up)
  ]

  IsAscending-without : (k : K) (m : List (K × V)) → IsAscending m → IsAscending (without k m)
  unfolding without
  IsAscending-without k [] up = tt
  IsAscending-without k ((i, w) ∷ m) (above, up) = elim (Bool-cases (same k i)) [
    | inl e ↦ rw e (IsAscending-without k m up)
    | inr e ↦ rw e (IsAbove-without i k m above, IsAscending-without k m up)
  ]

  IsAbove-trans : (k j : K) (m : List (K × V)) → o.cmp k j ≡ Ordering.lt → IsAbove j m → IsAbove k m
  IsAbove-trans k j [] lt up = tt
  IsAbove-trans k j ((i, w) ∷ m) lt (lt', up) =
      (o.cmp_trans k j i lt lt', IsAbove-trans k j m lt up)

  -- What is taken out of an ordered map and put in again leaves the map as it was.
  insert-without :
      (k : K) (v : V) (m : List (K × V))
      → IsAscending m
      → lookup k m ≡ some v
      → insert k v (without k m) ≡ m
  unfolding lookup insert without
  insert-without k v [] up found = absurd (cc)
  insert-without k v ((j, w) ∷ m) (above, up) found = go (insert-without k v m up) (o.cmp k j) refl
    where
      go :
          (lookup k m ≡ some v → insert k v (without k m) ≡ m)
          → (c : Ordering) → o.cmp k j ≡ c
          → insert k v (without k ((j, w) ∷ m)) ≡ (j, w) ∷ m
      go ih Ordering.lt e =
          let none_there = lookup_above k m (IsAbove-trans k j m e above) in
          absurd (ground (arith, e, none_there, o.eq_of_cmp j k, o.cmp_refl k))
      go ih Ordering.eq e =
          let here : k ≡ j = o.eq_of_cmp k j e in
          let above' : IsAbove k m = rw here above in
          ground (arith, e, here, o.cmp_refl j, insert_above k v m above', without_above k m above')
      go ih Ordering.gt e = ground (arith, e, o.eq_of_cmp j k, o.cmp_refl k, ih)

  without-insert :
      (k : K) (v : V) (m : List (K × V))
      → IsAscending m
      → lookup k m ≡ none
      → without k (insert k v m) ≡ m
  unfolding lookup insert without
  without-insert k v [] up free = ground (arith, o.cmp_refl k)
  without-insert k v ((j, w) ∷ m) (above, up) free = go (without-insert k v m up) (o.cmp k j) refl
    where
      go :
          (lookup k m ≡ none → without k (insert k v m) ≡ m)
          → (c : Ordering) → o.cmp k j ≡ c
          → without k (insert k v ((j, w) ∷ m)) ≡ (j, w) ∷ m
      go ih Ordering.lt e =
          ground (arith, e, o.cmp_refl k, without_above k m (IsAbove-trans k j m e above))
      go ih Ordering.eq e =
          let here : k ≡ j = o.eq_of_cmp k j e in absurd (ground (arith, here, free, o.cmp_refl j))
      go ih Ordering.gt e = ground (arith, e, free, ih, o.cmp_refl k, o.eq_of_cmp j k)

  without_free : (k : K) (m : List (K × V)) → lookup k (without k m) ≡ none
  without_free k m = ground (arith, lookup-without k m k, o.cmp_refl k)

  -- An occupied entry of an ordered map. It is emptied without the `unreachable!()`, which gives its
  -- value and leaves the key free and the keys ascending; filled again with that value, it is what it
  -- was, and so is the map.
  pub occupy-vacate :
      (e : OccupiedExtEntry K V) (value : V)
      → IsAscending e.map
      → BTree.get_value e ≡ ok value
      → (free : VacantExtEntry K V) × (BTree.vacate e ≡ ok (free, value))
        × IsAscending free.map
        × (lookup e.key free.map ≡ none)
        × (BTree.occupy value free ≡ ok e)
  unfolding BTree.get_value BTree.vacate BTree.occupy BTree.get_occupied
  occupy-vacate e value up held =
      let found : lookup e.key e.map ≡ some value = unwrap-some (lookup e.key e.map) value held in
      let left = without e.key e.map in
      let free = without_free e.key e.map in
      (
        record { map = left; key = e.key },
        rw (found, ◌>>=◌, BTree.get_occupied, free) refl,
        IsAscending-without e.key e.map up,
        free,
        ap (λ l. BTree.expect_occupied (BTree.get_occupied e.key l))
              (insert-without e.key value e.map up found)
            ∙ rw (BTree.get_occupied, found) refl,
      )

  -- A free entry of an ordered map. It is filled without the `unreachable!()`, and has the value; emptied
  -- again, it gives the value back and is what it was, and so is the map.
  pub vacate-occupy :
      (e : VacantExtEntry K V) (value : V)
      → IsAscending e.map
      → lookup e.key e.map ≡ none
      → (full : OccupiedExtEntry K V) × (BTree.occupy value e ≡ ok full)
        × (BTree.get_value full ≡ ok value)
        × (BTree.vacate full ≡ ok (e, value))
  unfolding BTree.get_value BTree.vacate BTree.occupy BTree.get_occupied
  vacate-occupy e value up free =
      let full : lookup e.key (insert e.key value e.map) ≡ some value =
        lookup-insert e.key value e.map in
      (
        record { map = insert e.key value e.map; key = e.key },
        rw (BTree.get_occupied, full) refl,
        rw full refl,
        rw (full, ◌>>=◌) refl
            ∙ ap (λ l. BTree.expect_vacant (BTree.get_occupied e.key l) >>= λ f. ok (f, value))
                (without-insert e.key value e.map up free)
            ∙ rw (BTree.get_occupied, free) refl,
      )

  -- An occupied entry of a hash map that is emptied, and filled again with its value: neither call meets
  -- the `unreachable!()`, and every key has the value that it had.
  pub lookup-occupy :
      (e : OccupiedExtEntry K V) (value : V)
      → Hash.get_value e ≡ ok value
      → (free : VacantExtEntry K V) × (full : OccupiedExtEntry K V) × (Hash.vacate e
          ≡ ok (free, value))
        × (lookup e.key free.map ≡ none)
        × (Hash.occupy value free ≡ ok full)
        × ((k : K) → lookup k full.map ≡ lookup k e.map)
  unfolding Hash.get_value Hash.vacate Hash.occupy Hash.get_occupied
  lookup-occupy e value held =
      let found : lookup e.key e.map ≡ some value = unwrap-some (lookup e.key e.map) value held in
      let left = without e.key e.map in
      let free = without_free e.key e.map in
      let full : lookup e.key (insert_entry e.key value left) ≡ some value =
        ground (arith, lookup-insert_entry e.key value left e.key, o.cmp_refl e.key) in
      (
        record { map = left; key = e.key },
        record { map = insert_entry e.key value left; key = e.key },
        rw (found, ◌>>=◌, Hash.get_occupied, free) refl,
        free,
        rw (Hash.get_occupied, full) refl,
        λ k. ground (
          arith,
          lookup-insert_entry e.key value left k,
          lookup-without e.key e.map k,
          o.eq_of_cmp e.key k,
          found,
        ),
      )
