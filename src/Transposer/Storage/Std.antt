-- ===== src/Transposer/Storage/Std.antt =====
-- transposer/src/schedule_storage.rs: `BTreeMap` and `HashMap` of the standard library meet the laws
-- of `OrdMapStorage` and `HashMapStorage`.
use cozal.Prelude.{
  ◌≡◌, refl, ◌≢◌, Ordering, List, [], ◌∷◌, none, some, if◌then◌else◌, arith, Option-cases, inl, inr,
}
use cozal.Transposer.Time.{Ord, same}
use cozal.Transposer.Storage.{
  OrdMapStorage, HashMapStorage, lookup, without, insert_entry, remove_entry, least, pop_least,
}

module _ {K V : Type 0} ⦃o : Ord K⦄ where
  pub lookup-without :
      (k : K) (m : List (K × V)) (j : K)
      → lookup j (without k m) ≡ (if same k j then none else lookup j m)
  unfolding lookup without
  lookup-without k [] j = ground arith
  lookup-without k ((i, w) ∷ m) j =
      ground
        (arith, lookup-without k m j, o.eq_of_cmp k i, o.eq_of_cmp i j, o.cmp_refl k, o.cmp_refl j)

  pub lookup-insert_entry :
      (k : K) (v : V) (m : List (K × V)) (j : K)
      → lookup j (insert_entry k v m) ≡ (if same k j then some v else lookup j m)
  unfolding insert_entry lookup
  lookup-insert_entry k v m j = ground (arith, lookup-without k m j)

  pub lookup-least :
      (m : List (K × V)) (k : K) (v : V) → least m ≡ some (k, v) → lookup k m ≡ some v
  unfolding lookup least
  lookup-least [] k v h = cc
  lookup-least ((i, u) ∷ m) k v h = elim (Option-cases (least m)) [
    | inl e ↦ ground (arith, o.cmp_refl k)
    | inr ((j, w), e) ↦ ground (
      arith,
      lookup-least m j w e,
      o.cmp_refl i,
      o.cmp_refl k,
      o.eq_of_cmp i k,
      o.cmp_flip i j,
      o.cmp_refl j,
    )
  ]

  pub least-none : (m : List (K × V)) (k : K) → least m ≡ none → lookup k m ≡ none
  unfolding lookup least
  least-none [] k h = refl
  least-none (e ∷ m) k h = ground arith

  pub least_lem :
      (m : List (K × V)) (k : K) (v : V) (j : K) (w : V)
      → least m ≡ some (k, v)
      → lookup j m ≡ some w
      → o.cmp j k ≢ Ordering.lt
  unfolding lookup least
  least_lem [] k v j w h l c = cc
  least_lem ((i, u) ∷ m) k v j w h l c = elim (Option-cases (least m)) [
    | inl e ↦ ground (arith, least-none m j, o.cmp_refl k, o.eq_of_cmp i j)
    | inr ((f, x), e) ↦ ground (
      arith,
      least_lem m f x j w e,
      o.cmp_refl k,
      o.eq_of_cmp i j,
      o.eq_of_cmp i f,
      o.eq_of_cmp f i,
      o.cmp_flip f i,
      o.cmp_trans j i f,
      o.cmp_trans f i f,
      o.cmp_refl f,
    )
  ]

  pub pop_least-some :
      (m : List (K × V)) (k : K) (v : V)
      → least m ≡ some (k, v)
      → (pop_least m).1 ≡ (remove_entry k m).1
  unfolding pop_least remove_entry
  pop_least-some m k v h = rw h

  pub pop_least-none : (m : List (K × V)) → least m ≡ none → (pop_least m).1 ≡ m
  unfolding pop_least
  pop_least-none m h = rw h

  pub popped_least : (m : List (K × V)) → (pop_least m).0 ≡ least m
  unfolding pop_least
  popped_least m = elim (Option-cases (least m)) [ inl e ↦ rw e | inr (f, e) ↦ rw e ]

  pub removed_lookup : (k : K) (m : List (K × V)) → (remove_entry k m).0 ≡ lookup k m
  unfolding remove_entry
  removed_lookup k m = refl

  pub lookup-remove_entry :
      (k : K) (m : List (K × V)) (j : K)
      → lookup j (remove_entry k m).1 ≡ (if same k j then none else lookup j m)
  unfolding remove_entry
  lookup-remove_entry k m j = lookup-without k m j

  pub lookup_nil : (k : K) → lookup {V = V} k [] ≡ none
  unfolding lookup
  lookup_nil k = refl

-- `impl OrdMapStorage for BTreeMap`
unfoldable pub btree_map : (K : Type 0) (o : Ord K) (V : Type 0) → OrdMapStorage K o V
unfolding lookup insert_entry remove_entry least pop_least
btree_map K o V = record {
  Map = List (K × V);
  new = [];
  insert = insert_entry ⦃o = o⦄;
  get = lookup ⦃o = o⦄;
  remove = remove_entry ⦃o = o⦄;
  get_first = least ⦃o = o⦄;
  pop_first = pop_least ⦃o = o⦄;
  get-new = lookup_nil ⦃o = o⦄;
  get-insert = lookup-insert_entry ⦃o = o⦄;
  removed = removed_lookup ⦃o = o⦄;
  get-remove = lookup-remove_entry ⦃o = o⦄;
  get-get_first = lookup-least ⦃o = o⦄;
  get_first_least = least_lem ⦃o = o⦄;
  get_first_none = least-none ⦃o = o⦄;
  popped = popped_least ⦃o = o⦄;
  pop_first_some = pop_least-some ⦃o = o⦄;
  pop_first_none = pop_least-none ⦃o = o⦄;
}

-- `impl HashMapStorage for HashMap`
unfoldable pub hash_map : (K : Type 0) (o : Ord K) (V : Type 0) → HashMapStorage K o V
unfolding lookup insert_entry remove_entry
hash_map K o V = record {
  Map = List (K × V);
  new = [];
  insert = insert_entry ⦃o = o⦄;
  get = lookup ⦃o = o⦄;
  remove = remove_entry ⦃o = o⦄;
  get-new = lookup_nil ⦃o = o⦄;
  get-insert = lookup-insert_entry ⦃o = o⦄;
  removed = removed_lookup ⦃o = o⦄;
  get-remove = lookup-remove_entry ⦃o = o⦄;
}
