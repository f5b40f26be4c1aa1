-- ===== src/Source/Adapters/Duplicate/Fresh.antt =====
-- source/src/adapters/duplicate: a new duplicate gets an index of its own.
use cozal.Prelude.{
  ℕ, ◌+◌, ◌<◌, ◌≤◌, ◌≡◌, ◌≢◌, refl, sym, subst, none, some, List, [], ◌∷◌, ◌++◌, last?-cons, arith,
}
use cozal.Transposer.Time.{nat_ord}
use cozal.Transposer.Storage.{lookup}
use cozal.Source.Adapters.Duplicate.{
  Src, Original, Children, get_next_index, register_child, from_original,
}
use cozal.Util.Entry.BTree.{insert}
use cozal.Util.Entry.Vacant.{IsAscendingFrom}

module _ {V : Type 0} where
  abbrev IsBelow : ℕ → List (ℕ × V) → Type 0
  IsBelow k [] = Unit {0}
  IsBelow k ((j, _) ∷ m) = (j < k) × IsBelow k m

  lookup-IsBelow : (k : ℕ) (m : List (ℕ × V)) → IsBelow k m → lookup ⦃o = nat_ord⦄ k m ≡ none
  unfolding lookup
  lookup-IsBelow k [] below = refl
  lookup-IsBelow k ((j, v) ∷ m) (lt, below) = ground (arith, lt, lookup-IsBelow k m below)

  insert-IsBelow :
      (k : ℕ) (v : V) (m : List (ℕ × V))
      → IsBelow k m
      → insert ⦃o = nat_ord⦄ k v m ≡ m ++ (k, v) ∷ []
  unfolding insert
  insert-IsBelow k v [] below = refl
  insert-IsBelow k v ((j, w) ∷ m) (lt, below) = ground (arith, lt, insert-IsBelow k v m below)

  lookup-last :
      (k j : ℕ) (v : V) (m : List (ℕ × V))
      → k ≢ j
      → lookup ⦃o = nat_ord⦄ j (m ++ (k, v) ∷ []) ≡ lookup ⦃o = nat_ord⦄ j m
  unfolding lookup
  lookup-last k j v [] apart = ground (arith, apart)
  lookup-last k j v ((i, w) ∷ m) apart = ground (arith, lookup-last k j v m apart)

  lookup-last_self :
      (k : ℕ) (v : V) (m : List (ℕ × V))
      → IsBelow k m
      → lookup ⦃o = nat_ord⦄ k (m ++ (k, v) ∷ []) ≡ some v
  unfolding lookup
  lookup-last_self k v [] below = ground arith
  lookup-last_self k v ((i, w) ∷ m) (lt, below) = ground (arith, lt, lookup-last_self k v m below)

  IsAscendingFrom-last :
      (n k : ℕ) (v : V) (m : List (ℕ × V))
      → n ≤ k
      → IsAscendingFrom n m
      → IsBelow k m
      → IsAscendingFrom n (m ++ (k, v) ∷ [])
  IsAscendingFrom-last n k v [] le up below = (le, tt)
  IsAscendingFrom-last n k v ((j, w) ∷ m) le (from, up) (lt, below) =
      (from, IsAscendingFrom-last (j + 1) k v m (omega (arith, lt)) up below)

module _ {Event : Type 0} where
  IsBelow-get_next_index :
      (n : ℕ) (children : Children Event)
      → IsAscendingFrom n children
      → IsBelow (get_next_index children) children
  unfolding get_next_index
  IsBelow-get_next_index n [] up = tt
  IsBelow-get_next_index n ((k, c) ∷ []) up = (omega arith, tt)
  IsBelow-get_next_index n ((k, c) ∷ (j, d) ∷ rest) (le, up) =
      let (z, e) = last?-cons (j, d) rest in
      let (lt, below) = IsBelow-get_next_index (k + 1) ((j, d) ∷ rest) up in
      let same : get_next_index ((k, c) ∷ (j, d) ∷ rest) ≡ get_next_index ((j, d) ∷ rest) =
        rw (get_next_index, e) refl in
      subst (λ i. IsBelow i ((k, c) ∷ (j, d) ∷ rest)) (sym same)
        (omega (arith, lt, up), (lt, below))

module _ (S : Src) where
  -- The indices of the children ascend. A new duplicate gets an index that no child has, and has nothing
  -- to send; every other child is as it was, and the indices still ascend.
  pub from_original_lem :
      (original : Original S)
      → IsAscendingFrom 0 original.children
      → let (index, original') = from_original S original in
        (lookup ⦃o = nat_ord⦄ index original.children ≡ none)
        × (lookup ⦃o = nat_ord⦄ index original'.children ≡ some (some []))
        × ((j : ℕ)
            → index ≢ j
            → lookup ⦃o = nat_ord⦄ j original'.children ≡ lookup ⦃o = nat_ord⦄ j original.children)
        × IsAscendingFrom 0 original'.children
  unfolding from_original register_child
  from_original_lem original up =
      let children = original.children in
      let index = get_next_index children in
      let below = IsBelow-get_next_index 0 children up in
      let at_end = insert-IsBelow index (some []) children below in
      (
        lookup-IsBelow index children below,
        rw at_end (lookup-last_self index (some []) children below),
        λ j apart. rw at_end (lookup-last index j (some []) children apart),
        rw at_end (IsAscendingFrom-last 0 index (some []) children (omega arith) up below),
      )
