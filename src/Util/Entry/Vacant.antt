-- ===== src/Util/Entry/Vacant.antt =====
-- util/src/extended_entry/btree_map.rs: the first index that a map does not use.
use cozal.Prelude.{
  ℕ, suc, ◌+◌, ◌<◌, ◌≤◌, ◌==◌, ◌≡◌, refl, ap, sym, ◌∙◌, subst, ◌≢◌, true, false, Bool-cases, inl,
  inr, none, some, List, [], ◌∷◌, length, arith, ok,
}
use cozal.Transposer.Time.{nat_ord}
use cozal.Transposer.Storage.{lookup}
use cozal.Util.Entry.BTree.{
  first_gap, index_or, get_first_vacant_index, get_first_vacant, get_occupied,
}

module _ {V : Type 0} where
  -- The keys are at least `n`, and they ascend.
  abbrev pub IsAscendingFrom : ℕ → List (ℕ × V) → Type 0
  IsAscendingFrom n [] = Unit {0}
  IsAscendingFrom n ((k, _) ∷ m) = (n ≤ k) × IsAscendingFrom (k + 1) m

  not_below :
      (n j : ℕ) (m : List (ℕ × V)) → IsAscendingFrom n m → j < n → lookup ⦃o = nat_ord⦄ j m ≡ none
  unfolding lookup
  not_below n j [] up lt = refl
  not_below n j ((k, v) ∷ m) (le, up) lt =
      ground (arith, not_below (k + 1) j m up (omega (arith, le, lt)))

  lookup_here : (k : ℕ) (v : V) (m : List (ℕ × V)) → lookup ⦃o = nat_ord⦄ k ((k, v) ∷ m) ≡ some v
  unfolding lookup
  lookup_here k v m = ground arith

  lookup_after :
      (k j : ℕ) (v : V) (m : List (ℕ × V))
      → k ≢ j
      → lookup ⦃o = nat_ord⦄ j ((k, v) ∷ m) ≡ lookup ⦃o = nat_ord⦄ j m
  unfolding lookup
  lookup_after k j v m apart = ground (arith, apart)

  -- The first index from `n` on that the map does not use.
  abbrev gap : ℕ → List (ℕ × V) → ℕ
  gap n m = index_or (n + length m) (first_gap n m)

  gap_here : (n k : ℕ) (v : V) (m : List (ℕ × V)) → n ≡ k → gap n ((k, v) ∷ m) ≡ gap (n + 1) m
  unfolding first_gap
  gap_here n k v m same =
      let index : n + suc (length m) ≡ n + 1 + length m = omega arith in
      let here : (n == k) ≡ true = ground (arith, same) in rw (first_gap, here, index) refl

  gap_apart : (n k : ℕ) (v : V) (m : List (ℕ × V)) → n ≢ k → gap n ((k, v) ∷ m) ≡ n
  unfolding first_gap
  gap_apart n k v m apart =
      let other : (n == k) ≡ false = ground (arith, apart) in rw (first_gap, other) refl

  gap_ge : (n : ℕ) (m : List (ℕ × V)) → n ≤ gap n m
  unfolding first_gap
  gap_ge n [] = omega arith
  gap_ge n ((k, v) ∷ m) = ground (arith, gap_ge (n + 1) m)

  abbrev IsFirstFree : ℕ → List (ℕ × V) → ℕ → Type 0
  IsFirstFree n m i =
      (lookup ⦃o = nat_ord⦄ i m ≡ none)
      × ((j : ℕ) → n ≤ j → j < i → (v : V) × (lookup ⦃o = nat_ord⦄ j m ≡ some v))

  -- Past a first entry with the key `n`.
  IsFirstFree-cons :
      (n i : ℕ) (v : V) (m : List (ℕ × V))
      → n + 1 ≤ i
      → IsFirstFree (n + 1) m i
      → IsFirstFree n ((n, v) ∷ m) i
  IsFirstFree-cons n i v m above (free, below) = (
    lookup_after n i v m (λ e. omega (arith, e, above)) ∙ free,
    λ j le lt. elim (Bool-cases (n == j)) [
      | inl here ↦
          let same : n ≡ j = ground (arith, here) in
          (v, subst (λ l. lookup ⦃o = nat_ord⦄ l ((n, v) ∷ m) ≡ some v) same (lookup_here n v m))
      | inr other ↦
          let apart : n ≢ j = ground (arith, other) in
          let (u, found) = below j (omega (arith, le, apart)) lt in
          (u, lookup_after n j v m apart ∙ found)
    ],
  )

  gap-IsFirstFree : (n : ℕ) (m : List (ℕ × V)) → IsAscendingFrom n m → IsFirstFree n m (gap n m)
  unfolding first_gap lookup
  gap-IsFirstFree n [] up = (refl, λ j le lt. absurd (omega (arith, le, lt)))
  gap-IsFirstFree n ((k, v) ∷ m) (le, up) = elim (Bool-cases (n == k)) [
    | inl here ↦
        let same : n ≡ k = ground (arith, here) in
        subst (IsFirstFree n ((k, v) ∷ m)) (sym (gap_here n k v m same)) (
          subst (λ l. IsFirstFree n ((l, v) ∷ m) (gap (n + 1) m)) same
            (IsFirstFree-cons n (gap (n + 1) m) v m (gap_ge (n + 1) m)
              (gap-IsFirstFree (n + 1) m (subst (λ l. IsAscendingFrom (l + 1) m) (sym same) up))))
    | inr other ↦
        let apart : n ≢ k = ground (arith, other) in
        subst (IsFirstFree n ((k, v) ∷ m)) (sym (gap_apart n k v m apart)) (
          lookup_after k n v m (λ e. apart (sym e))
              ∙ not_below (k + 1) n m up (omega (arith, le, apart)),
          λ j from lt. absurd (omega (arith, from, lt)),
        )
  ]

  -- The keys of a map ascend. `get_first_vacant` returns, without the `unreachable!()`, the entry of an
  -- index that the map does not use, while it uses every smaller one.
  pub get_first_vacant_total :
      (map : List (ℕ × V))
      → IsAscendingFrom 0 map
      → (i : ℕ) × (get_first_vacant map ≡ ok (record { map = map; key = i }))
        × (lookup ⦃o = nat_ord⦄ i map ≡ none)
        × ((j : ℕ) → j < i → (v : V) × (lookup ⦃o = nat_ord⦄ j map ≡ some v))
  unfolding get_first_vacant get_first_vacant_index get_occupied
  get_first_vacant_total map up =
      let (free, below) = gap-IsFirstFree 0 map up in
      let index : length map ≡ 0 + length map = omega arith in
      let i = index_or (length map) (first_gap 0 map) in
      let same : i ≡ gap 0 map = ap (λ l. index_or l (first_gap 0 map)) index in
      let free' : lookup ⦃o = nat_ord⦄ i map ≡ none = rw same free in
      (
        i,
        rw (get_occupied, free') refl,
        free',
        λ j lt. below j (omega arith) (omega (arith, lt, same)),
      )
