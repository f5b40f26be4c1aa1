-- ===== src/Util/Deque/Pairs.antt =====
-- util/src/vecdeque_helpers.rs: the two slices do not show.
use cozal.Prelude.{
  ℕ, zero, suc, ◌+◌, ◌-◌, ◌≡◌, ◌<◌, ◌≤◌, refl, sym, ◌∙◌, ap, Option, none, some, List, [], ◌∷◌,
  ◌++◌, length, get_elem?, get_elem?-append, get_elem?-drop, drop, last?, ltb, compare, Ordering,
  Outcome, ok, panic, ◌>>=◌, arith, inl, inr, Bool-cases,
}
use cozal.Util.Deque.{take, last_mut, split_pair, get_with_next_mut}

module _ {A : Type 0} where
  get_elem?_total : (xs : List A) (i : ℕ) → i < length xs → (x : A) × (get_elem? xs i ≡ some x)
  get_elem?_total [] i h = absurd (omega (arith, h))
  get_elem?_total (x ∷ xs) zero h = (x, refl)
  get_elem?_total (x ∷ xs) (suc i) h = get_elem?_total xs i (omega (arith, h))

  beyond : (xs : List A) (i : ℕ) → length xs ≤ i → get_elem? xs i ≡ none
  beyond [] i h = refl
  beyond (x ∷ xs) zero h = absurd (omega (arith, h))
  beyond (x ∷ xs) (suc i) h = beyond xs i (omega (arith, h))

  last?-take :
      (xs : List A) (i : ℕ) (x : A) → get_elem? xs i ≡ some x → last? (take (suc i) xs) ≡ some x
  last?-take [] i x h = absurd (cc)
  last?-take (y ∷ ys) zero x h = h
  last?-take (y ∷ ys) (suc i) x h = rw (last?-take ys i x h) refl

  get_elem?-append_right :
      (xs ys : List A) (k : ℕ) → get_elem? (xs ++ ys) (length xs + k) ≡ get_elem? ys k
  get_elem?-append_right [] ys k = let e : 0 + k ≡ k = omega arith in ap (get_elem? ys) e
  get_elem?-append_right (x ∷ xs) ys k =
      let e : length (x ∷ xs) + k ≡ suc (length xs + k) = omega arith in
      ap (get_elem? (x ∷ xs ++ ys)) e ∙ get_elem?-append_right xs ys k

  get_elem?-append_left :
      (xs ys : List A) (i : ℕ) → i < length xs → get_elem? (xs ++ ys) i ≡ get_elem? xs i
  get_elem?-append_left xs ys i h =
      let (x, e) = get_elem?_total xs i h in get_elem?-append xs ys i x e ∙ sym e

  -- An entry of a list with the next one, where there is one.
  abbrev pair_of : Option A → Option A → Outcome (Option (A × Option A))
  pair_of none next = panic
  pair_of (some x) next = ok (some (x, next))

  abbrev pair_at : List A → ℕ → Outcome (Option (A × Option A))
  pair_at xs i = pair_of (get_elem? xs i) (get_elem? xs (suc i))

  pair_some :
      (xs : List A) (i : ℕ) (x : A)
      → get_elem? xs i ≡ some x
      → pair_at xs i ≡ ok (some (x, get_elem? xs (suc i)))
  pair_some xs i x h = ap (λ o. pair_of o (get_elem? xs (suc i))) h

  pair_none : (xs : List A) (i : ℕ) → length xs ≤ i → pair_at xs i ≡ panic
  pair_none xs i h = ap (λ o. pair_of o (get_elem? xs (suc i))) (beyond xs i h)

  last_some : (xs : List A) (x : A) → last? xs ≡ some x → last_mut xs ≡ ok x
  last_some xs x h = rw (last_mut, h) refl

  split_pair_lem : (c : List A) (j : ℕ) → split_pair c j ≡ pair_at c j
  split_pair_lem c j = elim (Bool-cases (ltb (length c) (suc j))) [
    | inl over ↦ rw (split_pair, over) (sym (pair_none c j (ground (arith, over))))
    | inr inside ↦
        let (x, e) = get_elem?_total c j (ground (arith, inside)) in
        let next : get_elem? (drop (suc j) c) 0 ≡ get_elem? c (suc j) =
          get_elem?-drop (suc j) 0 c ∙ ap (λ k. get_elem? c k) (omega arith) in
        rw (split_pair, inside, last_some (take (suc j) c) x (last?-take c j x e), ◌>>=◌, next)
          (sym (pair_some c j x e))
  ]

  last?-at :
      (xs : List A) (i : ℕ) (x : A)
      → get_elem? xs i ≡ some x
      → suc i ≡ length xs
      → last? xs ≡ some x
  last?-at [] i x h e = absurd (cc)
  last?-at (y ∷ []) zero x h e = h
  last?-at (y ∷ z ∷ ys) zero x h e = absurd (omega (arith, e))
  last?-at (y ∷ ys) (suc i) x h e = rw (last?-at ys i x h (omega (arith, e))) refl

  same_pair :
      (xs ys : List A) (i j : ℕ)
      → get_elem? xs i ≡ get_elem? ys j
      → get_elem? xs (suc i) ≡ get_elem? ys (suc j)
      → pair_at xs i ≡ pair_at ys j
  same_pair xs ys i j e e' =
      ap (λ o. pair_of o (get_elem? xs (suc i))) e ∙ ap (pair_of (get_elem? ys j)) e'

  -- The entry `i` of the deque with the one after it, if there is one; a panic where `i` is behind the
  -- end, never `None`.
  get_with_next_mut_lem : (a b : List A) (i : ℕ) → get_with_next_mut a b i ≡ pair_at (a ++ b) i
  unfolding get_with_next_mut
  get_with_next_mut_lem a b i = go (compare (i + 1) (length a)) refl
    where
      go :
          (o : Ordering)
          → compare (i + 1) (length a) ≡ o
          → (elim o [
            | Ordering.lt ↦ split_pair a i
            | Ordering.eq ↦ (last_mut a >>= λ x. ok (some (x, get_elem? b 0)))
            | Ordering.gt ↦ split_pair b (i - length a)
          ])
            ≡ pair_at (a ++ b) i
      go Ordering.lt e =
          split_pair_lem a i
          ∙ same_pair a (a ++ b) i i (sym (get_elem?-append_left a b i (ground (arith, e))))
              (sym (get_elem?-append_left a b (suc i) (ground (arith, e))))
      go Ordering.eq e =
          let len : suc i ≡ length a = ground (arith, e) in
          let (x, at_i) = get_elem?_total a i (omega (arith, len)) in
          let next : get_elem? (a ++ b) (suc i) ≡ get_elem? b 0 =
            ap (get_elem? (a ++ b)) (omega (arith, len)) ∙ get_elem?-append_right a b 0 in
          rw (last_some a x (last?-at a i x at_i len), ◌>>=◌)
            (sym (
              pair_some (a ++ b) i x (get_elem?-append a b i x at_i)
              ∙ ap (λ (o : Option A). Outcome.ok (some (x, o))) next))
      go Ordering.gt e =
          let k = i - length a in
          let at_k : i ≡ length a + k = ground (arith, e) in
          let at_next : suc i ≡ length a + suc k = omega (arith, at_k) in
          split_pair_lem b k
          ∙ same_pair b (a ++ b) k i
              (sym (ap (get_elem? (a ++ b)) at_k ∙ get_elem?-append_right a b k))
              (sym (ap (get_elem? (a ++ b)) at_next ∙ get_elem?-append_right a b (suc k)))
