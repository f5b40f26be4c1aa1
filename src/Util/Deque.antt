-- ===== src/Util/Deque.antt =====
-- util/src/vecdeque_helpers.rs: an entry of a deque with the one after it. The deque is its two slices.
pub mod Pairs
use cozal.Prelude.{
  ℕ, zero, suc, ◌+◌, ◌-◌, Option, none, some, List, [], ◌∷◌, length, get_elem?, drop, last?, ltb,
  if◌then◌else◌, compare, Ordering, Outcome, ok, panic, ◌>>=◌,
}

module _ {A : Type 0} where
  abbrev pub take : ℕ → List A → List A
  take zero xs = []
  take (suc n) [] = []
  take (suc n) (x ∷ xs) = x ∷ take n xs

  abbrev pub last_mut : List A → Outcome A
  last_mut xs = elim (last? xs) [ none ↦ panic | some x ↦ ok x ]

  -- `split_at_mut(j + 1)`, which panics behind the end, and the ends that meet.
  abbrev pub split_pair : List A → ℕ → Outcome (Option (A × Option A))
  split_pair c j =
      if ltb (length c) (suc j)
      then panic
      else (last_mut (take (suc j) c) >>= λ x. ok (some (x, get_elem? (drop (suc j) c) 0)))

  unfoldable pub get_with_next_mut : List A → List A → ℕ → Outcome (Option (A × Option A))
  get_with_next_mut a b i = elim (compare (i + 1) (length a)) [
    | Ordering.lt ↦ split_pair a i
    | Ordering.eq ↦ (last_mut a >>= λ x. ok (some (x, get_elem? b 0)))
    | Ordering.gt ↦ split_pair b (i - length a)
  ]
