-- ===== src/Source/Sets.antt =====
-- `BTreeSet<usize>` of the standard library as the ascending list of its elements, and
-- `usize::trailing_zeros`.
use cozal.Prelude.{
  ℕ, zero, suc, ◌/◌, ◌%◌, Ordering, compare, Bool, true, false, ◌||◌, List, [], ◌∷◌, ltb, leb, ◌==◌,
  if◌then◌else◌, Option, none, some,
}

unfoldable pub insert : ℕ → List ℕ → List ℕ
insert k [] = k ∷ []
insert k (x ∷ xs) = elim (compare k x) [
  | Ordering.lt ↦ k ∷ x ∷ xs
  | Ordering.eq ↦ x ∷ xs
  | Ordering.gt ↦ x ∷ insert k xs
]

unfoldable pub remove : ℕ → List ℕ → List ℕ
remove k [] = []
remove k (x ∷ xs) = if k == x then xs else x ∷ remove k xs

-- `range(..=k)`
unfoldable pub up_to : ℕ → List ℕ → List ℕ
up_to k [] = []
up_to k (x ∷ xs) = if leb x k then x ∷ up_to k xs else up_to k xs

-- `split_off(&k)`: the elements from `k` on.
unfoldable pub from : ℕ → List ℕ → List ℕ
from k [] = []
from k (x ∷ xs) = if ltb x k then from k xs else x ∷ from k xs

abbrev pub contains : ℕ → List ℕ → Bool
contains k [] = false
contains k (x ∷ xs) = k == x || contains k xs

-- `trailing_zeros` of a word of 64 bits, with fuel 64; it is 64 for 0.
unfoldable pub count_zeros : ℕ → ℕ → ℕ
count_zeros zero n = 0
count_zeros (suc f) n = let rest = count_zeros f (n / 2) in if n % 2 == 0 then suc rest else 0

unfoldable pub trailing_zeros : ℕ → ℕ
unfolding count_zeros
trailing_zeros n = count_zeros 64 n

-- `min_by_key(|i| (i.trailing_zeros(), *i))`
unfoldable pub precedes : ℕ → ℕ → Bool
unfolding trailing_zeros
precedes a b = elim (compare (trailing_zeros a) (trailing_zeros b)) [
  | Ordering.lt ↦ true
  | Ordering.eq ↦ leb a b
  | Ordering.gt ↦ false
]

abbrev pub lesser : ℕ → Option ℕ → ℕ
lesser a none = a
lesser a (some b) = if precedes a b then a else b

unfoldable pub least : List ℕ → Option ℕ
unfolding precedes
least [] = none
least (x ∷ xs) = some (lesser x (least xs))
