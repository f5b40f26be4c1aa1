-- ===== src/Util/Entry/Indexed.antt =====
-- util/src/extended_entry/vecdeque.rs: an entry of a `VecDeque`, as a list. It borrows the deque, so it
-- holds the deque and its index; `unreachable_unchecked` is a panic.
use cozal.Prelude.{
  ℕ, zero, suc, ◌<◌, ◌≤◌, ◌≡◌, ◌≢◌, refl, Option, none, some, List, [], ◌∷◌, length, get_elem?, set,
  length-set, get_elem?-set_self, get_elem?-set_other, ltb, if◌then◌else◌, Outcome, ok, panic,
  unwrap, arith, ap,
}

pub record ExtEntry (A : Type 0) : Type 0 where
  pub vec_deque : List A
  pub index : ℕ

module _ {A : Type 0} where
  unfoldable pub get_ext_entry : List A → ℕ → Option (ExtEntry A)
  get_ext_entry vec_deque index =
      if ltb index (length vec_deque)
      then some (record { vec_deque = vec_deque; index = index })
      else none

  unfoldable pub get_value : ExtEntry A → Outcome A
  get_value self = unwrap (get_elem? self.vec_deque self.index)

  -- A write through `get_value_mut`.
  abbrev written : ExtEntry A → A → Option A → Outcome (ExtEntry A)
  written self value none = panic
  written self value (some _) = ok (record self { vec_deque = set self.vec_deque self.index value })

  unfoldable pub set_value : A → ExtEntry A → Outcome (ExtEntry A)
  set_value value self = written self value (get_elem? self.vec_deque self.index)

  in_range : (xs : List A) (i : ℕ) → i < length xs → (x : A) × (get_elem? xs i ≡ some x)
  in_range [] i h = absurd (omega (arith, h))
  in_range (x ∷ xs) zero h = (x, refl)
  in_range (x ∷ xs) (suc i) h = in_range xs i (omega (arith, h))

  -- Behind the end of a deque there is no entry.
  get_ext_entry-none : (d : List A) (i : ℕ) → length d ≤ i → get_ext_entry d i ≡ none
  unfolding get_ext_entry
  get_ext_entry-none d i h = ground (arith, h)

  -- An index in the deque has an entry. Its value is read and written without the
  -- `unreachable_unchecked`; the write changes the value at the index and no other one.
  get_ext_entry-some :
      (d : List A) (i : ℕ) (v : A)
      → i < length d
      → (entry entry' : ExtEntry A) × (x : A) × (get_ext_entry d i ≡ some entry)
        × (get_elem? d i ≡ some x)
        × (get_value entry ≡ ok x)
        × (set_value v entry ≡ ok entry')
        × (get_value entry' ≡ ok v)
        × (get_ext_entry entry'.vec_deque i ≡ some entry')
        × ((j : ℕ) → i ≢ j → get_elem? entry'.vec_deque j ≡ get_elem? d j)
  unfolding get_ext_entry get_value set_value
  get_ext_entry-some d i v h =
      let (x, e) = in_range d i h in
      let h' : i < length (set d i v) = omega (arith, length-set d i v) in
      (
        record { vec_deque = d; index = i },
        record { vec_deque = set d i v; index = i },
        x,
        ground (arith, h),
        e,
        ap unwrap e,
        ap (written (record { vec_deque = d; index = i }) v) e,
        ap unwrap (get_elem?-set_self d i x v e),
        ground (arith, h'),
        λ j. get_elem?-set_other d i j v,
      )
