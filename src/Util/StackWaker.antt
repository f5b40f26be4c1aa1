-- ===== src/Util/StackWaker.antt =====
-- util/src/stack_waker.rs: one waker that stands for those of many callers.
pub mod Wakes
use cozal.Prelude.{
  ℕ, Bool, true, false, Option, none, some, List, [], ◌∷◌, ◌==◌, ◌&&◌, Ordering, compare,
  if◌then◌else◌,
}
use cozal.Transposer.Time.{nat_ord, then_with}
use cozal.Transposer.Storage.{insert_entry, without}

-- A `Waker`, as the addresses of its data and of its table of functions.
pub record Waker : Type 0 where
  pub data_address : ℕ
  pub vtable_address : ℕ

-- A `Weak<StackWaker>` to the wakers, by their keys, or to nothing.
abbrev pub WeakWakers : Type 0
WeakWakers = Option (List (ℕ × Waker))

abbrev pub new_empty : WeakWakers
new_empty = none

abbrev pub upgraded : WeakWakers → List (ℕ × Waker)
upgraded none = []
upgraded (some wakers) = wakers

abbrev pub is_empty : List (ℕ × Waker) → Bool
is_empty [] = true
is_empty (_ ∷ _) = false

-- Whether the caller gets a new waker, and has to poll with it.
unfoldable pub register : ℕ → Waker → WeakWakers → Bool × WeakWakers
unfolding insert_entry
register key waker weak =
    let wakers = upgraded weak in
    (is_empty wakers, some (insert_entry ⦃o = nat_ord⦄ key waker wakers))

unfoldable pub un_register : ℕ → WeakWakers → WeakWakers
unfolding without
un_register key none = none
un_register key (some wakers) = some (without ⦃o = nat_ord⦄ key wakers)

-- The key of `sort_by_key`.
abbrev pub cmp_waker : Waker → Waker → Ordering
cmp_waker a b =
    then_with (compare a.data_address b.data_address) (compare a.vtable_address b.vtable_address)

-- `w1.will_wake(w2)`
abbrev pub will_wake : Waker → Waker → Bool
will_wake a b = (a.data_address == b.data_address) && (a.vtable_address == b.vtable_address)

abbrev pub drained : List (ℕ × Waker) → List Waker
drained [] = []
drained ((_, w) ∷ rest) = w ∷ drained rest

unfoldable pub sort_in : Waker → List Waker → List Waker
sort_in a [] = a ∷ []
sort_in a (b ∷ rest) =
    let later = sort_in a rest in
    elim (cmp_waker a b) [ Ordering.gt ↦ b ∷ later | _ ↦ a ∷ b ∷ rest ]

unfoldable pub sort : List Waker → List Waker
unfolding sort_in
sort [] = []
sort (a ∷ rest) = sort_in a (sort rest)

-- `dedup_by`, after the waker that was kept last.
unfoldable pub dedup_after : Waker → List Waker → List Waker
dedup_after a [] = []
dedup_after a (b ∷ rest) =
    let same = dedup_after a rest in
    let other = dedup_after b rest in if will_wake b a then same else b ∷ other

unfoldable pub dedup : List Waker → List Waker
unfolding dedup_after
dedup [] = []
dedup (a ∷ rest) = a ∷ dedup_after a rest

-- The wakers that are woken, in their order; none is left registered.
unfoldable pub wake : List (ℕ × Waker) → List Waker × List (ℕ × Waker)
unfolding sort dedup
wake wakers = (dedup (sort (drained wakers)), [])
