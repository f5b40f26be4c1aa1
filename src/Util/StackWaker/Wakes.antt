-- ===== src/Util/StackWaker/Wakes.antt =====
-- util/src/stack_waker.rs: every waker that is registered is woken once.
use cozal.Prelude.{
  ℕ, ◌≡◌, ◌≢◌, refl, sym, ap, ◌∙◌, Bool, true, false, ◌||◌, Bool-cases, subst, ◌⊎◌, inl, inr, List,
  [], ◌∷◌, Ordering, arith,
}
use cozal.Util.StackWaker.{
  Waker, cmp_waker, will_wake, drained, sort_in, sort, dedup_after, dedup, wake,
}

abbrev pub contains : Waker → List Waker → Bool
contains w [] = false
contains w (a ∷ rest) = will_wake a w || contains w rest

-- Each is before the next one, so no two are equal.
abbrev IsBefore : Waker → List Waker → Type 0
IsBefore a [] = Unit {0}
IsBefore a (b ∷ _) = cmp_waker a b ≡ Ordering.lt

abbrev pub Ascends : List Waker → Type 0
Ascends [] = Unit {0}
Ascends (a ∷ rest) = IsBefore a rest × Ascends rest

abbrev IsNotAfter : Waker → List Waker → Type 0
IsNotAfter a [] = Unit {0}
IsNotAfter a (b ∷ _) = cmp_waker a b ≢ Ordering.gt

abbrev Sorted : List Waker → Type 0
Sorted [] = Unit {0}
Sorted (a ∷ rest) = IsNotAfter a rest × Sorted rest

contains-sort_in :
    (w a : Waker) (l : List Waker) → contains w (sort_in a l) ≡ (will_wake a w || contains w l)
unfolding sort_in
contains-sort_in w a [] = refl
contains-sort_in w a (b ∷ l) = ground (arith, contains-sort_in w a l)

contains-sort : (w : Waker) (l : List Waker) → contains w (sort l) ≡ contains w l
unfolding sort
contains-sort w [] = refl
contains-sort w (a ∷ l) =
    contains-sort_in w a (sort l) ∙ ap (λ b. will_wake a w || b) (contains-sort w l)

flip : (a b : Waker) → cmp_waker a b ≡ Ordering.gt → cmp_waker b a ≢ Ordering.gt
flip a b gt = ground (arith, gt)

is_after : (a b : Waker) → (cmp_waker a b ≡ Ordering.gt) ⊎ (cmp_waker a b ≢ Ordering.gt)
is_after a b = go (cmp_waker a b)
  where
    go : (o : Ordering) → (o ≡ Ordering.gt) ⊎ (o ≢ Ordering.gt)
    go Ordering.lt = inr (λ e. absurd (cc))
    go Ordering.eq = inr (λ e. absurd (cc))
    go Ordering.gt = inl refl

sort_in-after :
    (a b : Waker) (l : List Waker)
    → cmp_waker a b ≡ Ordering.gt
    → sort_in a (b ∷ l) ≡ b ∷ sort_in a l
unfolding sort_in
sort_in-after a b l h = rw (sort_in, h) refl

sort_in-ahead :
    (a b : Waker) (l : List Waker) → cmp_waker a b ≢ Ordering.gt → sort_in a (b ∷ l) ≡ a ∷ b ∷ l
unfolding sort_in
sort_in-ahead a b l h = ground (arith, h)

dedup_after-same :
    (a b : Waker) (l : List Waker) → will_wake b a ≡ true → dedup_after a (b ∷ l) ≡ dedup_after a l
unfolding dedup_after
dedup_after-same a b l h = rw (dedup_after, h) refl

dedup_after-other :
    (a b : Waker) (l : List Waker)
    → will_wake b a ≡ false
    → dedup_after a (b ∷ l) ≡ b ∷ dedup_after b l
unfolding dedup_after
dedup_after-other a b l h = rw (dedup_after, h) refl

before_of_other :
    (a b : Waker)
    → will_wake b a ≡ false
    → cmp_waker a b ≢ Ordering.gt
    → cmp_waker a b ≡ Ordering.lt
before_of_other a b other ahead = ground (arith, other, ahead)

or_again : (b c : Bool) → (b || (b || c)) ≡ (b || c)
or_again true c = refl
or_again false c = refl

IsNotAfter-sort_in :
    (b a : Waker) (l : List Waker)
    → cmp_waker a b ≡ Ordering.gt
    → IsNotAfter b l
    → IsNotAfter b (sort_in a l)
unfolding sort_in
IsNotAfter-sort_in b a [] gt up = flip a b gt
IsNotAfter-sort_in b a (c ∷ l) gt up = elim (is_after a c) [
  | inl after ↦ subst (IsNotAfter b) (sym (sort_in-after a c l after)) up
  | inr ahead ↦ subst (IsNotAfter b) (sym (sort_in-ahead a c l ahead)) (flip a b gt)
]

Sorted-sort_in : (a : Waker) (l : List Waker) → Sorted l → Sorted (sort_in a l)
unfolding sort_in
Sorted-sort_in a [] up = (tt, tt)
Sorted-sort_in a (b ∷ l) (above, up) = elim (is_after a b) [
  | inl after ↦
      subst Sorted (sym (sort_in-after a b l after))
        (IsNotAfter-sort_in b a l after above, Sorted-sort_in a l up)
  | inr ahead ↦ subst Sorted (sym (sort_in-ahead a b l ahead)) (ahead, (above, up))
]

Sorted-sort : (l : List Waker) → Sorted (sort l)
unfolding sort
Sorted-sort [] = tt
Sorted-sort (a ∷ l) = Sorted-sort_in a (sort l) (Sorted-sort l)

same_waker : (a b : Waker) → will_wake a b ≡ true → a ≡ b
same_waker a b h = ground (arith, h)

contains-dedup_after :
    (w a : Waker) (l : List Waker)
    → (will_wake a w || contains w (dedup_after a l)) ≡ (will_wake a w || contains w l)
unfolding dedup_after
contains-dedup_after w a [] = refl
contains-dedup_after w a (b ∷ l) = elim (Bool-cases (will_wake b a)) [
  | inl e ↦
      let same = same_waker b a e in
      ap (λ d. will_wake a w || contains w d) (dedup_after-same a b l e)
      ∙ contains-dedup_after w a l
      ∙ sym (or_again (will_wake a w) (contains w l))
      ∙ ap (λ (c : Waker). will_wake a w || (will_wake c w || contains w l)) (sym same)
  | inr e ↦
      ap (λ d. will_wake a w || contains w d) (dedup_after-other a b l e)
      ∙ ap (λ c. will_wake a w || c) (contains-dedup_after w b l)
]

Ascends-dedup_after :
    (a : Waker) (l : List Waker) → IsNotAfter a l → Sorted l → Ascends (a ∷ dedup_after a l)
unfolding dedup_after
Ascends-dedup_after a [] up down = (tt, tt)
Ascends-dedup_after a (b ∷ l) up (above, rest) = elim (Bool-cases (will_wake b a)) [
  | inl e ↦
      subst (λ d. Ascends (a ∷ d)) (sym (dedup_after-same a b l e))
        (Ascends-dedup_after a l (subst (λ c. IsNotAfter c l) (same_waker b a e) above) rest)
  | inr e ↦
      subst (λ d. Ascends (a ∷ d)) (sym (dedup_after-other a b l e))
        (before_of_other a b e up, Ascends-dedup_after b l above rest)
]

Ascends-dedup : (l : List Waker) → Sorted l → Ascends (dedup l)
unfolding dedup
Ascends-dedup [] up = tt
Ascends-dedup (a ∷ l) (above, up) = Ascends-dedup_after a l above up

contains-dedup : (w : Waker) (l : List Waker) → contains w (dedup l) ≡ contains w l
unfolding dedup
contains-dedup w [] = refl
contains-dedup w (a ∷ l) = contains-dedup_after w a l

-- `wake` wakes those wakers that are registered, under whatever keys, in an ascending order, so that none
-- is woken twice; and none is registered any more.
pub wake_lem :
    (wakers : List (ℕ × Waker))
    → ((w : Waker) → contains w (wake wakers).0 ≡ contains w (drained wakers))
      × Ascends (wake wakers).0
      × ((wake wakers).1 ≡ [])
unfolding wake
wake_lem wakers =
    let sorted = sort (drained wakers) in
    (
      λ w. contains-dedup w sorted ∙ contains-sort w (drained wakers),
      Ascends-dedup sorted (Sorted-sort (drained wakers)),
      refl,
    )
