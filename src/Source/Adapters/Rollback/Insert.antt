-- ===== src/Source/Adapters/Rollback/Insert.antt =====
-- source/src/adapters/duplicate/rollback_event.rs: which events the set of a duplicate takes.
use cozal.Prelude.{
  ℕ, ◌==◌, ◌≡◌, refl, sym, ◌∙◌, ap, ◌⊎◌, inl, inr, List, [], ◌∷◌, ◌++◌, Bool, true, false, ◌&&◌,
  ◌||◌, not, Ordering, if◌then◌else◌, arith, subst,
}
use cozal.Source.Adapters.Rollback.{RollbackEvent, time_of, cmp_rollback, insert}
use cozal.Source.Adapters.Rollback.Stored.{cmp_keys, cmp-keys, is_rollback, Before, Sorted}

-- Both are rollbacks or both are none, and the times are the same.
abbrev same_keys : Bool → ℕ → Bool → ℕ → Bool
same_keys b s c t = (if b then c else not c) && (s == t)

same_of_eq :
    (b : Bool) (s : ℕ) (c : Bool) (t : ℕ)
    → cmp_keys b s c t ≡ Ordering.eq
    → same_keys b s c t ≡ true
same_of_eq true s true t eq = ground (arith, eq)
same_of_eq false s false t eq = ground (arith, eq)
same_of_eq true s false t eq = absurd (cc)
same_of_eq false s true t eq = absurd (cc)

apart_of_lt :
    (b : Bool) (s : ℕ) (c : Bool) (t : ℕ)
    → cmp_keys b s c t ≡ Ordering.lt
    → same_keys b s c t ≡ false
apart_of_lt true s true t lt = ground (arith, lt)
apart_of_lt false s false t lt = ground (arith, lt)
apart_of_lt true s false t lt = refl
apart_of_lt false s true t lt = absurd (cc)

flip_of_gt :
    (b : Bool) (s : ℕ) (c : Bool) (t : ℕ)
    → cmp_keys b s c t ≡ Ordering.gt
    → (cmp_keys c t b s ≡ Ordering.lt) × (same_keys b s c t ≡ false)
flip_of_gt true s true t gt = (ground (arith, gt), ground (arith, gt))
flip_of_gt false s false t gt = (ground (arith, gt), ground (arith, gt))
flip_of_gt true s false t gt = absurd (cc)
flip_of_gt false s true t gt = (refl, refl)

lt_trans_keys :
    (b : Bool) (s : ℕ) (c : Bool) (t : ℕ) (d : Bool) (u : ℕ)
    → cmp_keys b s c t ≡ Ordering.lt
    → cmp_keys c t d u ≡ Ordering.lt
    → cmp_keys b s d u ≡ Ordering.lt
lt_trans_keys true s c t false u h k = refl
lt_trans_keys true s true t true u h k = ground (arith, h, k)
lt_trans_keys true s false t true u h k = absurd (cc)
lt_trans_keys false s false t false u h k = ground (arith, h, k)
lt_trans_keys false s true t d u h k = absurd (cc)
lt_trans_keys false s false t true u h k = absurd (cc)

module _ {Event : Type 0} where
  abbrev pub same_key : RollbackEvent Event → RollbackEvent Event → Bool
  same_key e f = same_keys (is_rollback e) (time_of e) (is_rollback f) (time_of f)

  -- Whether an event with that key is stored already.
  abbrev pub is_taken : RollbackEvent Event → List (RollbackEvent Event) → Bool
  is_taken e [] = false
  is_taken e (f ∷ fs) = same_key e f || is_taken e fs

  lt_trans :
      (e f g : RollbackEvent Event)
      → cmp_rollback e f ≡ Ordering.lt
      → cmp_rollback f g ≡ Ordering.lt
      → cmp_rollback e g ≡ Ordering.lt
  lt_trans e f g h k =
      cmp-keys e g
      ∙ lt_trans_keys (is_rollback e) (time_of e) (is_rollback f) (time_of f) (is_rollback g)
          (time_of g) (sym (cmp-keys e f) ∙ h) (sym (cmp-keys f g) ∙ k)

  apart : (e f : RollbackEvent Event) → cmp_rollback e f ≡ Ordering.lt → same_key e f ≡ false
  apart e f h =
      apart_of_lt (is_rollback e) (time_of e) (is_rollback f) (time_of f) (sym (cmp-keys e f) ∙ h)

  Before-trans :
      (e f : RollbackEvent Event) (fs : List (RollbackEvent Event))
      → cmp_rollback e f ≡ Ordering.lt
      → Before f fs
      → Before e fs
  Before-trans e f [] h before = tt
  Before-trans e f (g ∷ fs) h (k, before) = (lt_trans e f g h k, Before-trans e f fs h before)

  Before-is_taken :
      (e : RollbackEvent Event) (fs : List (RollbackEvent Event))
      → Before e fs
      → is_taken e fs ≡ false
  Before-is_taken e [] before = refl
  Before-is_taken e (f ∷ fs) (h, before) = rw (apart e f h) (Before-is_taken e fs before)

  Before-middle :
      (f e : RollbackEvent Event) (bs gs : List (RollbackEvent Event))
      → cmp_rollback f e ≡ Ordering.lt
      → Before f (bs ++ gs)
      → Before f (bs ++ e ∷ gs)
  Before-middle f e [] gs h before = (h, before)
  Before-middle f e (b ∷ bs) gs h (k, before) = (k, Before-middle f e bs gs h before)

  -- What `insert` does: the key is taken, and the set stays; or it is free, and the event gets its place.
  abbrev pub Inserts : RollbackEvent Event → List (RollbackEvent Event) → Type 0
  Inserts e events =
      ((is_taken e events ≡ true) × (insert e events ≡ (false, events)))
      ⊎ ((is_taken e events ≡ false)
          × (bs : List (RollbackEvent Event)) × (gs : List (RollbackEvent Event)) × (events
              ≡ bs ++ gs)
          × (insert e events ≡ (true, bs ++ e ∷ gs))
          × Sorted (bs ++ e ∷ gs))

  Inserts-later :
      (e f : RollbackEvent Event) (fs : List (RollbackEvent Event))
      → cmp_rollback e f ≡ Ordering.gt
      → Before f fs
      → Inserts e fs
      → Inserts e (f ∷ fs)
  unfolding insert
  Inserts-later e f fs gt before (inl (taken, same)) =
      let (lt, other) =
        flip_of_gt (is_rollback e) (time_of e) (is_rollback f) (time_of f)
          (sym (cmp-keys e f) ∙ gt) in
      inl (rw other taken, rw (insert, gt, same) refl)
  Inserts-later e f fs gt before (inr (free, bs, gs, split, placed, sorted)) =
      let (lt, other) =
        flip_of_gt (is_rollback e) (time_of e) (is_rollback f) (time_of f)
          (sym (cmp-keys e f) ∙ gt) in
      inr (
        rw other free,
        f ∷ bs,
        gs,
        ap (λ l. f ∷ l) split,
        rw (insert, gt, placed) refl,
        (Before-middle f e bs gs (cmp-keys f e ∙ lt) (subst (Before f) split before), sorted),
      )

  Inserts-here :
      (e f : RollbackEvent Event) (fs : List (RollbackEvent Event)) (o : Ordering)
      → cmp_rollback e f ≡ o
      → Sorted (f ∷ fs)
      → Inserts e fs
      → Inserts e (f ∷ fs)
  unfolding insert
  Inserts-here e f fs Ordering.lt c sorted rest =
      let before = Before-trans e f fs c sorted.0 in
      inr (
        Before-is_taken e (f ∷ fs) (c, before),
        [],
        f ∷ fs,
        refl,
        rw (insert, c) refl,
        ((c, before), sorted),
      )
  Inserts-here e f fs Ordering.eq c sorted rest =
      let here : same_key e f ≡ true =
        same_of_eq (is_rollback e) (time_of e) (is_rollback f) (time_of f)
          (sym (cmp-keys e f) ∙ c) in
      inl (rw here refl, rw (insert, c) refl)
  Inserts-here e f fs Ordering.gt c sorted rest = Inserts-later e f fs c sorted.0 rest

  -- On sorted events: one is lost just if one of the same time is stored, of any kind, where both are
  -- rollbacks or both are none. Any other one gets a place, and the events stay sorted.
  pub insert_lem :
      (e : RollbackEvent Event) (events : List (RollbackEvent Event))
      → Sorted events
      → Inserts e events
  unfolding insert
  insert_lem e [] sorted = inr (refl, [], [], refl, refl, (tt, tt))
  insert_lem e (f ∷ fs) sorted =
      Inserts-here e f fs (cmp_rollback e f) refl sorted (insert_lem e fs sorted.1)
