-- ===== src/Source/Adapters/Rollback/Stored.antt =====
-- source/src/adapters/duplicate/duplicate_inner.rs: which events of a duplicate are kept and sent.
use cozal.Prelude.{
  zero, suc, get_elem?, ℕ, ◌≡◌, ◌≤◌, ◌<◌, refl, sym, subst, Option, none, some, inl, inr, List, [],
  ◌∷◌, Bool, true, false, Bool-cases, compare, Ordering, ltb, leb, if◌then◌else◌, arith,
}
use cozal.Source.Adapters.Rollback.{
  RollbackEvent, event, rollback, finalize, search, time_of, cmp_rollback, handle_rollback,
  first_event_time,
}

-- First the rollbacks, then the times.
abbrev pub cmp_keys : Bool → ℕ → Bool → ℕ → Ordering
cmp_keys true s false o = Ordering.lt
cmp_keys false s true o = Ordering.gt
cmp_keys true s true o = compare s o
cmp_keys false s false o = compare s o

module _ {Event : Type 0} where
  abbrev pub is_rollback : RollbackEvent Event → Bool
  is_rollback (rollback _) = true
  is_rollback _ = false

  -- The rollbacks, and of the others those before a time.
  abbrev pub kept : ℕ → List (RollbackEvent Event) → List (RollbackEvent Event)
  kept time [] = []
  kept time (f ∷ fs) =
      let rest = kept time fs in
      if is_rollback f then f ∷ rest else (if ltb (time_of f) time then f ∷ rest else rest)

  -- A rollback of the source leaves the rollbacks that are still to be sent, and the rest before its time.
  pub handle_rollback_lem :
      (time : ℕ) (events : List (RollbackEvent Event))
      → handle_rollback time events ≡ kept time events
  unfolding handle_rollback cmp_rollback
  handle_rollback_lem time [] = refl
  handle_rollback_lem time (event t e ∷ fs) = ground (arith, handle_rollback_lem time fs)
  handle_rollback_lem time (rollback t ∷ fs) = ground (arith, handle_rollback_lem time fs)
  handle_rollback_lem time (finalize t ∷ fs) = ground (arith, handle_rollback_lem time fs)
  handle_rollback_lem time (search t ∷ fs) = ground (arith, handle_rollback_lem time fs)

  -- Each member is before the next ones.
  abbrev pub Before : RollbackEvent Event → List (RollbackEvent Event) → Type 0
  Before e [] = Unit
  Before e (f ∷ fs) = (cmp_rollback e f ≡ Ordering.lt) × Before e fs

  abbrev pub Sorted : List (RollbackEvent Event) → Type 0
  Sorted [] = Unit
  Sorted (f ∷ fs) = Before f fs × Sorted fs

  pub cmp-keys :
      (e f : RollbackEvent Event)
      → cmp_rollback e f ≡ cmp_keys (is_rollback e) (time_of e) (is_rollback f) (time_of f)
  unfolding cmp_rollback
  cmp-keys (event a _) (event b _) = refl
  cmp-keys (event a _) (rollback b) = refl
  cmp-keys (event a _) (finalize b) = refl
  cmp-keys (event a _) (search b) = refl
  cmp-keys (rollback a) (event b _) = refl
  cmp-keys (rollback a) (rollback b) = refl
  cmp-keys (rollback a) (finalize b) = refl
  cmp-keys (rollback a) (search b) = refl
  cmp-keys (finalize a) (event b _) = refl
  cmp-keys (finalize a) (rollback b) = refl
  cmp-keys (finalize a) (finalize b) = refl
  cmp-keys (finalize a) (search b) = refl
  cmp-keys (search a) (event b _) = refl
  cmp-keys (search a) (rollback b) = refl
  cmp-keys (search a) (finalize b) = refl
  cmp-keys (search a) (search b) = refl

  -- No event is before the time.
  abbrev pub EventsFrom : ℕ → List (RollbackEvent Event) → Type 0
  EventsFrom t [] = Unit
  EventsFrom t (event u _ ∷ fs) = (t ≤ u) × EventsFrom t fs
  EventsFrom t (_ ∷ fs) = EventsFrom t fs

  Before-EventsFrom :
      (t c : ℕ) (e : Event) (fs : List (RollbackEvent Event))
      → c ≤ t
      → Before (event t e) fs
      → EventsFrom c fs
  unfolding cmp_rollback
  Before-EventsFrom t c e [] le before = tt
  Before-EventsFrom t c e (event u _ ∷ fs) le before =
      (ground (arith, le, before.0), Before-EventsFrom t c e fs le before.1)
  Before-EventsFrom t c e (rollback u ∷ fs) le before = Before-EventsFrom t c e fs le before.1
  Before-EventsFrom t c e (finalize u ∷ fs) le before = Before-EventsFrom t c e fs le before.1
  Before-EventsFrom t c e (search u ∷ fs) le before = Before-EventsFrom t c e fs le before.1

  -- A time that is given is that of an event before the cutoff, and no event is earlier.
  abbrev pub Earliest : ℕ → Option ℕ → List (RollbackEvent Event) → Type 0
  Earliest cutoff none events = EventsFrom cutoff events
  Earliest cutoff (some t) events =
      (t < cutoff)
      × EventsFrom t events
      × (i : ℕ) × (e : Event) × (get_elem? events i ≡ some (event t e))

  first_event_time-none :
      (events : List (RollbackEvent Event)) → first_event_time none events ≡ none
  unfolding first_event_time
  first_event_time-none [] = refl
  first_event_time-none (f ∷ fs) = first_event_time-none fs

  Earliest-cons :
      (cutoff : ℕ) (o : Option ℕ) (f : RollbackEvent Event) (fs : List (RollbackEvent Event))
      → ((t : ℕ) → EventsFrom t fs → EventsFrom t (f ∷ fs))
      → Earliest cutoff o fs
      → Earliest cutoff o (f ∷ fs)
  Earliest-cons cutoff none f fs more h = more cutoff h
  Earliest-cons cutoff (some t) f fs more (lt, from, i, e, found) =
      (lt, more t from, suc i, e, found)

  first_event_time-some :
      (cutoff : ℕ) (events : List (RollbackEvent Event))
      → Sorted events
      → Earliest cutoff (first_event_time (some cutoff) events) events
  unfolding first_event_time
  first_event_time-some cutoff [] sorted = tt
  first_event_time-some cutoff (event t e ∷ fs) sorted = elim (Bool-cases (leb cutoff t)) [
    | inl le ↦
        subst (λ b. Earliest cutoff (if b then none else some t) (event t e ∷ fs)) (sym le)
          (ground (arith, le), Before-EventsFrom t cutoff e fs (ground (arith, le)) sorted.0)
    | inr gt ↦
        subst (λ b. Earliest cutoff (if b then none else some t) (event t e ∷ fs)) (sym gt)
          (
            ground (arith, gt),
            (omega arith, Before-EventsFrom t t e fs (omega arith) sorted.0),
            zero,
            e,
            refl,
          )
  ]
  first_event_time-some cutoff (rollback u ∷ fs) sorted =
      Earliest-cons cutoff (first_event_time (some cutoff) fs) (rollback u) fs (λ t h. h)
        (first_event_time-some cutoff fs sorted.1)
  first_event_time-some cutoff (finalize u ∷ fs) sorted =
      Earliest-cons cutoff (first_event_time (some cutoff) fs) (finalize u) fs (λ t h. h)
        (first_event_time-some cutoff fs sorted.1)
  first_event_time-some cutoff (search u ∷ fs) sorted =
      Earliest-cons cutoff (first_event_time (some cutoff) fs) (search u) fs (λ t h. h)
        (first_event_time-some cutoff fs sorted.1)

  -- On sorted events, with a cutoff: the time that is given is that of a stored event before the cutoff,
  -- and no stored event is earlier; where none is given, no stored event is before the cutoff. Without a
  -- cutoff none is ever given.
  pub first_event_time_lem :
      (cutoff : ℕ) (events : List (RollbackEvent Event))
      → Sorted events
      → Earliest cutoff (first_event_time (some cutoff) events) events
        × (first_event_time none events ≡ none)
  first_event_time_lem cutoff events sorted =
      (first_event_time-some cutoff events sorted, first_event_time-none events)
