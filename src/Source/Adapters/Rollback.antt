-- ===== src/Source/Adapters/Rollback.antt =====
-- source/src/adapters/duplicate/rollback_event.rs, and the `Events` of
-- source/src/adapters/duplicate/duplicate_inner.rs: what a duplicate has still to send.
pub mod Stored
pub mod Insert
use cozal.Prelude.{
  ℕ, Option, none, some, List, [], ◌∷◌, Bool, true, false, compare, Ordering, ltb, leb,
  if◌then◌else◌,
}

pub data RollbackEvent (Event : Type 0) : Type 0 where
  event : ℕ → Event → RollbackEvent Event
  rollback : ℕ → RollbackEvent Event
  finalize : ℕ → RollbackEvent Event
  search : ℕ → RollbackEvent Event

module _ {Event : Type 0} where
  unfoldable pub time_of : RollbackEvent Event → ℕ
  time_of (event time _) = time
  time_of (rollback time) = time
  time_of (search time) = time
  time_of (finalize time) = time

  -- `Ord::cmp`: of two that are no rollbacks the times are compared, whatever they are.
  unfoldable pub cmp_rollback : RollbackEvent Event → RollbackEvent Event → Ordering
  unfolding time_of
  cmp_rollback (rollback s) (rollback o) = compare s o
  cmp_rollback (event _ _) (rollback _) = Ordering.gt
  cmp_rollback (finalize _) (rollback _) = Ordering.gt
  cmp_rollback (search _) (rollback _) = Ordering.gt
  cmp_rollback (rollback _) (event _ _) = Ordering.lt
  cmp_rollback (rollback _) (finalize _) = Ordering.lt
  cmp_rollback (rollback _) (search _) = Ordering.lt
  cmp_rollback (event t _) (event u _) = compare t u
  cmp_rollback (event t _) (finalize u) = compare t u
  cmp_rollback (event t _) (search u) = compare t u
  cmp_rollback (finalize t) (event u _) = compare t u
  cmp_rollback (finalize t) (finalize u) = compare t u
  cmp_rollback (finalize t) (search u) = compare t u
  cmp_rollback (search t) (event u _) = compare t u
  cmp_rollback (search t) (finalize u) = compare t u
  cmp_rollback (search t) (search u) = compare t u

  -- `Events`, a `BTreeSet` as the list of its members in their order. `insert` keeps a member that is
  -- equal to the new one, and is then false.
  unfoldable pub insert :
      RollbackEvent Event → List (RollbackEvent Event) → Bool × List (RollbackEvent Event)
  insert e [] = (true, e ∷ [])
  insert e (f ∷ fs) =
      let rest = insert e fs in
      elim (cmp_rollback e f) [
        | Ordering.lt ↦ (true, e ∷ f ∷ fs)
        | Ordering.eq ↦ (false, f ∷ fs)
        | Ordering.gt ↦ (rest.0, f ∷ rest.1)
      ]

  -- `split_off` leaves the members before the key in the set.
  unfoldable pub split_off :
      RollbackEvent Event → List (RollbackEvent Event) → List (RollbackEvent Event)
  split_off key [] = []
  split_off key (f ∷ fs) =
      let rest = split_off key fs in elim (cmp_rollback f key) [ Ordering.lt ↦ f ∷ rest | _ ↦ rest ]

  unfoldable pub handle_rollback : ℕ → List (RollbackEvent Event) → List (RollbackEvent Event)
  unfolding split_off
  handle_rollback time events = split_off (search time) events

  -- The loop over the events: the `return` stands inside the branch of a cutoff.
  unfoldable pub first_event_time : Option ℕ → List (RollbackEvent Event) → Option ℕ
  first_event_time cutoff [] = none
  first_event_time none (f ∷ fs) = first_event_time none fs
  first_event_time (some t) (event time _ ∷ fs) = if leb t time then none else some time
  first_event_time (some t) (rollback _ ∷ fs) = first_event_time (some t) fs
  first_event_time (some t) (finalize _ ∷ fs) = first_event_time (some t) fs
  first_event_time (some t) (search _ ∷ fs) = first_event_time (some t) fs

  -- Whether the first member is held back: an event after the time of the poll.
  unfoldable pub is_later : ℕ → RollbackEvent Event → Bool
  is_later poll_time (event time _) = ltb poll_time time
  is_later poll_time (rollback _) = false
  is_later poll_time (finalize _) = false
  is_later poll_time (search _) = false

  unfoldable pub poll_previously_emitted :
      ℕ → List (RollbackEvent Event) → Option (RollbackEvent Event) × List (RollbackEvent Event)
  unfolding is_later
  poll_previously_emitted poll_time [] = (none, [])
  poll_previously_emitted poll_time (f ∷ fs) =
      if is_later poll_time f then (none, f ∷ fs) else (some f, fs)
