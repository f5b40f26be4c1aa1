-- ===== src/Transposer/Metadata/Sync.antt =====
-- transposer/src/step/transposer_metadata.rs: the two handle maps and the schedule are kept in sync.
use cozal.Prelude.{ℕ, ◌≡◌, ◌≢◌, ◌<◌, none, some, Option-cases, inl, inr, arith}
use cozal.Transposer.Time.{ScheduledTime, ExpireHandle, eq_of_cmp_scheduled, eq_of_nat_cmp}
use cozal.Transposer.Backend.{Backend}
use cozal.Transposer.Metadata
use cozal.Transposer.Metadata.{TransposerMetaData, ExpireResult, expired, invalid_or_used_handle}

module _ {Scheduled : Type 0} (B : Backend Scheduled) where
  -- Every live handle leads to a scheduled event that leads back to it, and the factory is ahead.
  pub record Sync (m : TransposerMetaData B) : Type 0 where
    pub scheduled :
        (h : ExpireHandle) (t : ScheduledTime)
        → B.forwards.get h m.expire_handles_forward ≡ some t
        → B.schedules.get t m.schedule ≢ none
    pub back :
        (h : ExpireHandle) (t : ScheduledTime)
        → B.forwards.get h m.expire_handles_forward ≡ some t
        → B.backwards.get t m.expire_handles_backward ≡ some h
    pub forth :
        (t : ScheduledTime) (h : ExpireHandle)
        → B.backwards.get t m.expire_handles_backward ≡ some h
        → B.forwards.get h m.expire_handles_forward ≡ some t
    pub below :
        (h : ExpireHandle) (t : ScheduledTime)
        → B.forwards.get h m.expire_handles_forward ≡ some t
        → h < m.expire_handle_factory.next_handle

module _ {Scheduled : Type 0} (B : Backend Scheduled) where
  pub new-Sync : (seed : B.Seed) (start : ℕ) → Sync B (Metadata.new B seed start)
  unfolding Metadata.new
  new-Sync seed start = record {
    scheduled = λ h t e. cc (B.forwards.get-new h);
    back = λ h t e. cc (B.forwards.get-new h);
    forth = λ t h e. cc (B.backwards.get-new t);
    below = λ h t e. absurd (cc (B.forwards.get-new h));
  }

  module _ (m : TransposerMetaData B) (s : Sync B m) where
    -- Scheduling an event that cannot be expired, even at a taken time.
    pub schedule_event-Sync :
        (t : ScheduledTime) (v : Scheduled) → Sync B (Metadata.schedule_event B t v m)
    unfolding Metadata.schedule_event
    schedule_event-Sync t v = record {
      scheduled =
          λ h u e. ground (arith, s.scheduled h u e, B.schedules.get-insert t v m.schedule u);
      back = s.back;
      forth = s.forth;
      below = s.below;
    }

    -- An event that can be expired, scheduled at a free time, keeps the maps in sync.
    pub schedule_event_expireable-Sync :
        (t : ScheduledTime) (v : Scheduled)
        → B.schedules.get t m.schedule ≡ none
        → Sync B (Metadata.schedule_event_expireable B t v m).1
    unfolding Metadata.schedule_event_expireable
    schedule_event_expireable-Sync t v free =
        let n = m.expire_handle_factory.next_handle in
        record {
          scheduled = λ h u e. ground (
            arith,
            B.forwards.get-insert n t m.expire_handles_forward h,
            B.schedules.get-insert t v m.schedule u,
            s.scheduled h u,
          );
          back = λ h u e. ground (
            arith,
            B.forwards.get-insert n t m.expire_handles_forward h,
            B.backwards.get-insert t n m.expire_handles_backward u,
            s.scheduled h u,
            s.back h u,
            eq_of_nat_cmp n h,
            eq_of_cmp_scheduled t u,
          );
          forth = λ u h e. ground (
            arith,
            B.forwards.get-insert n t m.expire_handles_forward h,
            B.backwards.get-insert t n m.expire_handles_backward u,
            s.forth u h,
            s.below h u,
            eq_of_nat_cmp n h,
            eq_of_cmp_scheduled t u,
          );
          below = λ h u e. ground (
            arith,
            B.forwards.get-insert n t m.expire_handles_forward h,
            s.below h u,
            eq_of_nat_cmp n h,
          );
        }

    -- The maps after a live handle's event has left the schedule.
    pub forget_handle-Sync :
        (h : ExpireHandle) (t : ScheduledTime)
        → B.forwards.get h m.expire_handles_forward ≡ some t
        → Sync B (Metadata.forget_handle B h t (B.schedules.remove t m.schedule).1 m)
    forget_handle-Sync h t live = record {
      scheduled = λ g u e. ground (
        arith,
        B.forwards.get-remove h m.expire_handles_forward g,
        B.schedules.get-remove t m.schedule u,
        s.scheduled g u,
        s.back g u,
        s.back h t live,
        eq_of_nat_cmp h g,
        eq_of_cmp_scheduled t u,
      );
      back = λ g u e. ground (
        arith,
        B.forwards.get-remove h m.expire_handles_forward g,
        B.backwards.get-remove t m.expire_handles_backward u,
        s.back g u,
        s.back h t live,
        eq_of_nat_cmp h g,
        eq_of_cmp_scheduled t u,
      );
      forth = λ u g e. ground (
        arith,
        B.forwards.get-remove h m.expire_handles_forward g,
        B.backwards.get-remove t m.expire_handles_backward u,
        s.forth u g,
        s.back h t live,
        live,
        eq_of_nat_cmp h g,
        eq_of_cmp_scheduled t u,
      );
      below =
          λ g u e. ground (arith, B.forwards.get-remove h m.expire_handles_forward g, s.below g u);
    }

    -- The maps after an event that no handle names has left the schedule.
    forget_event-Sync :
        (t : ScheduledTime)
        → B.backwards.get t m.expire_handles_backward ≡ none
        → Sync B (record m {
          schedule = (B.schedules.remove t m.schedule).1;
          expire_handles_backward = (B.backwards.remove t m.expire_handles_backward).1;
        })
    forget_event-Sync t free = record {
      scheduled = λ g u e. ground (
        arith,
        B.schedules.get-remove t m.schedule u,
        s.scheduled g u,
        s.back g u,
        eq_of_cmp_scheduled t u,
      );
      back = λ g u e. ground (
        arith,
        B.backwards.get-remove t m.expire_handles_backward u,
        s.back g u,
        eq_of_cmp_scheduled t u,
      );
      forth = λ u g e.
          ground (arith, B.backwards.get-remove t m.expire_handles_backward u, s.forth u g);
      below = s.below;
    }

    -- Popping the first event keeps the maps in sync, also when there is none.
    pub pop_first_event-Sync : Sync B (Metadata.pop_first_event B m).1
    unfolding Metadata.pop_first_event
    pop_first_event-Sync = elim (Option-cases (B.schedules.get_first m.schedule)) [
      | inl e ↦ rw (B.schedules.popped, e, B.schedules.pop_first_none m.schedule e) s
      | inr ((k, v), e) ↦
          rw
            (
              B.schedules.popped,
              e,
              B.schedules.pop_first_some m.schedule k v e,
              B.backwards.removed,
            )
            (elim (Option-cases (B.backwards.get k m.expire_handles_backward)) [
              | inl free ↦ rw free (forget_event-Sync k free)
              | inr (h, live) ↦ rw live (forget_handle-Sync h k (s.forth k h live))
            ])
    ]

    -- A handle that is not live is refused, and nothing changes.
    pub expire_event_dead :
        (h : ExpireHandle)
        → B.forwards.get h m.expire_handles_forward ≡ none
        → Metadata.expire_event B h m ≡ some (invalid_or_used_handle, m)
    unfolding Metadata.expire_event
    expire_event_dead h dead = rw (dead, Metadata.expire_event)

    -- A live handle gives the event's time and payload, and the event leaves the schedule.
    pub expire_event_live :
        (h : ExpireHandle) (t : ScheduledTime) (v : Scheduled)
        → B.forwards.get h m.expire_handles_forward ≡ some t
        → B.schedules.get t m.schedule ≡ some v
        → Metadata.expire_event B h m
          ≡ some
              (expired t.time v, Metadata.forget_handle B h t (B.schedules.remove t m.schedule).1 m)
    unfolding Metadata.expire_event
    expire_event_live h t v live found =
        rw (live, Metadata.expire_event, B.schedules.removed, found)

    pub scheduled_of_live :
        (h : ExpireHandle) (t : ScheduledTime)
        → B.forwards.get h m.expire_handles_forward ≡ some t
        → (v : Scheduled) × (B.schedules.get t m.schedule ≡ some v)
    scheduled_of_live h t live = elim (Option-cases (B.schedules.get t m.schedule)) [
      | inl lost ↦ absurd (s.scheduled h t live lost)
      | inr found ↦ found
    ]
