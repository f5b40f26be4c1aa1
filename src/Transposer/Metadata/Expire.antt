-- ===== src/Transposer/Metadata/Expire.antt =====
-- transposer/src/step/transposer_metadata.rs: expiring and popping events, from a caller's view.
use cozal.Prelude.{
  ◌≡◌, ◌≢◌, sym, ◌∙◌, none, some, Option-cases, inl, inr, arith, if◌then◌else◌, Ordering,
}
use cozal.Transposer.Time.{
  ScheduledTime, ExpireHandle, eq_of_cmp_scheduled, same, scheduled_ord, cmp_scheduled,
}
use cozal.Transposer.Backend.{Backend}
use cozal.Transposer.Metadata
use cozal.Transposer.Metadata.{TransposerMetaData, ExpireResult, expired, invalid_or_used_handle}
use cozal.Transposer.Metadata.Sync.{
  Sync, forget_handle-Sync, expire_event_dead, expire_event_live, scheduled_of_live,
  schedule_event_expireable-Sync, pop_first_event-Sync,
}

module _ {Scheduled : Type 0} (B : Backend Scheduled) (m : TransposerMetaData B) where
  pub popped_first : (Metadata.pop_first_event B m).0 ≡ B.schedules.get_first m.schedule
  unfolding Metadata.pop_first_event
  popped_first = elim (Option-cases (B.schedules.get_first m.schedule)) [
    | inl e ↦ rw (B.schedules.popped, e)
    | inr ((k, v), e) ↦ rw (B.schedules.popped, e)
  ]

  module _ (k : ScheduledTime) (v : Scheduled)
      (first : B.schedules.get_first m.schedule ≡ some (k, v)) where
    pub schedule-pop_first_event :
        (Metadata.pop_first_event B m).1.schedule ≡ (B.schedules.remove k m.schedule).1
    unfolding Metadata.pop_first_event
    schedule-pop_first_event =
        rw (B.schedules.popped, first) (B.schedules.pop_first_some m.schedule k v first)

    pub forwards-pop_first_event :
        (Metadata.pop_first_event B m).1.expire_handles_forward
        ≡ Metadata.release_handle B
            (B.backwards.get k m.expire_handles_backward)
            m.expire_handles_forward
    unfolding Metadata.pop_first_event
    forwards-pop_first_event = rw (B.schedules.popped, first, B.backwards.removed)

module _ {Scheduled : Type 0} (B : Backend Scheduled) (m : TransposerMetaData B)
    (s : Sync B m) where
  -- On metadata in sync `expire_event` never panics, the metadata stay in sync, and the handle is
  -- used up: a second call with it is refused.
  pub expire_event_total :
      (h : ExpireHandle)
      → (r : ExpireResult Scheduled) × (m' : TransposerMetaData B) × (Metadata.expire_event B h m
          ≡ some (r, m'))
        × Sync B m'
        × (Metadata.expire_event B h m' ≡ some (invalid_or_used_handle, m'))
  expire_event_total h = elim (Option-cases (B.forwards.get h m.expire_handles_forward)) [
    | inl dead ↦ let e = expire_event_dead B m s h dead in (invalid_or_used_handle, m, e, s, e)
    | inr (t, live) ↦
        let (v, found) = scheduled_of_live B m s h t live in
        let e = expire_event_live B m s h t v live found in
        let s' = forget_handle-Sync B m s h t live in
        (
          expired t.time v,
          _,
          e,
          s',
          expire_event_dead B _ s' h
              (ground (arith, B.forwards.get-remove h m.expire_handles_forward h)),
        )
  ]

  -- On metadata in sync, an event scheduled at a free time and expired by its handle gives its time and
  -- payload back, and every entry of the schedule is as before.
  pub expire-schedule_event_expireable :
      (t : ScheduledTime) (v : Scheduled)
      → B.schedules.get t m.schedule ≡ none
      → let (h, m₁) = Metadata.schedule_event_expireable B t v m in
        (m₂ : TransposerMetaData B) × (Metadata.expire_event B h m₁ ≡ some (expired t.time v, m₂))
        × ((u : ScheduledTime) → B.schedules.get u m₂.schedule ≡ B.schedules.get u m.schedule)
  unfolding Metadata.schedule_event_expireable
  expire-schedule_event_expireable t v free =
      let n = m.expire_handle_factory.next_handle in
      let m₁ = (Metadata.schedule_event_expireable B t v m).1 in
      let live : B.forwards.get n m₁.expire_handles_forward ≡ some t =
        ground (arith, B.forwards.get-insert n t m.expire_handles_forward n) in
      let found : B.schedules.get t m₁.schedule ≡ some v =
        ground (arith, B.schedules.get-insert t v m.schedule t) in
      (
        Metadata.forget_handle B n t (B.schedules.remove t m₁.schedule).1 m₁,
        expire_event_live B m₁ (schedule_event_expireable-Sync B m s t v free) n t v live found,
        λ u. ground (
          arith,
          B.schedules.get-remove t m₁.schedule u,
          B.schedules.get-insert t v m.schedule u,
          eq_of_cmp_scheduled t u,
        ),
      )

  -- When `pop_first_event` on metadata in sync gives an event, no scheduled event precedes it, every
  -- other event stays, and the handle of the event, if it had one, is refused from then on.
  pub pop_first_event-some :
      (k : ScheduledTime) (v : Scheduled)
      → (Metadata.pop_first_event B m).0 ≡ some (k, v)
      → let m' = (Metadata.pop_first_event B m).1 in
        (B.schedules.get k m.schedule ≡ some v)
        × ((j : ScheduledTime) (w : Scheduled)
            → B.schedules.get j m.schedule ≡ some w
            → cmp_scheduled j k ≢ Ordering.lt)
        × ((j : ScheduledTime)
            → B.schedules.get j m'.schedule
              ≡ (if same k j then none else B.schedules.get j m.schedule))
        × ((h : ExpireHandle)
            → B.forwards.get h m.expire_handles_forward ≡ some k
            → Metadata.expire_event B h m' ≡ some (invalid_or_used_handle, m'))
  unfolding Metadata.pop_first_event
  pop_first_event-some k v h =
      let first : B.schedules.get_first m.schedule ≡ some (k, v) = sym (popped_first B m) ∙ h in
      (
        B.schedules.get-get_first m.schedule k v first,
        λ j w e. B.schedules.get_first_least m.schedule k v j w first e,
        λ j. rw (schedule-pop_first_event B m k v first) (B.schedules.get-remove k m.schedule j),
        λ g live. expire_event_dead B _ (pop_first_event-Sync B m s) g (
            rw (forwards-pop_first_event B m k v first, s.back g k live)
              (ground (arith, B.forwards.get-remove g m.expire_handles_forward g))),
      )
