-- ===== src/Transposer/Context/Swallow.antt =====
-- transposer/src/step/sub_step_update_context.rs: `outputs_to_swallow` suppresses the first events of
-- a run, and changes nothing else.
use cozal.Prelude.{
  ℕ, zero, suc, ◌-◌, ◌≡◌, Bool-cases, Option, none, some, Option-cases, inl, inr, List, length,
  drop, ltb, arith,
}
use cozal.Transposer.Time.{ExpireHandle}
use cozal.Transposer.Backend.{Backend}
use cozal.Transposer.Metadata.{ExpireResult}
use cozal.Transposer.Program.{
  Program, finish, current_time, last_updated_time, schedule_event, schedule_event_expireable,
  expire_event, emit_event, get_rng, pending,
}
use cozal.Transposer.Context.{
  SubStepUpdateContext, schedule, schedule_expireable, expire, draw, run_to_end,
}

module _ {Scheduled : Type 0} (B : Backend Scheduled) where
  -- The same context, with `k` outputs to swallow.
  abbrev pub swallowing : ℕ → SubStepUpdateContext B → SubStepUpdateContext B
  swallowing k self = record self { outputs_to_swallow = k }

  schedule-swallowing :
      (t : ℕ) (v : Scheduled) (k : ℕ) (c : SubStepUpdateContext B)
      → schedule B t v (swallowing k c) ≡ ((schedule B t v c).0, swallowing k (schedule B t v c).1)
  unfolding schedule
  schedule-swallowing t v k c = elim (Bool-cases (ltb t c.time.time)) [
    | inl e ↦ rw e
    | inr e ↦ rw e
  ]

  schedule_expireable-swallowing :
      (t : ℕ) (v : Scheduled) (k : ℕ) (c : SubStepUpdateContext B)
      → schedule_expireable B t v (swallowing k c)
        ≡ ((schedule_expireable B t v c).0, swallowing k (schedule_expireable B t v c).1)
  unfolding schedule_expireable
  schedule_expireable-swallowing t v k c = elim (Bool-cases (ltb t c.time.time)) [
    | inl e ↦ rw e
    | inr e ↦ rw e
  ]

  expire-none-swallowing :
      (h : ExpireHandle) (k : ℕ) (c : SubStepUpdateContext B)
      → expire B h c ≡ none
      → expire B h (swallowing k c) ≡ none
  unfolding expire
  expire-none-swallowing h k c e = ground arith

  expire-some-swallowing :
      (h : ExpireHandle) (k : ℕ) (c c' : SubStepUpdateContext B) (r : ExpireResult Scheduled)
      → expire B h c ≡ some (r, c')
      → expire B h (swallowing k c) ≡ some (r, swallowing k c')
  unfolding expire
  expire-some-swallowing h k c c' r e = ground arith

  module _ {OutputEvent R : Type 0} where
    -- What a run with `k` events to swallow ends in, from what one ends in that swallows none.
    abbrev pub swallowed :
        ℕ
        → Option (List OutputEvent × R × SubStepUpdateContext B)
        → Option (List OutputEvent × R × SubStepUpdateContext B)
    swallowed k none = none
    swallowed k (some (es, r, c)) = some (drop k es, r, swallowing (k - length es) c)

    -- A handler that runs with `k` outputs to swallow sends the same events but the first `k`, returns
    -- the same, and leaves the same context but for the outputs that it has swallowed.
    pub run_to_end-swallowing :
        (p : Program Scheduled OutputEvent R) (k : ℕ) (c : SubStepUpdateContext B)
        → run_to_end B p (swallowing k c) ≡ swallowed k (run_to_end B p (swallowing 0 c))
    unfolding run_to_end draw
    run_to_end-swallowing (finish r) zero c = ground arith
    run_to_end-swallowing (finish r) (suc k) c = ground arith
    run_to_end-swallowing (current_time f) k c = run_to_end-swallowing (f c.time.time) k c
    run_to_end-swallowing (last_updated_time f) k c =
        run_to_end-swallowing (f c.metadata.last_updated.time) k c
    run_to_end-swallowing (schedule_event t v f) k c =
        let done = schedule B t v c in
        rw (schedule-swallowing t v k c, schedule-swallowing t v 0 c)
          (run_to_end-swallowing (f done.0) k done.1)
    run_to_end-swallowing (schedule_event_expireable t v f) k c =
        let done = schedule_expireable B t v c in
        rw (schedule_expireable-swallowing t v k c, schedule_expireable-swallowing t v 0 c)
          (run_to_end-swallowing (f done.0) k done.1)
    run_to_end-swallowing (expire_event h f) k c = elim (Option-cases (expire B h c)) [
      | inl e ↦ rw (run_to_end, expire-none-swallowing h k c e, expire-none-swallowing h 0 c e)
      | inr ((r, c'), e) ↦
          rw (run_to_end, expire-some-swallowing h k c c' r e, expire-some-swallowing h 0 c c' r e)
            (run_to_end-swallowing (f r) k c')
    ]
    run_to_end-swallowing (emit_event e p) zero c = ground (arith, run_to_end-swallowing p zero c)
    run_to_end-swallowing (emit_event e p) (suc k) c = ground (arith, run_to_end-swallowing p k c)
    run_to_end-swallowing (get_rng f) k c =
        let drawn = draw B c in run_to_end-swallowing (f drawn.0) k drawn.1
    run_to_end-swallowing (pending p) k c = run_to_end-swallowing p k c
