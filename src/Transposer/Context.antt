-- ===== src/Transposer/Context.antt =====
-- transposer/src/step/sub_step_update_context.rs: the context of a handler, and a handler's run up to
-- where its future suspends.
pub mod Swallow
use cozal.Prelude.{
  ℕ, zero, suc, ◌+◌, Bool, true, false, Option, none, some, List, [], ◌∷◌, ltb, if◌then◌else◌,
}
use cozal.Transposer.Time.{SubStepTime, ExpireHandle, spawn_scheduled}
use cozal.Transposer.Backend.{Backend}
use cozal.Transposer.Metadata
use cozal.Transposer.Metadata.{TransposerMetaData, ExpireResult}
use cozal.Transposer.Program.{
  Program, finish, current_time, last_updated_time, schedule_event, schedule_event_expireable,
  expire_event, emit_event, get_rng, pending,
}

-- `output_sender` is no field: what is sent through it is what a run returns as emitted.
pub record SubStepUpdateContext {Scheduled : Type 0} (B : Backend Scheduled) : Type 0 where
  pub time : SubStepTime
  pub metadata : TransposerMetaData B
  pub outputs_to_swallow : ℕ
  pub current_emission_index : ℕ

-- Where a poll of a handler's future ends: it returns, or it waits for an emitted event to be taken,
-- or for another future, or it panics. A suspended run has the rest of its program.
pub data Run {Scheduled : Type 0} (B : Backend Scheduled) (OutputEvent R : Type 0) : Type 0 where
  finished : R → SubStepUpdateContext B → Run B OutputEvent R
  emitted :
      OutputEvent → Program Scheduled OutputEvent R → SubStepUpdateContext B → Run B OutputEvent R
  waiting : Program Scheduled OutputEvent R → SubStepUpdateContext B → Run B OutputEvent R
  panicked : Run B OutputEvent R

module _ {Scheduled : Type 0} (B : Backend Scheduled) where
  -- `SubStepUpdateContext::new`
  abbrev pub new : SubStepTime → TransposerMetaData B → ℕ → SubStepUpdateContext B
  new time metadata outputs_to_swallow = record {
    time = time;
    metadata = metadata;
    outputs_to_swallow = outputs_to_swallow;
    current_emission_index = 0;
  }

  -- `schedule_event`: `false` for a time before the current one.
  unfoldable pub schedule : ℕ → Scheduled → SubStepUpdateContext B → Bool × SubStepUpdateContext B
  schedule time payload self = if ltb time self.time.time then (false, self) else (
    true,
    record self {
      metadata =
          Metadata.schedule_event B (spawn_scheduled self.time time self.current_emission_index)
            payload self.metadata;
      current_emission_index = self.current_emission_index + 1;
    },
  )

  -- `schedule_event_expireable`
  unfoldable pub schedule_expireable :
      ℕ → Scheduled → SubStepUpdateContext B → Option ExpireHandle × SubStepUpdateContext B
  schedule_expireable time payload self =
      let scheduled =
        Metadata.schedule_event_expireable B
          (spawn_scheduled self.time time self.current_emission_index) payload self.metadata in
      if ltb time self.time.time then (none, self) else (
        some scheduled.0,
        record self {
          metadata = scheduled.1;
          current_emission_index = self.current_emission_index + 1;
        },
      )

  -- `expire_event`
  unfoldable pub expire :
      ExpireHandle
      → SubStepUpdateContext B
      → Option (ExpireResult Scheduled × SubStepUpdateContext B)
  expire handle self = elim (Metadata.expire_event B handle self.metadata) [
    | none ↦ none
    | some (r, metadata) ↦ some (r, record self { metadata = metadata })
  ]

  -- `get_rng`, with one draw.
  unfoldable pub draw : SubStepUpdateContext B → ℕ × SubStepUpdateContext B
  draw self =
      let (n, rng) = B.next_u64 self.metadata.rng in
      (n, record self { metadata = record (self.metadata) { rng = rng } })

  module _ {OutputEvent R : Type 0} where
    -- One poll of a handler's future. An event that is to be swallowed does not suspend it.
    unfoldable pub run :
        Program Scheduled OutputEvent R → SubStepUpdateContext B → Run B OutputEvent R
    run (finish r) self = finished r self
    run (current_time k) self = run (k self.time.time) self
    run (last_updated_time k) self = run (k self.metadata.last_updated.time) self
    run (schedule_event time payload k) self =
        let done = schedule time payload self in run (k done.0) done.1
    run (schedule_event_expireable time payload k) self =
        let done = schedule_expireable time payload self in run (k done.0) done.1
    run (expire_event handle k) self = elim (expire handle self) [
      | none ↦ panicked
      | some (r, self') ↦ run (k r) self'
    ]
    run (emit_event payload p) self = elim (self.outputs_to_swallow) [
      | zero ↦ emitted payload p self
      | suc n ↦ run p (record self { outputs_to_swallow = n })
    ]
    run (get_rng k) self = let drawn = draw self in run (k drawn.0) drawn.1
    run (pending p) self = waiting p self

    -- A handler's run to its end, whatever suspends it: the events that it emits, and what it returns.
    unfoldable pub run_to_end :
        Program Scheduled OutputEvent R
        → SubStepUpdateContext B
        → Option (List OutputEvent × R × SubStepUpdateContext B)
    run_to_end (finish r) self = some ([], r, self)
    run_to_end (current_time k) self = run_to_end (k self.time.time) self
    run_to_end (last_updated_time k) self = run_to_end (k self.metadata.last_updated.time) self
    run_to_end (schedule_event time payload k) self =
        let done = schedule time payload self in run_to_end (k done.0) done.1
    run_to_end (schedule_event_expireable time payload k) self =
        let done = schedule_expireable time payload self in run_to_end (k done.0) done.1
    run_to_end (expire_event handle k) self = elim (expire handle self) [
      | none ↦ none
      | some (r, self') ↦ run_to_end (k r) self'
    ]
    run_to_end (emit_event payload p) self = elim (self.outputs_to_swallow) [
      | zero ↦ elim (run_to_end p self) [
        | none ↦ none
        | some (es, r, self') ↦ some (payload ∷ es, r, self')
      ]
      | suc n ↦ run_to_end p (record self { outputs_to_swallow = n })
    ]
    run_to_end (get_rng k) self = let drawn = draw self in run_to_end (k drawn.0) drawn.1
    run_to_end (pending p) self = run_to_end p self
