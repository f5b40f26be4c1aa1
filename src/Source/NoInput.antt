-- ===== src/Source/NoInput.antt =====
-- source/src/sources/transposer/no_input_transposer.rs and source/src/source_poll.rs: the source of a
-- transposer without inputs.
pub mod Reach
pub mod Reference
pub mod Asked
pub mod Counted
pub mod Polls
use cozal.Prelude.{
  unwrap_ok, unwrap, ℕ, zero, suc, ◌+◌, ◌-◌, Bool, true, false, ◌⊎◌, inl, inr, Option, none, some,
  List, [], ◌∷◌, length, set, ltb, ◌==◌, if◌then◌else◌, Outcome, ok, err, panic, out_of_fuel, ◌>>=◌,
  last?,
}
use cozal.Transposer.Backend.{Backend}
use cozal.Transposer.Program.{Transposer}
use cozal.Transposer.Wrapped.{WrappedTransposer}
use cozal.Transposer.Step
use cozal.Transposer.Step.{Step, StepPoll, PollErr}
use cozal.Source.Steps
use cozal.Source.Steps.{Steps, unwrap_result, sub}
use cozal.Source.Steps.Query
use cozal.Source.Steps.Query.{BeforeStatus, BeforeStatusEvents, saturated, saturating_step}
use cozal.Source.Channels
use cozal.Source.Channels.{
  ChannelStatuses, CallerChannelStatus, free, interpolation, original, repeat,
}

-- The interrupts of `SourcePoll`.
pub data Interrupt (Event : Type 0) : Type 0 where
  event finalized_event : Event → Interrupt Event
  rollback finalize : Interrupt Event

-- `SourcePoll`.
pub data SourcePoll (Event State : Type 0) : Type 0 where
  ready : State → Option ℕ → SourcePoll Event State
  interrupt : ℕ → Interrupt Event → SourcePoll Event State
  pending : SourcePoll Event State

-- The user's `interpolate`: the future that it gives for a time and a transposer, and a poll of it.
pub record Interpolate (T : Transposer) (B : Backend T.Scheduled) : Type 1 where
  pub OutputState : Type 0
  pub Interpolation : Type 0
  pub interpolate : ℕ → WrappedTransposer T B → Interpolation
  pub poll : Interpolation → Option OutputState × Interpolation

-- `StackWaker::register`, on the channels that are registered: whether the caller has to poll.
unfoldable pub register : List ℕ → ℕ → Bool × List ℕ
register [] key = (true, key ∷ [])
register (k ∷ keys) key = (false, (if k == key then k ∷ keys else key ∷ k ∷ keys))

module _ (T : Transposer) (B : Backend T.Scheduled) (P : Interpolate T B) where
  pub record NoInputTransposerSource : Type 0 where
    pub steps : Steps T B
    pub channel_statuses : ChannelStatuses P.Interpolation

  abbrev pub Poll : Type 0
  Poll = SourcePoll T.OutputEvent P.OutputState

  -- What a round of the loop of `poll` ends with.
  pub data Round : Type 0 where
    returned : Poll → NoInputTransposerSource → Round
    continued : NoInputTransposerSource → Round

module _ (T : Transposer) (B : Backend T.Scheduled) (P : Interpolate T B) where
  unfoldable pub new : ℕ → T.Self → ℕ → B.Seed → NoInputTransposerSource T B P
  new uuid transposer start_time rng_seed = record {
    steps = Steps.new T B uuid transposer start_time rng_seed;
    channel_statuses = Channels.new;
  }

  -- A free channel starts to wait for what the steps give for the time.
  abbrev pub start :
      ℕ
      → ℕ
      → BeforeStatus T B
      → NoInputTransposerSource T B P
      → Outcome (NoInputTransposerSource T B P)
  start time channel (saturated step _) self = do
    (t, w) ← unwrap_result (Step.interpolate T B time step)
    ok (record self {
      channel_statuses =
          Channels.start_interpolation channel (P.interpolate t w) time self.channel_statuses;
    })
  start time channel (saturating_step step step_index) self = ok (record self {
    channel_statuses =
        if step.can_produce_events
        then Channels.start_original_step channel time self.channel_statuses
        else Channels.start_repeat_step channel step_index time self.channel_statuses;
  })

  unfoldable pub round_free : ℕ → ℕ → ℕ → ℕ → NoInputTransposerSource T B P → Outcome (Round T B P)
  round_free fuel uuid time channel self = do
    let pinned_times = Channels.get_pinned_times self.channel_statuses.blocked_caller_channels
    (status, steps) ← unwrap_ok (Query.get_before_or_at T B fuel uuid time pinned_times self.steps)
    self' ← start time channel status (record self { steps = steps })
    ok (continued self')

  abbrev pub after_interpolation :
      ℕ
      → Option P.OutputState × P.Interpolation
      → NoInputTransposerSource T B P
      → Outcome (Round T B P)
  after_interpolation channel (none, i) self =
      let statuses = self.channel_statuses in
      ok (
        returned pending (record self {
          channel_statuses = record statuses {
            blocked_caller_channels =
                Channels.update_interpolation channel i statuses.blocked_caller_channels;
          };
        }))
  after_interpolation channel (some state, _) self = do
    let vacated = record self { channel_statuses = Channels.vacate channel self.channel_statuses }
    next_event_at ← Steps.get_scheduled_time T B self.steps
    ok (returned (ready state next_event_at) vacated)

  -- The step at an index of the deque is replaced by what its poll leaves.
  abbrev pub replace : ℕ → Step T B → NoInputTransposerSource T B P → NoInputTransposerSource T B P
  replace i step self =
      let s = self.steps in record self { steps = record s { steps = set s.steps i step } }

  abbrev pub after_original :
      ℕ → ℕ → StepPoll T.OutputEvent × Step T B → NoInputTransposerSource T B P → Round T B P
  after_original channel i (StepPoll.emitted e, step) self =
      returned (interrupt (Step.get_time T B step) (finalized_event e)) (replace i step self)
  after_original channel i (StepPoll.pending, step) self = returned pending (replace i step self)
  after_original channel i (StepPoll.ready, step) self =
      let polled = replace i step self in
      continued (record polled { channel_statuses = Channels.vacate channel self.channel_statuses })

  -- `fuel` bounds the handlers of a poll of a step.
  unfoldable pub round_original : ℕ → ℕ → NoInputTransposerSource T B P → Outcome (Round T B P)
  round_original fuel channel self = do
    step ← Steps.get_last T B self.steps
    result ← Step.poll T B fuel step
    polled ← unwrap_result result
    ok (after_original channel (length self.steps.steps - 1) polled self)

  -- The poll of a step that is saturated again, with the wakers as they are registered now. A future
  -- that is pending keeps the waker; when it is done the waker is dropped, and so are the channels that
  -- were registered with it.
  abbrev pub after_repeat :
      ℕ
      → ℕ
      → ℕ
      → ℕ × List ℕ
      → StepPoll T.OutputEvent × Step T B
      → NoInputTransposerSource T B P
      → Outcome (Round T B P)
  after_repeat channel step_id i wakers (StepPoll.emitted _, step) self = panic
  after_repeat channel step_id i wakers (StepPoll.pending, step) self =
      let polled = replace i step self in
      ok (
        returned pending (record polled {
          channel_statuses = Channels.set_wakers step_id wakers self.channel_statuses;
        }))
  after_repeat channel step_id i wakers (StepPoll.ready, step) self =
      let polled = replace i step self in
      ok (
        continued (record polled {
          channel_statuses =
              Channels.abandon_repeat channel step_id (wakers.0, []) self.channel_statuses;
        }))

  unfoldable pub round_repeat :
      ℕ → ℕ → ℕ → ℕ × List ℕ → NoInputTransposerSource T B P → Outcome (Round T B P)
  unfolding register
  round_repeat fuel channel step_id (n, keys) self = do
    step ← unwrap (Steps.get_by_sequence_number T B step_id self.steps)
    let i = step_id - self.steps.num_deleted_steps
    let (emit_waker, keys') = register keys channel
    elim emit_waker [
      | false ↦ after_repeat channel step_id i (n, keys') (StepPoll.pending, step) self
      | true ↦ do
        result ← Step.poll T B fuel step
        polled ← unwrap_result result
        after_repeat channel step_id i (n, keys') polled self
    ]

  -- A channel that waits for another time is abandoned first.
  abbrev pub abandoned :
      ℕ → CallerChannelStatus P.Interpolation → NoInputTransposerSource T B P → Round T B P
  abandoned channel status self =
      continued
        (record self { channel_statuses = Channels.abandon channel status self.channel_statuses })

  abbrev pub round :
      ℕ
      → ℕ
      → ℕ
      → ℕ
      → CallerChannelStatus P.Interpolation
      → NoInputTransposerSource T B P
      → Outcome (Round T B P)
  round fuel uuid time channel free self = round_free fuel uuid time channel self
  round fuel uuid time channel (interpolation t i) self =
      if t == time
      then after_interpolation channel (P.poll i) self
      else ok (abandoned channel (interpolation t i) self)
  round fuel uuid time channel (original t) self =
      if t == time
      then round_original fuel channel self
      else ok (abandoned channel (original t) self)
  round fuel uuid time channel (repeat t step_id wakers) self =
      if t == time
      then round_repeat fuel channel step_id wakers self
      else ok (abandoned channel (repeat t step_id wakers) self)

  -- `rounds` bounds the rounds of the loop, `uuids` are the identifiers of the steps that it makes.
  -- A status borrows the entries of the maps, so a round reads it off them.
  unfoldable pub poll :
      ℕ
      → ℕ
      → (ℕ → ℕ)
      → ℕ
      → ℕ
      → NoInputTransposerSource T B P
      → Outcome (Poll T B P × NoInputTransposerSource T B P)
  poll zero fuel uuids time channel self = out_of_fuel
  poll (suc rounds) fuel uuids time channel self = do
    status ← Channels.get_channel_status channel self.channel_statuses
    next ← round fuel (uuids rounds) time channel status self
    elim next [
      | returned p self' ↦ ok (p, self')
      | continued self' ↦ poll rounds fuel uuids time channel self'
    ]

  unfoldable pub poll_events :
      ℕ
      → ℕ
      → (ℕ → ℕ)
      → ℕ
      → NoInputTransposerSource T B P
      → Outcome (SourcePoll T.OutputEvent (Unit {0}) × NoInputTransposerSource T B P)
  poll_events zero fuel uuids time self = out_of_fuel
  poll_events (suc rounds) fuel uuids time self = do
    let pinned_times = Channels.get_pinned_times self.channel_statuses.blocked_caller_channels
    (status, steps) ←
        unwrap_ok (Query.get_before_or_at_events T B (uuids rounds) time pinned_times self.steps)
    let found = record self { steps = steps }
    elim status [
      | BeforeStatusEvents.ready next_time ↦ ok (ready tt next_time, found)
      | BeforeStatusEvents.saturating _ ↦ do
        step ← Steps.get_last T B steps
        result ← Step.poll T B fuel step
        (polled, step') ← unwrap_result result
        let left = replace (length steps.steps - 1) step' found
        elim polled [
          | StepPoll.emitted e ↦ ok (interrupt (Step.get_time T B step') (finalized_event e), left)
          | StepPoll.pending ↦ ok (pending, left)
          | StepPoll.ready ↦ poll_events rounds fuel uuids time left
        ]
    ]

  unfoldable pub release_channel :
      ℕ → NoInputTransposerSource T B P → Outcome (NoInputTransposerSource T B P)
  release_channel channel self = do
    statuses ← Channels.release_channel channel self.channel_statuses
    ok (record self { channel_statuses = statuses })

  unfoldable pub advance :
      ℕ → NoInputTransposerSource T B P → Outcome (NoInputTransposerSource T B P)
  advance time self = do
    (_, steps) ← Query.delete_before T B time self.steps
    ok (record self { steps = steps })
