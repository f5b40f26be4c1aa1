-- ===== src/Source/NoInput/Reference.antt =====
-- source/src/sources/transposer/no_input_transposer.rs: the events of a source of a transposer without
-- inputs, as its caller gets them, and those of the transposer alone.
pub mod Polled
pub mod Refined
pub mod Parts
pub mod Sessions
use cozal.Prelude.{ℕ, suc, ◌≤◌, ◌≡◌, Option, some, List, [], ◌∷◌, ◌++◌, Outcome, ok}
use cozal.Transposer.Time.{ScheduledTime}
use cozal.Transposer.Backend.{Backend}
use cozal.Transposer.Program.{Transposer}
use cozal.Transposer.Metadata
use cozal.Transposer.Wrapped
use cozal.Transposer.Wrapped.{WrappedTransposer}
use cozal.Transposer.Wrapped.Drive.{drive}
use cozal.Source.Steps.Stands.{IsLater, Stands, time_of}
use cozal.Source.NoInput
use cozal.Source.NoInput.{
  Interpolate, NoInputTransposerSource, SourcePoll, interrupt, ready, pending, finalized_event,
}

-- The events of a handler, with the time that they are sent at.
abbrev pub stamp : {E : Type 0} → ℕ → List E → List (ℕ × E)
stamp time [] = []
stamp time (e ∷ es) = (time, e) ∷ stamp time es

module _ (T : Transposer) (B : Backend T.Scheduled) where
  -- The transposer alone: its scheduled events up to `time` are handled in their order, each to the end,
  -- within `n` handlers, until the next one is later. They are at `k` times.
  pub data RunsTo (n time : ℕ)
      : ℕ → WrappedTransposer T B → List (ℕ × T.OutputEvent) → WrappedTransposer T B → Type 0 where
    idle :
        {w : WrappedTransposer T B}
        → IsLater time (Metadata.get_next_scheduled_time B w.metadata)
        → RunsTo n time 0 w [] w
    handled :
        {k : ℕ} {t : ScheduledTime} {w v w' : WrappedTransposer T B} {es : List T.OutputEvent}
        {fs : List (ℕ × T.OutputEvent)}
        → Metadata.get_next_scheduled_time B w.metadata ≡ some t
        → t.time ≤ time
        → drive T B n (Wrapped.handle_scheduled T B t.time 0 w) ≡ some (es, v)
        → RunsTo n time k v fs w'
        → RunsTo n time (suc k) w (stamp t.time es ++ fs) w'

module _ (T : Transposer) (B : Backend T.Scheduled) (P : Interpolate T B) where
  abbrev pub EventPoll : Type 0
  EventPoll = SourcePoll T.OutputEvent (Unit {0}) × NoInputTransposerSource T B P

  module _ (rounds fuel : ℕ) (uuids : ℕ → ℕ) (time : ℕ) where
    -- What a poll of events returns, and the polls of the same time after it, up to the one that is
    -- ready: the events, the time of the next event, and the source that is left.
    pub data Answers
        : Outcome EventPoll
          → List (ℕ × T.OutputEvent)
          → Option ℕ
          → NoInputTransposerSource T B P
          → Type 0 where
      is_ready :
          {next : Option ℕ} {self : NoInputTransposerSource T B P}
          → Answers (ok (ready tt next, self)) [] next self
      waits :
          {next : Option ℕ} {self self' : NoInputTransposerSource T B P}
          {es : List (ℕ × T.OutputEvent)}
          → Answers (NoInput.poll_events T B P rounds fuel uuids time self) es next self'
          → Answers (ok (pending, self)) es next self'
      sends :
          {next : Option ℕ} {self self' : NoInputTransposerSource T B P} {t : ℕ} {e : T.OutputEvent}
          {es : List (ℕ × T.OutputEvent)}
          → Answers (NoInput.poll_events T B P rounds fuel uuids time self) es next self'
          → Answers (ok (interrupt t (finalized_event e), self)) ((t, e) ∷ es) next self'

module _ (T : Transposer) (B : Backend T.Scheduled) (P : Interpolate T B) where
  -- The source stands at the transposer, and no channel waits.
  pub record StandsAt (w : WrappedTransposer T B) (self : NoInputTransposerSource T B P)
      : Type 0 where
    pub steps : Stands T B w self.steps
    pub no_channels : self.channel_statuses.blocked_caller_channels ≡ []

  -- The polls return the events, then the time of the transposer's next event, and the source stands at
  -- the transposer.
  pub record Refines (rounds fuel : ℕ) (uuids : ℕ → ℕ) (time : ℕ) (o : Outcome (EventPoll T B P))
      (es : List (ℕ × T.OutputEvent)) (w : WrappedTransposer T B) : Type 0 where
    pub left : NoInputTransposerSource T B P
    pub answers :
        Answers T B P rounds fuel uuids time o es
          (time_of (Metadata.get_next_scheduled_time B w.metadata))
          left
    pub stands : StandsAt w left
