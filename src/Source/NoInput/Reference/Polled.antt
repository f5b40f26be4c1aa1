-- ===== src/Source/NoInput/Reference/Polled.antt =====
-- source/src/sources/transposer/no_input_transposer.rs: one round of a poll of events.
use cozal.Prelude.{ℕ, suc, ◌+◌, ◌≡◌, refl, Option, [], Outcome, ok, ◌>>=◌, inr}
use cozal.Transposer.Backend.{Backend}
use cozal.Transposer.Program.{Transposer}
use cozal.Transposer.Step
use cozal.Transposer.Step.{Step, saturated, saturating}
use cozal.Transposer.Step.Replay.{poll_saturating}
use cozal.Transposer.Wrapped
use cozal.Transposer.Wrapped.{WrappedTransposer, Future, FuturePoll, is_ready, is_pending}
use cozal.Source.Steps
use cozal.Source.Steps.{Steps}
use cozal.Source.Steps.Query.{BeforeStatusEvents, get_before_or_at_events}
use cozal.Source.Steps.Stands.{Runs}
use cozal.Source.Steps.Stands.Running.{with_last}
use cozal.Source.Channels
use cozal.Source.NoInput
use cozal.Source.NoInput.{
  Interpolate, NoInputTransposerSource, SourcePoll, interrupt, ready, pending, finalized_event,
}
use cozal.Source.NoInput.Reference.{EventPoll}

module _ (T : Transposer) (B : Backend T.Scheduled) (P : Interpolate T B) where
  -- What a poll of events makes of the poll of the last step.
  abbrev pub after_step :
      ℕ
      → ℕ
      → (ℕ → ℕ)
      → ℕ
      → NoInputTransposerSource T B P
      → Step.StepPoll T.OutputEvent × Step T B
      → Outcome (EventPoll T B P)
  after_step rounds fuel uuids time self (polled, step) =
      let left = record self { steps = with_last T B step self.steps } in
      elim polled [
        | Step.emitted e ↦ ok (interrupt (Step.get_time T B step) (finalized_event e), left)
        | Step.pending ↦ ok (pending, left)
        | Step.ready ↦ NoInput.poll_events T B P rounds fuel uuids time left
      ]

  no_pinned_times :
      (self : NoInputTransposerSource T B P)
      → self.channel_statuses.blocked_caller_channels ≡ []
      → Channels.get_pinned_times self.channel_statuses.blocked_caller_channels ≡ []
  unfolding Channels.get_pinned_times
  no_pinned_times self no_channels = rw no_channels refl

  pub emitted-get_time :
      (s : Step T B) (g : Future T B)
      → Step.get_time T B (record s { status = saturating g; event_count = s.event_count + 1 })
        ≡ Step.get_time T B s
  unfolding Step.get_time
  emitted-get_time s g = refl

  module _ (fuel : ℕ) (uuids : ℕ → ℕ) (time : ℕ) where
    pub poll_events_ready :
        (rounds : ℕ) (self : NoInputTransposerSource T B P) (next : Option ℕ) (steps : Steps T B)
        → self.channel_statuses.blocked_caller_channels ≡ []
        → get_before_or_at_events T B (uuids rounds) time [] self.steps
          ≡ ok (BeforeStatusEvents.ready next, steps)
        → NoInput.poll_events T B P (suc rounds) fuel uuids time self
          ≡ ok (ready tt next, record self { steps = steps })
    unfolding NoInput.poll_events
    poll_events_ready rounds self next steps no_channels found =
        rw (no_pinned_times self no_channels, found, ◌>>=◌) refl

    pub poll_events_running :
        (rounds i at : ℕ) (self : NoInputTransposerSource T B P) (steps : Steps T B)
        (f : Future T B) (r : Runs T B f at steps) (p : Step.StepPoll T.OutputEvent × Step T B)
        → self.channel_statuses.blocked_caller_channels ≡ []
        → get_before_or_at_events T B (uuids rounds) time [] self.steps
          ≡ ok (BeforeStatusEvents.saturating i, steps)
        → Step.poll_with T B r.last (Wrapped.poll T B fuel f) ≡ ok (inr p)
        → NoInput.poll_events T B P (suc rounds) fuel uuids time self
          ≡ after_step rounds fuel uuids time (record self { steps = steps }) p
    unfolding NoInput.poll_events Steps.get_last
    poll_events_running rounds i at self steps f r p no_channels found polled =
        rw
          (
            no_pinned_times self no_channels,
            found,
            ◌>>=◌,
            Steps.get_last,
            r.at_end,
            poll_saturating T B fuel r.last f r.running,
            polled,
          )
          refl
