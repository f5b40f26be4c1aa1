-- ===== src/Source/Trait.antt =====
-- source/src/traits/source.rs and source/src/source_poll.rs: what a source is to the code that polls it.
pub mod Schedule
use cozal.Prelude.{ℕ, ◌^◌, ◌-◌, ◌≡◌, ◌<◌, ◌⊎◌, inl, inr, Option, some, Outcome, ok, ◌>>=◌}
use cozal.Transposer.Backend.{Backend}
use cozal.Transposer.Program.{Transposer}
use cozal.Source.NoInput
use cozal.Source.NoInput.{Interpolate, NoInputTransposerSource, SourcePoll, ready}

-- `SourcePollErr`
pub data SourcePollErr (Error : Type 0) : Type 0 where
  out_of_bounds_channel : SourcePollErr Error
  poll_after_advance : ℕ → SourcePollErr Error
  poll_before_default : SourcePollErr Error
  specific_error : Error → SourcePollErr Error

-- `trait Source`. A method on `&mut self` gives the new value too; a `SourceContext` is its channel.
pub record Source : Type 1 where
  pub Self : Type 0
  pub Event : Type 0
  pub State : Type 0
  pub Error : Type 0
  pub poll : ℕ → ℕ → Self → Outcome ((SourcePollErr Error ⊎ SourcePoll Event State) × Self)
  pub poll_forget : ℕ → ℕ → Self → Outcome ((SourcePollErr Error ⊎ SourcePoll Event State) × Self)
  pub poll_events : ℕ → Self → Outcome ((SourcePollErr Error ⊎ SourcePoll Event (Unit {0})) × Self)
  pub release_channel : ℕ → Self → Outcome Self
  pub advance : ℕ → Self → Outcome Self
  pub max_channel : ℕ

-- `Ok(…)` of a poll.
abbrev pub ok_poll :
    {A S Error : Type 0} → Outcome (A × S) → Outcome ((SourcePollErr Error ⊎ A) × S)
ok_poll x = do (p, self) ← x; ok (inr p, self)

-- `impl Source for NoInputTransposerSource`; `max_channel` is that of a machine with 64 bits.
module _ (T : Transposer) (B : Backend T.Scheduled) (P : Interpolate T B) where
  unfoldable pub no_input_source : ℕ → ℕ → (ℕ → ℕ) → Source
  no_input_source rounds fuel uuids = record {
    Self = NoInputTransposerSource T B P;
    Event = T.OutputEvent;
    State = P.OutputState;
    Error = Unit {0};
    poll = λ time channel self. ok_poll (NoInput.poll T B P rounds fuel uuids time channel self);
    poll_forget =
        λ time channel self. ok_poll (NoInput.poll T B P rounds fuel uuids time channel self);
    poll_events = λ time self. ok_poll (NoInput.poll_events T B P rounds fuel uuids time self);
    release_channel = NoInput.release_channel T B P;
    advance = NoInput.advance T B P;
    max_channel = 2 ^ 64 - 1;
  }

-- What `SourcePoll::Ready` promises of its `next_event_at`: it is after the time of the poll.
pub record Schedules (S : Source) : Type 0 where
  pub later :
      (time t : ℕ) (s s' : S.Self)
      → S.poll_events time s ≡ ok (inr (ready tt (some t)), s')
      → time < t
