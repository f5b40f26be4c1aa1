-- ===== src/Source/Steps/Stands.antt =====
-- source/src/sources/transposer/steps.rs: the steps that stand at a transposer, or run a future from
-- one.
pub mod Stays
pub mod Due
pub mod Running
use cozal.Prelude.{
  ℕ, ◌+◌, ◌-◌, ◌<◌, ◌≤◌, ◌≡◌, refl, ◌∙◌, true, false, Option, some, none, List, [], get_elem?,
  get_elem?-last?, get_elem?-set_self, set, last?, last?-append, length, length-set, ltb, arith, ok,
  ◌>>=◌,
}
use cozal.Transposer.Time.{ScheduledTime}
use cozal.Transposer.Backend.{Backend}
use cozal.Transposer.Program.{Transposer}
use cozal.Transposer.Metadata
use cozal.Transposer.Wrapped
use cozal.Transposer.Wrapped.{WrappedTransposer, Future}
use cozal.Transposer.Step
use cozal.Transposer.Step.{Step, saturated, saturating, unsaturated}
use cozal.Source.Steps
use cozal.Source.Steps.{Steps}
use cozal.Source.Steps.Query.{BeforeStatusEvents, get_before_or_at_events}
use cozal.Source.Steps.Delete.{Inv, marked_first}
use cozal.Source.Steps.Saturate.Last.{last?-get_elem?}
use cozal.Source.Steps.Events.{
  next, next_started, push-Inv, next-is_unsaturated, get_before_or_at_events_due,
  try_next_scheduled_lem,
}
use cozal.Source.Steps.Kept.Calls.{set-Inv}

module _ (T : Transposer) (B : Backend T.Scheduled) where
  -- The last step is saturated with the transposer, and has sent all its events.
  pub record Rests (w : WrappedTransposer T B) (self : Steps T B) : Type 0 where
    pub inv : Inv T B self
    pub last : Step T B
    pub at_end : last? self.steps ≡ some last
    pub reached : last.status ≡ saturated w
    pub silent : last.can_produce_events ≡ false

  -- The last step runs the future, at the time.
  pub record Runs (f : Future T B) (time : ℕ) (self : Steps T B) : Type 0 where
    pub inv : Inv T B self
    pub last : Step T B
    pub at_end : last? self.steps ≡ some last
    pub running : last.status ≡ saturating f
    pub sends : last.can_produce_events ≡ true
    pub at_time : Step.get_time T B last ≡ time

  -- The steps end in one that is saturated with the transposer, but for the step of its next scheduled
  -- event, which an earlier poll may have made.
  pub data Stands (w : WrappedTransposer T B) : Steps T B → Type 0 where
    rests : {self : Steps T B} → Rests w self → Stands w self
    awaits :
        {self : Steps T B} (uuid : ℕ) (t : ScheduledTime) (r : Rests w self)
        → Metadata.get_next_scheduled_time B w.metadata ≡ some t
        → Stands w (Steps.push T B (some (next T B uuid r.last t)) self)

-- Nothing is scheduled up to the time.
abbrev pub IsLater : ℕ → Option ScheduledTime → Type 0
IsLater time none = Unit {0}
IsLater time (some t) = time < t.time

abbrev pub time_of : Option ScheduledTime → Option ℕ
time_of none = none
time_of (some t) = some t.time
