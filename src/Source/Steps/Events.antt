-- ===== src/Source/Steps/Events.antt =====
-- source/src/sources/transposer/steps.rs: a poll of events when the last step is saturated.
use cozal.Prelude.{
  ap, ℕ, suc, ◌+◌, ◌≤◌, ◌≡◌, refl, sym, ◌∙◌, true, false, some, List, [], ◌∷◌, ◌++◌, length,
  get_elem?, get_elem?-append, get_elem?-append_length, get_elem?-last?, length-append, last?,
  last?-append, ltb, arith, ok, ◌>>=◌, inr,
}
use cozal.Transposer.Time.{ScheduledTime}
use cozal.Transposer.Backend.{Backend}
use cozal.Transposer.Program.{Transposer}
use cozal.Transposer.Metadata
use cozal.Transposer.Wrapped
use cozal.Transposer.Wrapped.{WrappedTransposer}
use cozal.Transposer.Step
use cozal.Transposer.Step.{Step, saturated, saturating, scheduled_data, new_step}
use cozal.Source.Steps
use cozal.Source.Steps.{Steps}
use cozal.Source.Steps.Query.{BeforeStatusEvents, get_before_or_at_events}
use cozal.Source.Steps.Delete.{marks, Inv, marked_first}
use cozal.Source.Steps.Saturate.{Pinned}
use cozal.Source.Steps.Saturate.Adjacent.{Starts, saturate_total}
use cozal.Source.Steps.Saturate.Last.{last?-get_by_sequence_number, total-saturate}

module _ (T : Transposer) (B : Backend T.Scheduled) where
  -- An unsaturated step at the end has no mark.
  marks-append :
      (n : ℕ) (ss : List (Step T B)) (s : Step T B)
      → Step.is_unsaturated T B s ≡ true
      → marks T B n (ss ++ s ∷ []) ≡ marks T B n ss
  marks-append n [] s unsat = ground (arith, unsat)
  marks-append n (a ∷ ss) s unsat = rw (marks-append (n + 1) ss s unsat) refl

  pub push-Inv :
      (self : Steps T B) (s : Step T B)
      → Step.is_unsaturated T B s ≡ true
      → Inv T B self
      → Inv T B (Steps.push T B (some s) self)
  push-Inv self s unsat inv =
      let (a, first, sat) = inv.front in
      record {
        marked = inv.marked ∙ sym (marks-append self.num_deleted_steps self.steps s unsat);
        front = (a, get_elem?-append self.steps (s ∷ []) 0 a first, sat);
      }

  -- The step of the scheduled event `t` after a step, before it is started and when it is.
  abbrev pub next : ℕ → Step T B → ScheduledTime → Step T B
  next uuid last t = new_step T B uuid last.uuid_self (scheduled_data t)

  abbrev pub next_started : ℕ → Step T B → WrappedTransposer T B → ScheduledTime → Step T B
  next_started uuid last w t = record (next uuid last t) {
    status = saturating (Wrapped.handle_scheduled T B t.time 0 w);
  }

  next-Starts :
      (uuid : ℕ) (last : Step T B) (w : WrappedTransposer T B) (t : ScheduledTime)
      → last.status ≡ saturated w
      → Starts T B last (next uuid last t) (next_started uuid last w t)
  unfolding Step.is_unsaturated Step.saturate
  next-Starts uuid last w t ready = record {
    transposer = w;
    ready = ready;
    follows = ground arith;
    waits = refl;
    started = refl;
  }

  next_scheduled_unsaturated_lem :
      (uuid : ℕ) (last : Step T B) (w : WrappedTransposer T B) (t : ScheduledTime)
      → last.status ≡ saturated w
      → Metadata.get_next_scheduled_time B w.metadata ≡ some t
      → Step.next_scheduled_unsaturated T B uuid last ≡ inr (some (next uuid last t))
  unfolding Step.next_scheduled_unsaturated
  next_scheduled_unsaturated_lem uuid last w t ready scheduled =
      rw (Step.next_scheduled_unsaturated, Step.next_unsaturated, ready, scheduled) refl

  pub try_next_scheduled_lem :
      (self : Steps T B) (uuid : ℕ) (last : Step T B) (w : WrappedTransposer T B)
      (t : ScheduledTime)
      → last? self.steps ≡ some last
      → last.status ≡ saturated w
      → Metadata.get_next_scheduled_time B w.metadata ≡ some t
      → (Steps.try_next_scheduled T B uuid self
          ≡ ok (Steps.push T B (some (next uuid last t)) self))
  unfolding Steps.try_next_scheduled Step.is_saturated
  try_next_scheduled_lem self uuid last w t at_end ready scheduled =
      rw
        (
          Steps.try_next_scheduled,
          Steps.get_last,
          at_end,
          ◌>>=◌,
          Step.is_saturated,
          ready,
          next_scheduled_unsaturated_lem uuid last w t ready scheduled,
        )
        refl

  pub next-is_unsaturated :
      (uuid : ℕ) (last : Step T B) (t : ScheduledTime)
      → Step.is_unsaturated T B (next uuid last t) ≡ true
  unfolding Step.is_unsaturated
  next-is_unsaturated uuid last t = refl

  pub next-get_time :
      (uuid : ℕ) (last : Step T B) (t : ScheduledTime)
      → Step.get_time T B (next uuid last t) ≡ t.time
  unfolding Step.get_time
  next-get_time uuid last t = refl

  -- The last step is saturated, and its next event is scheduled at or before `time`, while no pinned
  -- time is before the first step. A poll of events returns: a new step for the event is the last one
  -- now, under the next number, it has started from the former one's transposer, and the set of
  -- checkpoints is that of the steps.
  pub get_before_or_at_events_due :
      (self : Steps T B) (uuid time : ℕ) (pinned_times : List ℕ) (last : Step T B)
      (w : WrappedTransposer T B) (t : ScheduledTime) (inv : Inv T B self)
      → last? self.steps ≡ some last
      → last.status ≡ saturated w
      → Metadata.get_next_scheduled_time B w.metadata ≡ some t
      → t.time ≤ time
      → Pinned T B self inv pinned_times
      → (self' : Steps T B) × (get_before_or_at_events T B uuid time pinned_times self
          ≡ ok (BeforeStatusEvents.saturating (self.num_deleted_steps + length self.steps), self'))
        × Inv T B self'
        × (Steps.get_by_sequence_number T B (self.num_deleted_steps + length self.steps) self'
            ≡ some (next_started uuid last w t))
        × (last? self'.steps ≡ some (next_started uuid last w t))
  unfolding get_before_or_at_events Steps.max_sequence_number Steps.get_last
  get_before_or_at_events_due self uuid time pinned_times last w t inv at_end ready scheduled due
        early =
      let n = self.num_deleted_steps in
      let s = next uuid last t in
      let pushed = Steps.push T B (some s) self in
      let (i, len, at_last) = get_elem?-last? self.steps last at_end in
      let at_s : get_elem? pushed.steps (suc i) ≡ some s =
        rw (sym len) (get_elem?-append_length self.steps s) in
      let (a, first, sat) = inv.front in
      let inv' = push-Inv self s (next-is_unsaturated uuid last t) inv in
      let early' : Pinned T B pushed inv' pinned_times = λ u here b front.
        early u here b
          (ground (arith, front, first, get_elem?-append self.steps (s ∷ []) 0 a first)) in
      let k : n + length self.steps ≡ suc i + n = omega (arith, len) in
      let (self', done, kept, at_k) =
        saturate_total T B (next-Starts uuid last w t ready) pushed i pinned_times inv'
          (get_elem?-append self.steps (s ∷ []) i last at_last) at_s early' in
      let number : Steps.max_sequence_number T B pushed ≡ ok (suc i + n) =
        rw (Steps.max_sequence_number, length-append self.steps (s ∷ []), len) (ground arith) in
      let later : ltb time (Step.get_time T B s) ≡ false =
        rw (next-get_time uuid last t) (ground (arith, due)) in
      let end : Steps.get_last T B pushed ≡ ok s =
        rw (Steps.get_last, last?-append self.steps s) refl in
      (
        self',
        rw
            (
              k,
              marked_first T B self inv,
              ◌>>=◌,
              try_next_scheduled_lem self uuid last w t at_end ready scheduled,
              number,
              end,
              later,
              next-is_unsaturated uuid last t,
              done,
            )
            refl,
        kept,
        rw k at_k,
        last?-get_by_sequence_number T B self' (suc i + n) (next_started uuid last w t)
            (total-saturate T B (suc i + n) pinned_times pushed self' done
              ∙ ap (λ l. n + l) (length-append self.steps (s ∷ []))
              ∙ omega (arith, len))
            at_k,
      )
