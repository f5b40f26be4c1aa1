-- ===== src/Source/Steps/Stands/Running.antt =====
-- source/src/sources/transposer/steps.rs: a poll of events while the last step runs, and the steps that
-- a poll of that step leaves.
use cozal.Prelude.{
  ℕ, ◌+◌, ◌-◌, ◌≤◌, ◌≡◌, refl, ◌∙◌, false, some, [], get_elem?, get_elem?-last?, get_elem?-set_self,
  set, last?, length, length-set, ltb, arith, ok, ◌>>=◌,
}
use cozal.Transposer.Backend.{Backend}
use cozal.Transposer.Program.{Transposer}
use cozal.Transposer.Wrapped.{WrappedTransposer, Future}
use cozal.Transposer.Step
use cozal.Transposer.Step.{Step, saturated, saturating, unsaturated}
use cozal.Source.Steps
use cozal.Source.Steps.{Steps}
use cozal.Source.Steps.Query.{BeforeStatusEvents, get_before_or_at_events}
use cozal.Source.Steps.Delete.{Inv, marked_first}
use cozal.Source.Steps.Saturate.Last.{last?-get_elem?}
use cozal.Source.Steps.Kept.Calls.{set-Inv}
use cozal.Source.Steps.Stands.{Rests, Runs}
use cozal.Source.Steps.Stands.Due.{try_next_scheduled_unsaturated, number_of_last}

module _ (T : Transposer) (B : Backend T.Scheduled) where
  -- A poll of events at or after the time of the last step, while that runs, leaves the steps as they are.
  pub runs_lem :
      (uuid time at : ℕ) {f : Future T B} {self : Steps T B}
      → Runs T B f at self
      → at ≤ time
      → (i : ℕ) × (get_before_or_at_events T B uuid time [] self
          ≡ ok (BeforeStatusEvents.saturating i, self))
  unfolding get_before_or_at_events Step.is_saturated Step.is_unsaturated Steps.get_last
  runs_lem uuid time at {f} {self} r due =
      let k = self.num_deleted_steps + length self.steps - 1 in
      let waits : Step.is_saturated T B r.last ≡ false = rw (Step.is_saturated, r.running) refl in
      let started : Step.is_unsaturated T B r.last ≡ false =
        rw (Step.is_unsaturated, r.running) refl in
      let now : ltb time (Step.get_time T B r.last) ≡ false = rw r.at_time (ground (arith, due)) in
      (
        k,
        rw
            (
              marked_first T B self r.inv,
              ◌>>=◌,
              try_next_scheduled_unsaturated T B self uuid r.last r.at_end waits,
              number_of_last T B self r.last r.at_end,
              Steps.get_last,
              r.at_end,
              now,
              r.sends,
              started,
            )
            refl,
      )

  abbrev pub with_last : Step T B → Steps T B → Steps T B
  with_last s self = record self { steps = set self.steps (length self.steps - 1) s }

  -- Another step that has started, in place of the last one.
  with_last-Inv :
      (self : Steps T B) (s s' : Step T B)
      → Inv T B self
      → last? self.steps ≡ some s
      → Step.is_unsaturated T B s ≡ false
      → Step.is_unsaturated T B s' ≡ false
      → Inv T B (with_last s' self) × (last? (with_last s' self).steps ≡ some s')
  with_last-Inv self s s' inv at_end started started' =
      let (i, len, at_i) = get_elem?-last? self.steps s at_end in
      let index : length self.steps - 1 ≡ i = omega (arith, len) in
      let at_last : get_elem? self.steps (length self.steps - 1) ≡ some s = rw index at_i in
      (
        set-Inv T B self (length self.steps - 1) s s' inv at_last started started',
        last?-get_elem? (with_last s' self).steps i s'
            (length-set self.steps (length self.steps - 1) s' ∙ len)
            (rw (← index) (get_elem?-set_self self.steps (length self.steps - 1) s s' at_last)),
      )

  running-is_unsaturated :
      {f : Future T B} {at : ℕ} {self : Steps T B} (r : Runs T B f at self)
      → Step.is_unsaturated T B r.last ≡ false
  unfolding Step.is_unsaturated
  running-is_unsaturated r = rw (Step.is_unsaturated, r.running) refl

  -- What a poll of the last step leaves, where its future ends.
  pub ended-Rests :
      {f : Future T B} {at : ℕ} {self : Steps T B} (r : Runs T B f at self)
      (w : WrappedTransposer T B)
      → Rests T B w
          (with_last (record (r.last) { status = saturated w; can_produce_events = false }) self)
  unfolding Step.is_unsaturated
  ended-Rests {self = self} r w =
      let s' : Step T B = record (r.last) { status = saturated w; can_produce_events = false } in
      let (inv, at_end) =
        with_last-Inv self r.last s' r.inv r.at_end (running-is_unsaturated r) refl in
      record { inv = inv; last = s'; at_end = at_end; reached = refl; silent = refl }

  -- What a poll of the last step leaves, where its future goes on.
  pub resumed-Runs :
      {f : Future T B} {at : ℕ} {self : Steps T B} (r : Runs T B f at self) (g : Future T B) (n : ℕ)
      → Runs T B g at (with_last (record (r.last) { status = saturating g; event_count = n }) self)
  unfolding Step.is_unsaturated Step.get_time
  resumed-Runs {self = self} r g n =
      let s' : Step T B = record (r.last) { status = saturating g; event_count = n } in
      let (inv, at_end) =
        with_last-Inv self r.last s' r.inv r.at_end (running-is_unsaturated r) refl in
      record {
        inv = inv;
        last = s';
        at_end = at_end;
        running = refl;
        sends = r.sends;
        at_time = r.at_time;
      }
