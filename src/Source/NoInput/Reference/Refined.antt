-- ===== src/Source/NoInput/Reference/Refined.antt =====
-- source/src/sources/transposer/no_input_transposer.rs: polls of events against the run of the
-- transposer alone.
use cozal.Prelude.{
  false, ℕ, zero, suc, ◌+◌, ◌<◌, ◌≤◌, ◌≡◌, refl, sym, ◌∙◌, subst, List, [], ◌∷◌, ◌++◌, Outcome, ok,
  arith,
}
use cozal.Transposer.Backend.{Backend}
use cozal.Transposer.Program.{Transposer}
use cozal.Transposer.Step
use cozal.Transposer.Step.{Step, saturated, saturating}
use cozal.Transposer.Wrapped
use cozal.Transposer.Wrapped.{WrappedTransposer, Future, FuturePoll, is_ready, is_pending}
use cozal.Transposer.Wrapped.Ends.{Ends, at_ready, at_pending, at_event, Ends-of_drive}
use cozal.Source.Steps
use cozal.Source.Steps.{Steps}
use cozal.Source.Steps.Query.{BeforeStatusEvents, get_before_or_at_events}
use cozal.Source.Steps.Stands.{Runs, rests}
use cozal.Source.Steps.Stands.Due.{Stands-due, Stands-later}
use cozal.Source.Steps.Stands.Running.{with_last, runs_lem, ended-Rests, resumed-Runs}
use cozal.Source.Channels
use cozal.Source.NoInput
use cozal.Source.NoInput.{
  Interpolate, NoInputTransposerSource, SourcePoll, interrupt, ready, pending, finalized_event,
}
use cozal.Source.NoInput.Reference.{
  stamp, RunsTo, idle, handled, is_ready, waits, sends, EventPoll, StandsAt, Refines,
}
use cozal.Source.NoInput.Reference.Polled.{emitted-get_time, poll_events_ready, poll_events_running}

module _ (T : Transposer) (B : Backend T.Scheduled) (P : Interpolate T B) where
  module _ (fuel : ℕ) (uuids : ℕ → ℕ) (time : ℕ) where
    module _ (rounds : ℕ) where
      -- The polls of the source, with `suc rounds` rounds each, from what a poll has returned.
      abbrev Refined :
          Outcome (EventPoll T B P) → List (ℕ × T.OutputEvent) → WrappedTransposer T B → Type 0
      Refined o es w = Refines T B P (suc rounds) fuel uuids time o es w

      Refined-waits :
          {es : List (ℕ × T.OutputEvent)} {w : WrappedTransposer T B}
          (self : NoInputTransposerSource T B P)
          → Refined (NoInput.poll_events T B P (suc rounds) fuel uuids time self) es w
          → Refined (ok (pending, self)) es w
      Refined-waits self h = record { left = h.left; answers = waits h.answers; stands = h.stands }

      Refined-sends :
          {es : List (ℕ × T.OutputEvent)} {w : WrappedTransposer T B} (t : ℕ) (e : T.OutputEvent)
          (self : NoInputTransposerSource T B P)
          → Refined (NoInput.poll_events T B P (suc rounds) fuel uuids time self) es w
          → Refined (ok (interrupt t (finalized_event e), self)) ((t, e) ∷ es) w
      Refined-sends t e self h = record {
        left = h.left;
        answers = sends h.answers;
        stands = h.stands;
      }

      -- The last step runs a future that ends in `v`. What follows is granted, for a source that stands
      -- at `v`.
      run_future :
          (at k m i : ℕ) {q : FuturePoll T B} {es : List T.OutputEvent} {v : WrappedTransposer T B}
          (f : Future T B) (fs : List (ℕ × T.OutputEvent)) (w : WrappedTransposer T B)
          (self : NoInputTransposerSource T B P) (steps : Steps T B)
          → Ends T B fuel q es v
          → Wrapped.poll T B fuel f ≡ q
          → Runs T B f at steps
          → at ≤ time
          → self.channel_statuses.blocked_caller_channels ≡ []
          → get_before_or_at_events T B (uuids m) time [] self.steps
            ≡ ok (BeforeStatusEvents.saturating i, steps)
          → k < m
          → k < rounds
          → ((n : ℕ) (self' : NoInputTransposerSource T B P)
              → k < n
              → StandsAt T B P v self'
              → Refined (NoInput.poll_events T B P n fuel uuids time self') fs w)
          → Refined (NoInput.poll_events T B P (suc m) fuel uuids time self) (stamp at es ++ fs) w
      run_future at k m i {v = v} f fs w self steps at_ready polled r due no_channels found enough
            more rest =
          let s : Step T B = record (r.last) { status = saturated v; can_produce_events = false } in
          let left = record self { steps = with_last T B s steps } in
          rw
            (poll_events_running T B P fuel uuids time m i at self steps f r (Step.ready, s)
              no_channels found (rw polled refl))
            (rest m left enough
              (record { steps = rests (ended-Rests T B r v); no_channels = no_channels }))
      run_future at k m i f fs w self steps (at_pending {f = g} ends) polled r due no_channels found
            enough more rest =
          let s : Step T B = record (r.last) { status = saturating g } in
          let left = record self { steps = with_last T B s steps } in
          let runs = resumed-Runs T B r g r.last.event_count in
          let (j, found') = runs_lem T B (uuids rounds) time at runs due in
          rw
            (poll_events_running T B P fuel uuids time m i at self steps f r (Step.pending, s)
              no_channels found (rw polled refl))
            (Refined-waits left (
              run_future at k rounds j g fs w left left.steps ends refl runs due no_channels found'
                more more rest))
      run_future at k m i f fs w self steps (at_event {f = g} {e = e} {es = es} ends) polled r due
            no_channels found enough more rest =
          let s : Step T B = record (r.last) {
            status = saturating g;
            event_count = r.last.event_count + 1;
          } in
          let left = record self { steps = with_last T B s steps } in
          let runs = resumed-Runs T B r g (r.last.event_count + 1) in
          let (j, found') = runs_lem T B (uuids rounds) time at runs due in
          rw
            (poll_events_running T B P fuel uuids time m i at self steps f r (Step.emitted e, s)
              no_channels found (rw polled refl))
            (subst
              (λ u.
                Refined (ok (interrupt u (finalized_event e), left)) (stamp at (e ∷ es) ++ fs) w)
              (sym (emitted-get_time T B P r.last g ∙ r.at_time))
              (Refined-sends at e left (
                run_future at k rounds j g fs w left left.steps ends refl runs due no_channels
                  found' more more rest)))

module _ (T : Transposer) (B : Backend T.Scheduled) (P : Interpolate T B) where
  -- A source that stands at a transposer, and has no channel that waits, is polled for events at `time`,
  -- with rounds and fuel for the transposer's run up to that time. Whatever it holds of steps and
  -- checkpoints, the polls return the events of that run, in their order and at their times, and nothing
  -- else but that they wait; the last gives the time of the transposer's next event. The source is left
  -- standing at the transposer that the run ends in.
  pub poll_events-RunsTo :
      (fuel : ℕ) (uuids : ℕ → ℕ) (time rounds n k m : ℕ) {w w' : WrappedTransposer T B}
      {es : List (ℕ × T.OutputEvent)} (self : NoInputTransposerSource T B P)
      → n ≤ suc fuel
      → RunsTo T B n time k w es w'
      → StandsAt T B P w self
      → k < m
      → k < suc rounds
      → Refines T B P
          (suc rounds)
          (suc fuel)
          uuids
          time
          (NoInput.poll_events T B P m (suc fuel) uuids time self)
          es
          w'
  poll_events-RunsTo fuel uuids time rounds n k zero self fueled run at_w enough more =
      absurd (omega (arith, enough))
  poll_events-RunsTo fuel uuids time rounds n k (suc m) {w = w} self fueled (idle later) at_w enough
        more =
      let (steps, found, stands) = Stands-later T B (uuids m) time at_w.steps later in
      let left = record self { steps = steps } in
      rw (poll_events_ready T B P (suc fuel) uuids time m self _ steps at_w.no_channels found)
        (record {
          left = left;
          answers = is_ready;
          stands = record { steps = stands; no_channels = at_w.no_channels };
        })
  poll_events-RunsTo fuel uuids time rounds n (suc k) (suc m) {w = w} {w' = w'} self fueled
        (handled {t = t} {v = v} {es = es} {fs = fs} scheduled due driven run) at_w enough more =
      let (i, steps, found, runs) = Stands-due T B (uuids m) time t at_w.steps scheduled due in
      let f = Wrapped.handle_scheduled T B t.time 0 w in
      run_future T B P (suc fuel) uuids time rounds t.time k m i f fs w' self steps
        (Ends-of_drive T B fuel n (suc fuel) f es v fueled fueled driven) refl runs due
        at_w.no_channels found (omega (arith, enough)) (omega (arith, more))
        (λ j self' ahead at_v.
          poll_events-RunsTo fuel uuids time rounds n k j self' fueled run at_v ahead
            (omega (arith, more)))
