-- ===== src/Source/Trait/Schedule.antt =====
-- source/src/sources/transposer/no_input_transposer.rs keeps what a source promises of `next_event_at`.
use cozal.Prelude.{
  unwrap_ok, unwrap_ok-ok, ℕ, zero, suc, ◌≡◌, ◌<◌, refl, ◌∙◌, ap, ◌⊎◌, inl, inr, Option, some, none,
  true, Bool-cases, >>=-ok, Outcome, ok, err, panic, out_of_fuel, arith, if◌then◌else◌, List,
}
use cozal.Transposer.Backend.{Backend}
use cozal.Transposer.Program.{Transposer}
use cozal.Transposer.Step
use cozal.Transposer.Step.{Step, StepPoll}
use cozal.Source.Steps
use cozal.Source.Steps.{Steps}
use cozal.Source.Steps.Query.{BeforeStatusEvents, get_before_or_at_events, is_settled}
use cozal.Source.Channels
use cozal.Source.NoInput
use cozal.Source.NoInput.{
  Interpolate, NoInputTransposerSource, SourcePoll, ready, interrupt, pending,
}
use cozal.Source.Trait.{Schedules, no_input_source, ok_poll}

of_ok_poll :
    {A S Error : Type 0} (x : Outcome (A × S)) (a : A) (s : S)
    → ok_poll {Error = Error} x ≡ ok (inr a, s)
    → x ≡ ok (a, s)
of_ok_poll (ok (b, t)) a s h = ground (arith, h)
of_ok_poll err a s h = absurd (cc)
of_ok_poll panic a s h = absurd (cc)
of_ok_poll out_of_fuel a s h = absurd (cc)

module _ (T : Transposer) (B : Backend T.Scheduled) where
  -- A settled poll is before the time that it gives for the next event.
  settled_before :
      (time t : ℕ) (s : Step T B)
      → is_settled T B time s ≡ true
      → (if s.can_produce_events then some (Step.get_time T B s) else none) ≡ some t
      → time < t
  settled_before time t s settled h = ground (arith, settled, h)

  ready_before :
      (uuid time t : ℕ) (pinned_times : List ℕ) (self self' : Steps T B)
      → (get_before_or_at_events T B uuid time pinned_times self
          ≡ ok (BeforeStatusEvents.ready (some t), self'))
      → time < t
  unfolding get_before_or_at_events
  ready_before uuid time t pinned_times self self' h =
      let (_, _, h₁) = >>=-ok (Steps.debug_assertions T B self) _ _ h in
      let (pushed, _, h₂) = >>=-ok (Steps.try_next_scheduled T B uuid self) _ _ h₁ in
      let (i, _, h₃) = >>=-ok (Steps.max_sequence_number T B pushed) _ _ h₂ in
      let (last, _, h₄) = >>=-ok (Steps.get_last T B pushed) _ _ h₃ in
      elim (Bool-cases (is_settled T B time last)) [
        | inl settled ↦ settled_before time t last settled (ground (arith, settled, h₄))
        | inr more ↦ absurd (ground (arith, more, h₄))
      ]

  pub status_cases :
      (status : BeforeStatusEvents)
      → ((n : Option ℕ) × (status ≡ BeforeStatusEvents.ready n))
        ⊎ ((i : ℕ) × (status ≡ BeforeStatusEvents.saturating i))
  status_cases (BeforeStatusEvents.ready n) = inl (n, refl)
  status_cases (BeforeStatusEvents.saturating i) = inr (i, refl)

  pub step_poll_cases :
      (p : StepPoll T.OutputEvent)
      → (p ≡ StepPoll.ready)
        ⊎ ((p ≡ StepPoll.pending) ⊎ ((e : T.OutputEvent) × (p ≡ StepPoll.emitted e)))
  step_poll_cases StepPoll.ready = inl refl
  step_poll_cases StepPoll.pending = inr (inl refl)
  step_poll_cases (StepPoll.emitted e) = inr (inr (e, refl))

  module _ (P : Interpolate T B) where
    pub poll_events_ready :
        (rounds fuel : ℕ) (uuids : ℕ → ℕ) (time t : ℕ) (self self' : NoInputTransposerSource T B P)
        → NoInput.poll_events T B P rounds fuel uuids time self ≡ ok (ready tt (some t), self')
        → time < t
    unfolding NoInput.poll_events
    poll_events_ready zero fuel uuids time t self self' h = absurd (cc)
    poll_events_ready (suc rounds) fuel uuids time t self self' h =
        let pinned_times =
          Channels.get_pinned_times self.channel_statuses.blocked_caller_channels in
        let asked = get_before_or_at_events T B (uuids rounds) time pinned_times self.steps in
        let ((status, steps), unwrapped, h₁) = >>=-ok (unwrap_ok asked) _ _ h in
        let found = unwrap_ok-ok asked (status, steps) unwrapped in
        elim (status_cases status) [
          | inl (n, e) ↦
              let at_n : n ≡ some t = ground (arith, rw e at h₁) in
              ready_before (uuids rounds) time t pinned_times self.steps steps (
                found
                ∙ ap (λ (b : BeforeStatusEvents). ok (b, steps))
                    (e ∙ ap BeforeStatusEvents.ready at_n))
          | inr (i, e) ↦
              let (step, _, h₂) = >>=-ok (Steps.get_last T B steps) _ _ (rw e at h₁) in
              let (result, _, h₃) = >>=-ok (Step.poll T B fuel step) _ _ h₂ in
              let ((polled, step'), _, h₄) = >>=-ok (Steps.unwrap_result result) _ _ h₃ in
              elim (step_poll_cases polled) [
                | inl again ↦ poll_events_ready rounds fuel uuids time t _ self' (rw again at h₄)
                | inr (inl waits) ↦ absurd (ground (arith, rw waits at h₄))
                | inr (inr (a, sent)) ↦ absurd (ground (arith, rw sent at h₄))
              ]
        ]

    -- The source of a transposer without inputs keeps the promise of `next_event_at`.
    pub no_input_source-Schedules :
        (rounds fuel : ℕ) (uuids : ℕ → ℕ) → Schedules (no_input_source T B P rounds fuel uuids)
    unfolding no_input_source
    no_input_source-Schedules rounds fuel uuids = record {
      later = λ time t s s' h. poll_events_ready rounds fuel uuids time t s s' (
          of_ok_poll (NoInput.poll_events T B P rounds fuel uuids time s) (ready tt (some t)) s' h);
    }
