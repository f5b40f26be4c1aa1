-- ===== src/Source/NoInput/Counted.antt =====
-- source/src/sources/transposer/no_input_transposer.rs: a poll for a state keeps the numbers of blocked
-- channels right.
use cozal.Prelude.{
  unwrap_ok, unwrap, ℕ, zero, suc, ◌-◌, ◌==◌, ◌≡◌, refl, sym, subst, Bool-cases, some, none, Option,
  List, [], length, ok, ◌>>=◌, >>=-ok, ok_inj, ok_pair, inl, inr,
}
use cozal.Transposer.Backend.{Backend}
use cozal.Transposer.Program.{Transposer}
use cozal.Transposer.Step
use cozal.Transposer.Step.{Step, StepPoll, PollErr}
use cozal.Source.Steps
use cozal.Source.Steps.{Steps, unwrap_result}
use cozal.Source.Steps.Query.{BeforeStatus, get_before_or_at, saturated, saturating_step}
use cozal.Source.Channels
use cozal.Source.Channels.{
  ChannelStatuses, CallerChannelStatus, free, interpolation, original, repeat, interpolation_future,
  original_step, repeat_step, release_channel,
}
use cozal.Source.Channels.Counts.{
  Counted, start_repeat_step-Counted, vacate-Counted, abandon_repeat-Counted,
}
use cozal.Source.Channels.Release.{release_channel_total}
use cozal.Source.Channels.Started.{
  Holds, occupy-Counted, set_wakers-Counted, update_interpolation-Counted, get_channel_status-Holds,
}
use cozal.Source.NoInput.Asked.{round_cases}
use cozal.Source.NoInput
use cozal.Source.NoInput.{
  Interpolate, NoInputTransposerSource, Round, returned, continued, round, start,
}

module _ (T : Transposer) (B : Backend T.Scheduled) (P : Interpolate T B) where
  abbrev round_channels : Round T B P → ChannelStatuses P.Interpolation
  round_channels (returned _ self) = self.channel_statuses
  round_channels (continued self) = self.channel_statuses

  abbrev Right : Round T B P → Type 0
  Right r = Counted (round_channels r)

  start-Counted :
      (time channel : ℕ) (status : BeforeStatus T B) (self self' : NoInputTransposerSource T B P)
      → Counted self.channel_statuses
      → Holds channel self.channel_statuses free
      → start T B P time channel status self ≡ ok self'
      → Counted self'.channel_statuses
  unfolding Channels.start_interpolation Channels.start_original_step
  start-Counted time channel (saturated step next) self self' inv is_free h =
      let ((t, w), _, h₁) = >>=-ok (unwrap_result (Step.interpolate T B time step)) _ _ h in
      subst (λ (s : NoInputTransposerSource T B P). Counted s.channel_statuses) (ok_inj _ self' h₁)
        (occupy-Counted self.channel_statuses channel time
          (interpolation_future (P.interpolate t w)) inv is_free (λ s. refl))
  start-Counted time channel (saturating_step step i) self self' inv is_free h =
      elim (Bool-cases step.can_produce_events) [
        | inl first ↦
            subst (λ (s : NoInputTransposerSource T B P). Counted s.channel_statuses)
              (ok_inj _ self' (rw first at h))
              (occupy-Counted self.channel_statuses channel time original_step inv is_free
                (λ s. refl))
        | inr again ↦
            subst (λ (s : NoInputTransposerSource T B P). Counted s.channel_statuses)
              (ok_inj _ self' (rw again at h))
              (start_repeat_step-Counted self.channel_statuses channel i time inv is_free)
      ]

  round_free-Counted :
      (fuel uuid time channel : ℕ) (self : NoInputTransposerSource T B P) (r : Round T B P)
      → Counted self.channel_statuses
      → Holds channel self.channel_statuses free
      → NoInput.round_free T B P fuel uuid time channel self ≡ ok r
      → Right r
  unfolding NoInput.round_free
  round_free-Counted fuel uuid time channel self r inv is_free h =
      let pinned_times = Channels.get_pinned_times self.channel_statuses.blocked_caller_channels in
      let ((status, steps), _, h₁) =
        >>=-ok (unwrap_ok (get_before_or_at T B fuel uuid time pinned_times self.steps)) _ _ h in
      let (self', started, h₂) =
        >>=-ok (start T B P time channel status (record self { steps = steps })) _ _ h₁ in
      subst Right (ok_inj _ r h₂) (
        start-Counted time channel status (record self { steps = steps }) self' inv is_free started)

  after_interpolation-Counted :
      (channel t : ℕ) (j : P.Interpolation) (p : Option P.OutputState × P.Interpolation)
      (self : NoInputTransposerSource T B P) (r : Round T B P)
      → Counted self.channel_statuses
      → Holds channel self.channel_statuses (interpolation t j)
      → NoInput.after_interpolation T B P channel p self ≡ ok r
      → Right r
  after_interpolation-Counted channel t j (none, i) self r inv held h =
      subst Right (ok_inj _ r h)
        (update_interpolation-Counted self.channel_statuses channel t i j inv held)
  after_interpolation-Counted channel t j (some state, i) self r inv held h =
      let (next, _, h₁) = >>=-ok (Steps.get_scheduled_time T B self.steps) _ _ h in
      subst Right (ok_inj _ r h₁) (
        vacate-Counted self.channel_statuses channel
          (record { poll_time = t; inner = interpolation_future j }) inv held (λ s. refl))

  after_original-Counted :
      (channel i t : ℕ) (p : StepPoll T.OutputEvent) (s : Step T B)
      (self : NoInputTransposerSource T B P)
      → Counted self.channel_statuses
      → Holds channel self.channel_statuses (original t)
      → Right (NoInput.after_original T B P channel i (p, s) self)
  after_original-Counted channel i t (StepPoll.emitted e) s self inv held = inv
  after_original-Counted channel i t StepPoll.pending s self inv held = inv
  after_original-Counted channel i t StepPoll.ready s self inv held =
      vacate-Counted self.channel_statuses channel (record { poll_time = t; inner = original_step })
        inv held (λ s. refl)

  after_repeat-Counted :
      (channel step_id i t n : ℕ) (keys left : List ℕ) (p : StepPoll T.OutputEvent) (s : Step T B)
      (self : NoInputTransposerSource T B P) (r : Round T B P)
      → Counted self.channel_statuses
      → Holds channel self.channel_statuses (repeat t step_id (n, keys))
      → NoInput.after_repeat T B P channel step_id i (n, left) (p, s) self ≡ ok r
      → Right r
  after_repeat-Counted channel step_id i t n keys left (StepPoll.emitted e) s self r inv held h =
      absurd (cc)
  after_repeat-Counted channel step_id i t n keys left StepPoll.pending s self r inv held h =
      subst Right (ok_inj _ r h)
        (set_wakers-Counted self.channel_statuses step_id n keys left inv held.1)
  after_repeat-Counted channel step_id i t n keys left StepPoll.ready s self r inv held h =
      subst Right (ok_inj _ r h)
        (abandon_repeat-Counted self.channel_statuses channel step_id t n keys [] inv held.0 held.1)

  round_original-Counted :
      (fuel channel t : ℕ) (self : NoInputTransposerSource T B P) (r : Round T B P)
      → Counted self.channel_statuses
      → Holds channel self.channel_statuses (original t)
      → NoInput.round_original T B P fuel channel self ≡ ok r
      → Right r
  unfolding NoInput.round_original
  round_original-Counted fuel channel t self r inv held h =
      let (s, _, h₁) = >>=-ok (Steps.get_last T B self.steps) _ _ h in
      let (result, _, h₂) = >>=-ok (Step.poll T B fuel s) _ _ h₁ in
      let ((p, s'), _, h₃) = >>=-ok (unwrap_result result) _ _ h₂ in
      subst Right (ok_inj _ r h₃)
        (after_original-Counted channel (length self.steps.steps - 1) t p s' self inv held)

  round_repeat-Counted :
      (fuel channel step_id t : ℕ) (wakers : ℕ × List ℕ) (self : NoInputTransposerSource T B P)
      (r : Round T B P)
      → Counted self.channel_statuses
      → Holds channel self.channel_statuses (repeat t step_id wakers)
      → NoInput.round_repeat T B P fuel channel step_id wakers self ≡ ok r
      → Right r
  unfolding NoInput.round_repeat
  round_repeat-Counted fuel channel step_id t (n, keys) self r inv held h =
      let (s, _, h₁) =
        >>=-ok (unwrap (Steps.get_by_sequence_number T B step_id self.steps)) _ _ h in
      let i = step_id - self.steps.num_deleted_steps in
      let left = (NoInput.register keys channel).1 in
      elim (Bool-cases (NoInput.register keys channel).0) [
        | inr woken ↦
            after_repeat-Counted channel step_id i t n keys left StepPoll.pending s self r inv held
              (rw woken at h₁)
        | inl first ↦
            let (result, _, h₂) = >>=-ok (Step.poll T B fuel s) _ _ (rw first at h₁) in
            let ((p, s'), _, h₃) = >>=-ok (unwrap_result result) _ _ h₂ in
            after_repeat-Counted channel step_id i t n keys left p s' self r inv held h₃
      ]

  -- A channel that is abandoned is one that is released.
  abandoned-Counted :
      (channel : ℕ) (status : CallerChannelStatus P.Interpolation)
      (self : NoInputTransposerSource T B P) (r : Round T B P)
      → Counted self.channel_statuses
      → Channels.get_channel_status channel self.channel_statuses ≡ ok status
      → ok (NoInput.abandoned T B P channel status self) ≡ ok r
      → Right r
  unfolding release_channel
  abandoned-Counted channel status self r inv found h =
      let (released, total, counted, is_free, others) =
        release_channel_total self.channel_statuses channel inv in
      let same : Channels.abandon channel status self.channel_statuses ≡ released =
        ok_inj _ released (rw (found, ◌>>=◌) at total) in
      subst Right (ok_inj _ r h) (subst Counted (sym same) counted)

  round-Counted :
      (fuel uuid time channel : ℕ) (status : CallerChannelStatus P.Interpolation)
      (self : NoInputTransposerSource T B P) (r : Round T B P)
      → Counted self.channel_statuses
      → Channels.get_channel_status channel self.channel_statuses ≡ ok status
      → Holds channel self.channel_statuses status
      → round T B P fuel uuid time channel status self ≡ ok r
      → Right r
  round-Counted fuel uuid time channel free self r inv found held h =
      round_free-Counted fuel uuid time channel self r inv held h
  round-Counted fuel uuid time channel (interpolation t i) self r inv found held h =
      elim (Bool-cases (t == time)) [
        | inl same ↦
            after_interpolation-Counted channel t i (P.poll i) self r inv held (rw same at h)
        | inr other ↦ abandoned-Counted channel (interpolation t i) self r inv found (rw other at h)
      ]
  round-Counted fuel uuid time channel (original t) self r inv found held h =
      elim (Bool-cases (t == time)) [
        | inl same ↦ round_original-Counted fuel channel t self r inv held (rw same at h)
        | inr other ↦ abandoned-Counted channel (original t) self r inv found (rw other at h)
      ]
  round-Counted fuel uuid time channel (repeat t step_id w) self r inv found held h =
      elim (Bool-cases (t == time)) [
        | inl same ↦ round_repeat-Counted fuel channel step_id t w self r inv held (rw same at h)
        | inr other ↦
            abandoned-Counted channel (repeat t step_id w) self r inv found (rw other at h)
      ]

  -- Where the numbers of blocked channels are right, they are after a poll for a state that returns.
  pub poll-Counted :
      (rounds fuel time channel : ℕ) (uuids : ℕ → ℕ) (p : NoInput.Poll T B P)
      (self self' : NoInputTransposerSource T B P)
      → Counted self.channel_statuses
      → NoInput.poll T B P rounds fuel uuids time channel self ≡ ok (p, self')
      → Counted self'.channel_statuses
  unfolding NoInput.poll
  poll-Counted zero fuel time channel uuids p self self' inv h = absurd (cc)
  poll-Counted (suc rounds) fuel time channel uuids p self self' inv h =
      let (status, found, h₁) =
        >>=-ok (Channels.get_channel_status channel self.channel_statuses) _ _ h in
      let (r, ran, h₂) = >>=-ok (round T B P fuel (uuids rounds) time channel status self) _ _ h₁ in
      let held = get_channel_status-Holds self.channel_statuses channel status found in
      let kept : Right r =
        round-Counted fuel (uuids rounds) time channel status self r inv found held ran in
      elim (round_cases T B P r) [
        | inl (q, left, e) ↦
            subst (λ (s : NoInputTransposerSource T B P). Counted s.channel_statuses)
              (ok_pair q left p self' (rw e at h₂)) (subst Right e kept)
        | inr (left, e) ↦
            poll-Counted rounds fuel time channel uuids p left self' (subst Right e kept)
              (rw e at h₂)
      ]
