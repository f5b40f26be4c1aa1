-- ===== src/Source/NoInput/Polls.antt =====
-- source/src/sources/transposer/no_input_transposer.rs: polls of a channel that waits already.
use cozal.Prelude.{
  ℕ, suc, ◌≡◌, ◌≢◌, refl, true, false, inl, Option, none, some, [], ◌==◌, ok, panic, ◌>>=◌, arith,
}
use cozal.Transposer.Time.{nat_ord}
use cozal.Transposer.Storage.{lookup}
use cozal.Transposer.Backend.{Backend}
use cozal.Transposer.Program.{Transposer}
use cozal.Transposer.Step
use cozal.Transposer.Step.{Step, StepStatus, unsaturated, saturating, saturated}
use cozal.Source.Steps
use cozal.Source.Channels
use cozal.Source.Channels.{
  CallerChannelStatus, Inner, repeat_step, original_step, free, interpolation, original, repeat,
}
use cozal.Source.NoInput
use cozal.Source.NoInput.{Interpolate, NoInputTransposerSource}

module _ (T : Transposer) (B : Backend T.Scheduled) (P : Interpolate T B) where
  -- The time of the poll that a channel waits for.
  abbrev pub waits_for : CallerChannelStatus P.Interpolation → Option ℕ
  waits_for free = none
  waits_for (interpolation t _) = some t
  waits_for (original t) = some t
  waits_for (repeat t _ _) = some t

  same_time : (a b : ℕ) → a ≢ b → (a == b) ≡ false
  same_time a b h = ground arith

  round_other_time :
      (fuel uuid time channel t : ℕ) (status : CallerChannelStatus P.Interpolation)
      (self : NoInputTransposerSource T B P)
      → waits_for status ≡ some t
      → t ≢ time
      → (NoInput.round T B P fuel uuid time channel status self
          ≡ ok (NoInput.abandoned T B P channel status self))
  round_other_time fuel uuid time channel t free self h apart = absurd (cc)
  round_other_time fuel uuid time channel t (interpolation u i) self h apart =
      let e : (u == time) ≡ false = ground arith in rw e refl
  round_other_time fuel uuid time channel t (original u) self h apart =
      let e : (u == time) ≡ false = ground arith in rw e refl
  round_other_time fuel uuid time channel t (repeat u k w) self h apart =
      let e : (u == time) ≡ false = ground arith in rw e refl

  -- A channel that waits for a poll of another time: the poll is that of the source that has released
  -- the channel.
  pub poll_other_time :
      (rounds fuel : ℕ) (uuids : ℕ → ℕ) (time channel t : ℕ)
      (status : CallerChannelStatus P.Interpolation) (self : NoInputTransposerSource T B P)
      → Channels.get_channel_status channel self.channel_statuses ≡ ok status
      → waits_for status ≡ some t
      → t ≢ time
      → (NoInput.poll T B P (suc rounds) fuel uuids time channel self ≡ (
          NoInput.release_channel T B P channel self >>= λ self'.
          NoInput.poll T B P rounds fuel uuids time channel self'))
  unfolding NoInput.poll NoInput.release_channel Channels.release_channel
  poll_other_time rounds fuel uuids time channel t status self h waits apart =
      rw (h, ◌>>=◌, round_other_time fuel (uuids rounds) time channel t status self waits apart)
        refl

  refused :
      (fuel : ℕ) (step : Step T B)
      → Step.is_saturated T B step ≡ true
      → Step.poll T B fuel step ≡ ok (inl Step.poll_saturated)
  unfolding Step.poll Step.is_saturated
  refused fuel step sat = ground arith

  round_repeat_panics :
      (fuel channel step_id n : ℕ) (step : Step T B) (self : NoInputTransposerSource T B P)
      → Steps.get_by_sequence_number T B step_id self.steps ≡ some step
      → Step.is_saturated T B step ≡ true
      → NoInput.round_repeat T B P fuel channel step_id (n, []) self ≡ panic
  unfolding NoInput.round_repeat NoInput.register
  round_repeat_panics fuel channel step_id n step self present sat =
      rw (present, ◌>>=◌, refused fuel step sat) refl

  -- A channel that waits for a step to be saturated again, when the step is saturated already and its
  -- waker has woken the channels: the poll panics, on the `unwrap` of the poll of the step.
  pub poll_saturated_panics :
      (rounds fuel : ℕ) (uuids : ℕ → ℕ) (time channel step_id n : ℕ) (step : Step T B)
      (self : NoInputTransposerSource T B P)
      → (lookup ⦃o = nat_ord⦄ channel self.channel_statuses.blocked_caller_channels
          ≡ some (record { poll_time = time; inner = repeat_step step_id }))
      → (lookup ⦃o = nat_ord⦄ step_id self.channel_statuses.blocked_repeat_step_wakers
          ≡ some (n, []))
      → Steps.get_by_sequence_number T B step_id self.steps ≡ some step
      → Step.is_saturated T B step ≡ true
      → NoInput.poll T B P (suc rounds) fuel uuids time channel self ≡ panic
  unfolding NoInput.poll Channels.get_channel_status
  poll_saturated_panics rounds fuel uuids time channel step_id n step self found wakers present
        sat =
      let status : Channels.get_channel_status channel self.channel_statuses
          ≡ ok (repeat time step_id (n, [])) =
        rw (Channels.get_channel_status, found, Channels.status_of, wakers) refl in
      let now : (time == time) ≡ true = ground arith in
      rw (status, ◌>>=◌, now, round_repeat_panics fuel channel step_id n step self present sat) refl
