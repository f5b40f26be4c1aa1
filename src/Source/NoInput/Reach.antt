-- ===== src/Source/NoInput/Reach.antt =====
-- source/src/sources/transposer/no_input_transposer.rs: what holds of every state of a source.
use cozal.Prelude.{
  unwrap_ok, unwrap_ok-ok, unwrap-some, ℕ, zero, suc, ◌-◌, ◌≡◌, sym, subst, ◌∙◌, ap, get_elem?,
  get_elem?-last?, last?, length, arith, ok, >>=-ok, ok_inj, ok_pair, ◌⊎◌, inl, inr,
}
use cozal.Transposer.Backend.{Backend}
use cozal.Transposer.Program.{Transposer}
use cozal.Transposer.Step
use cozal.Transposer.Step.{Step, StepStatus, StepPoll, PollErr, saturated, saturating, unsaturated}
use cozal.Source.Steps
use cozal.Source.Steps.{Steps}
use cozal.Source.Steps.Query.{get_before_or_at_events, delete_before}
use cozal.Source.Steps.Delete.{Inv}
use cozal.Source.Steps.Saturate.Kept.{unwrap_result-ok}
use cozal.Source.Steps.Kept.{get_before_or_at_events-Inv}
use cozal.Source.Channels
use cozal.Source.Channels.Counts.{Counted, new-Counted}
use cozal.Source.Channels.Release.{release_channel_total}
use cozal.Source.Trait.Schedule.{status_cases, step_poll_cases}
use cozal.Source.NoInput.Asked.{poll-Inv}
use cozal.Source.NoInput.Counted.{poll-Counted}
use cozal.Source.NoInput
use cozal.Source.NoInput.{Interpolate, NoInputTransposerSource, SourcePoll}
use cozal.Source.Steps.Kept.Calls.{set-Inv, poll-is_unsaturated, delete_before-Inv, new-Inv}

module _ (T : Transposer) (B : Backend T.Scheduled) (P : Interpolate T B) where
  -- The set of checkpoints is that of the steps and has the first one, and the numbers of blocked
  -- channels are right.
  pub record IsSound (self : NoInputTransposerSource T B P) : Type 0 where
    pub steps : Inv T B self.steps
    pub channels : Counted self.channel_statuses

  -- The sources that a new one becomes by polls, advances and releases of channels.
  pub data Reached : NoInputTransposerSource T B P → Type 0 where
    started :
        (uuid start_time : ℕ) (transposer : T.Self) (rng_seed : B.Seed)
        → Reached (NoInput.new T B P uuid transposer start_time rng_seed)
    polled :
        (rounds fuel time : ℕ) (uuids : ℕ → ℕ) (p : SourcePoll T.OutputEvent (Unit {0}))
        (self self' : NoInputTransposerSource T B P)
        → Reached self
        → NoInput.poll_events T B P rounds fuel uuids time self ≡ ok (p, self')
        → Reached self'
    asked :
        (rounds fuel time channel : ℕ) (uuids : ℕ → ℕ) (p : NoInput.Poll T B P)
        (self self' : NoInputTransposerSource T B P)
        → Reached self
        → NoInput.poll T B P rounds fuel uuids time channel self ≡ ok (p, self')
        → Reached self'
    advanced :
        (time : ℕ) (self self' : NoInputTransposerSource T B P)
        → Reached self
        → NoInput.advance T B P time self ≡ ok self'
        → Reached self'
    released :
        (channel : ℕ) (self self' : NoInputTransposerSource T B P)
        → Reached self
        → NoInput.release_channel T B P channel self ≡ ok self'
        → Reached self'

module _ (T : Transposer) (B : Backend T.Scheduled) (P : Interpolate T B) where
  -- A poll of the last step is stored.
  replaced :
      (rounds fuel : ℕ) (self : NoInputTransposerSource T B P) (steps : Steps T B)
      (step step' : Step T B) (result : PollErr ⊎ (StepPoll T.OutputEvent × Step T B))
      (p : StepPoll T.OutputEvent)
      → Inv T B steps
      → IsSound T B P self
      → Steps.get_last T B steps ≡ ok step
      → Step.poll T B fuel step ≡ ok result
      → Steps.unwrap_result result ≡ ok (p, step')
      → IsSound T B P
          (NoInput.replace T B P (length steps.steps - 1) step' (record self { steps = steps }))
  unfolding Steps.get_last
  replaced rounds fuel self steps step step' result p kept sound at_end stepped fine =
      let (i, len, at_i) =
        get_elem?-last? steps.steps step (unwrap-some (last? steps.steps) step at_end) in
      let (before, after) =
        poll-is_unsaturated T B fuel step step' p
          (stepped ∙ ap ok (unwrap_result-ok result (p, step') fine)) in
      let index : length steps.steps - 1 ≡ i = rw len (omega arith) in
      record {
        steps =
            set-Inv T B steps (length steps.steps - 1) step step' kept
              (ap (get_elem? steps.steps) index ∙ at_i) before after;
        channels = sound.channels;
      }

  poll_events-IsSound :
      (rounds fuel time : ℕ) (uuids : ℕ → ℕ) (p : SourcePoll T.OutputEvent (Unit {0}))
      (self self' : NoInputTransposerSource T B P)
      → IsSound T B P self
      → NoInput.poll_events T B P rounds fuel uuids time self ≡ ok (p, self')
      → IsSound T B P self'
  unfolding NoInput.poll_events
  poll_events-IsSound zero fuel time uuids p self self' sound h = absurd (cc)
  poll_events-IsSound (suc rounds) fuel time uuids p self self' sound h =
      let pinned_times = Channels.get_pinned_times self.channel_statuses.blocked_caller_channels in
      let asked = get_before_or_at_events T B (uuids rounds) time pinned_times self.steps in
      let ((status, steps), unwrapped, h₁) = >>=-ok (unwrap_ok asked) _ _ h in
      let found = unwrap_ok-ok asked (status, steps) unwrapped in
      let kept =
        get_before_or_at_events-Inv T B (uuids rounds) time pinned_times self.steps steps status
          sound.steps found in
      let found_sound : IsSound T B P (record self { steps = steps }) = record {
        steps = kept;
        channels = sound.channels;
      } in
      elim (status_cases T B status) [
        | inl (n, e) ↦ subst (IsSound T B P) (ok_pair _ _ p self' (rw e at h₁)) found_sound
        | inr (i, e) ↦
            let (step, at_end, h₂) = >>=-ok (Steps.get_last T B steps) _ _ (rw e at h₁) in
            let (result, stepped, h₃) = >>=-ok (Step.poll T B fuel step) _ _ h₂ in
            let ((polled_step, step'), fine, h₄) = >>=-ok (Steps.unwrap_result result) _ _ h₃ in
            let left =
              replaced rounds fuel self steps step step' result polled_step kept sound at_end
                stepped fine in
            elim (step_poll_cases T B polled_step) [
              | inl again ↦
                  poll_events-IsSound rounds fuel time uuids p _ self' left (rw again at h₄)
              | inr (inl waits) ↦ subst (IsSound T B P) (ok_pair _ _ p self' (rw waits at h₄)) left
              | inr (inr (a, sent)) ↦
                  subst (IsSound T B P) (ok_pair _ _ p self' (rw sent at h₄)) left
            ]
      ]

  advance-IsSound :
      (time : ℕ) (self self' : NoInputTransposerSource T B P)
      → IsSound T B P self
      → NoInput.advance T B P time self ≡ ok self'
      → IsSound T B P self'
  unfolding NoInput.advance
  advance-IsSound time self self' sound h =
      let ((next, steps), deleted, h₁) = >>=-ok (delete_before T B time self.steps) _ _ h in
      subst (IsSound T B P) (ok_inj _ self' h₁) (record {
        steps = delete_before-Inv T B self.steps steps time next sound.steps deleted;
        channels = sound.channels;
      })

  release_channel-IsSound :
      (channel : ℕ) (self self' : NoInputTransposerSource T B P)
      → IsSound T B P self
      → NoInput.release_channel T B P channel self ≡ ok self'
      → IsSound T B P self'
  unfolding NoInput.release_channel
  release_channel-IsSound channel self self' sound h =
      let (statuses, done, h₁) =
        >>=-ok (Channels.release_channel channel self.channel_statuses) _ _ h in
      let (same, total, counted, free, others) =
        release_channel_total self.channel_statuses channel sound.channels in
      subst (IsSound T B P) (ok_inj _ self' h₁) (record {
        steps = sound.steps;
        channels = subst Counted (ok_inj same statuses (sym total ∙ done)) counted;
      })

  -- Whatever a caller does, a source that a new one becomes by polls of events, polls for states, advances
  -- and releases of channels: the set of checkpoints is that of its steps and has the first one, and the
  -- numbers of blocked channels are right.
  pub Reached-IsSound :
      (self : NoInputTransposerSource T B P) → Reached T B P self → IsSound T B P self
  unfolding NoInput.new
  Reached-IsSound _ (started uuid start_time transposer rng_seed) = record {
    steps = new-Inv T B uuid start_time transposer rng_seed;
    channels = new-Counted;
  }
  Reached-IsSound _ (polled rounds fuel time uuids p self self' r h) =
      poll_events-IsSound rounds fuel time uuids p self self' (Reached-IsSound self r) h
  Reached-IsSound _ (asked rounds fuel time channel uuids p self self' r h) =
      let sound = Reached-IsSound self r in
      record {
        steps = poll-Inv T B P rounds fuel time channel uuids p self self' sound.steps h;
        channels = poll-Counted T B P rounds fuel time channel uuids p self self' sound.channels h;
      }
  Reached-IsSound _ (advanced time self self' r h) =
      advance-IsSound time self self' (Reached-IsSound self r) h
  Reached-IsSound _ (released channel self self' r h) =
      release_channel-IsSound channel self self' (Reached-IsSound self r) h
