-- ===== src/Source/NoInput/Asked.antt =====
-- source/src/sources/transposer/no_input_transposer.rs: a poll for a state keeps the set of checkpoints.
use cozal.Prelude.{
  unwrap_ok, unwrap_ok-ok, unwrap, unwrap-some, ℕ, zero, suc, ◌-◌, ◌==◌, ◌≡◌, refl, sym, subst, ◌∙◌,
  ap, Bool-cases, some, none, Option, List, [], ◌∷◌, get_elem?, get_elem?-last?, last?, length, set,
  ltb, arith, ok, >>=-ok, ok_inj, ok_pair, ◌⊎◌, inl, inr,
}
use cozal.Transposer.Backend.{Backend}
use cozal.Transposer.Program.{Transposer}
use cozal.Transposer.Step
use cozal.Transposer.Step.{Step, StepPoll, PollErr}
use cozal.Source.Steps
use cozal.Source.Steps.{Steps, unwrap_result}
use cozal.Source.Steps.Query.{BeforeStatus, get_before_or_at, saturated, saturating_step}
use cozal.Source.Steps.Delete.{Inv}
use cozal.Source.Steps.Saturate.Kept.{unwrap_result-ok}
use cozal.Source.Steps.Kept.Asked.{get_before_or_at-Inv}
use cozal.Source.Steps.Kept.Calls.{set-Inv, poll-is_unsaturated}
use cozal.Source.Channels
use cozal.Source.Channels.{CallerChannelStatus, free, interpolation, original, repeat}
use cozal.Source.NoInput
use cozal.Source.NoInput.{
  Interpolate, NoInputTransposerSource, Round, returned, continued, round, start,
}

set_same : {A : Type 0} (xs : List A) (i : ℕ) (x : A) → get_elem? xs i ≡ some x → set xs i x ≡ xs
set_same [] i x h = refl
set_same (y ∷ ys) zero x h = ground (arith, h)
set_same (y ∷ ys) (suc i) x h = ap (λ zs. y ∷ zs) (set_same ys i x h)

module _ (T : Transposer) (B : Backend T.Scheduled) (P : Interpolate T B) where
  abbrev round_steps : Round T B P → Steps T B
  round_steps (returned _ self) = self.steps
  round_steps (continued self) = self.steps

  start_same :
      (time channel : ℕ) (status : BeforeStatus T B) (self self' : NoInputTransposerSource T B P)
      → start T B P time channel status self ≡ ok self'
      → self.steps ≡ self'.steps
  start_same time channel (saturated step next) self self' h =
      let ((t, w), _, h₁) = >>=-ok (unwrap_result (Step.interpolate T B time step)) _ _ h in
      ap (λ (s : NoInputTransposerSource T B P). s.steps) (ok_inj _ self' h₁)
  start_same time channel (saturating_step step i) self self' h =
      ap (λ (s : NoInputTransposerSource T B P). s.steps) (ok_inj _ self' h)

  round_free-Inv :
      (fuel uuid time channel : ℕ) (self : NoInputTransposerSource T B P) (r : Round T B P)
      → Inv T B self.steps
      → NoInput.round_free T B P fuel uuid time channel self ≡ ok r
      → Inv T B (round_steps r)
  unfolding NoInput.round_free
  round_free-Inv fuel uuid time channel self r inv h =
      let pinned_times = Channels.get_pinned_times self.channel_statuses.blocked_caller_channels in
      let ((status, steps), found, h₁) =
        >>=-ok (unwrap_ok (get_before_or_at T B fuel uuid time pinned_times self.steps)) _ _ h in
      let (self', started, h₂) =
        >>=-ok (start T B P time channel status (record self { steps = steps })) _ _ h₁ in
      let kept = get_before_or_at-Inv T B fuel uuid time pinned_times self.steps steps status inv (
        unwrap_ok-ok (get_before_or_at T B fuel uuid time pinned_times self.steps) (status, steps)
          found) in
      let same = start_same time channel status (record self { steps = steps }) self' started in
      subst (λ (q : Round T B P). Inv T B (round_steps q)) (ok_inj _ r h₂)
        (subst (Inv T B) same kept)

  after_interpolation-Inv :
      (channel : ℕ) (p : Option P.OutputState × P.Interpolation)
      (self : NoInputTransposerSource T B P) (r : Round T B P)
      → Inv T B self.steps
      → NoInput.after_interpolation T B P channel p self ≡ ok r
      → Inv T B (round_steps r)
  after_interpolation-Inv channel (none, i) self r inv h =
      subst (λ (q : Round T B P). Inv T B (round_steps q)) (ok_inj _ r h) inv
  after_interpolation-Inv channel (some state, i) self r inv h =
      let (t, _, h₁) = >>=-ok (Steps.get_scheduled_time T B self.steps) _ _ h in
      subst (λ (q : Round T B P). Inv T B (round_steps q)) (ok_inj _ r h₁) inv

  after_original-Inv :
      (channel i : ℕ) (p : StepPoll T.OutputEvent) (s : Step T B)
      (self : NoInputTransposerSource T B P)
      → Inv T B (record self.steps { steps = set self.steps.steps i s })
      → Inv T B (round_steps (NoInput.after_original T B P channel i (p, s) self))
  after_original-Inv channel i (StepPoll.emitted e) s self inv = inv
  after_original-Inv channel i StepPoll.pending s self inv = inv
  after_original-Inv channel i StepPoll.ready s self inv = inv

  after_repeat-Inv :
      (channel step_id i : ℕ) (wakers : ℕ × List ℕ) (p : StepPoll T.OutputEvent) (s : Step T B)
      (self : NoInputTransposerSource T B P) (r : Round T B P)
      → Inv T B (record self.steps { steps = set self.steps.steps i s })
      → NoInput.after_repeat T B P channel step_id i wakers (p, s) self ≡ ok r
      → Inv T B (round_steps r)
  after_repeat-Inv channel step_id i wakers (StepPoll.emitted e) s self r inv h = absurd (cc)
  after_repeat-Inv channel step_id i wakers StepPoll.pending s self r inv h =
      subst (λ (q : Round T B P). Inv T B (round_steps q)) (ok_inj _ r h) inv
  after_repeat-Inv channel step_id i wakers StepPoll.ready s self r inv h =
      subst (λ (q : Round T B P). Inv T B (round_steps q)) (ok_inj _ r h) inv

  stepped-Inv :
      (fuel i : ℕ) (self : Steps T B) (s s' : Step T B)
      (result : PollErr ⊎ (StepPoll T.OutputEvent × Step T B)) (p : StepPoll T.OutputEvent)
      → Inv T B self
      → get_elem? self.steps i ≡ some s
      → Step.poll T B fuel s ≡ ok result
      → unwrap_result result ≡ ok (p, s')
      → Inv T B (record self { steps = set self.steps i s' })
  stepped-Inv fuel i self s s' result p inv found stepped fine =
      let (before, after) =
        poll-is_unsaturated T B fuel s s' p
          (stepped ∙ ap ok (unwrap_result-ok result (p, s') fine)) in
      set-Inv T B self i s s' inv found before after

  round_original-Inv :
      (fuel channel : ℕ) (self : NoInputTransposerSource T B P) (r : Round T B P)
      → Inv T B self.steps
      → NoInput.round_original T B P fuel channel self ≡ ok r
      → Inv T B (round_steps r)
  unfolding NoInput.round_original Steps.get_last
  round_original-Inv fuel channel self r inv h =
      let (s, at_end, h₁) = >>=-ok (Steps.get_last T B self.steps) _ _ h in
      let (result, stepped, h₂) = >>=-ok (Step.poll T B fuel s) _ _ h₁ in
      let ((p, s'), fine, h₃) = >>=-ok (unwrap_result result) _ _ h₂ in
      let (i, len, at_i) =
        get_elem?-last? self.steps.steps s (unwrap-some (last? self.steps.steps) s at_end) in
      let index : length self.steps.steps - 1 ≡ i = rw len (omega arith) in
      let found : get_elem? self.steps.steps (length self.steps.steps - 1) ≡ some s =
        ap (get_elem? self.steps.steps) index ∙ at_i in
      subst (λ (q : Round T B P). Inv T B (round_steps q)) (ok_inj _ r h₃)
        (after_original-Inv channel (length self.steps.steps - 1) p s' self (
          stepped-Inv fuel (length self.steps.steps - 1) self.steps s s' result p inv found stepped
            fine))

  at_number :
      (k : ℕ) (self : Steps T B) (s : Step T B)
      → unwrap (Steps.get_by_sequence_number T B k self) ≡ ok s
      → get_elem? self.steps (k - self.num_deleted_steps) ≡ some s
  unfolding Steps.get_by_sequence_number
  at_number k self s h = elim (Bool-cases (ltb k self.num_deleted_steps)) [
    | inl less ↦ absurd (ground (arith, rw less at h))
    | inr more ↦ unwrap-some (get_elem? self.steps (k - self.num_deleted_steps)) s (rw more at h)
  ]

  round_repeat-Inv :
      (fuel channel step_id : ℕ) (wakers : ℕ × List ℕ) (self : NoInputTransposerSource T B P)
      (r : Round T B P)
      → Inv T B self.steps
      → NoInput.round_repeat T B P fuel channel step_id wakers self ≡ ok r
      → Inv T B (round_steps r)
  unfolding NoInput.round_repeat
  round_repeat-Inv fuel channel step_id (n, keys) self r inv h =
      let (s, at_k, h₁) =
        >>=-ok (unwrap (Steps.get_by_sequence_number T B step_id self.steps)) _ _ h in
      let i = step_id - self.steps.num_deleted_steps in
      let found = at_number step_id self.steps s at_k in
      let keys' = (NoInput.register keys channel).1 in
      elim (Bool-cases (NoInput.register keys channel).0) [
        | inr woken ↦
            after_repeat-Inv channel step_id i (n, keys') StepPoll.pending s self r
              (subst (λ ss. Inv T B (record self.steps { steps = ss }))
                (sym (set_same self.steps.steps i s found)) inv)
              (rw woken at h₁)
        | inl first ↦
            let (result, stepped, h₂) = >>=-ok (Step.poll T B fuel s) _ _ (rw first at h₁) in
            let ((p, s'), fine, h₃) = >>=-ok (unwrap_result result) _ _ h₂ in
            after_repeat-Inv channel step_id i (n, keys') p s' self r
              (stepped-Inv fuel i self.steps s s' result p inv found stepped fine) h₃
      ]

  round-Inv :
      (fuel uuid time channel : ℕ) (status : CallerChannelStatus P.Interpolation)
      (self : NoInputTransposerSource T B P) (r : Round T B P)
      → Inv T B self.steps
      → round T B P fuel uuid time channel status self ≡ ok r
      → Inv T B (round_steps r)
  round-Inv fuel uuid time channel free self r inv h =
      round_free-Inv fuel uuid time channel self r inv h
  round-Inv fuel uuid time channel (interpolation t i) self r inv h =
      elim (Bool-cases (t == time)) [
        | inl same ↦ after_interpolation-Inv channel (P.poll i) self r inv (rw same at h)
        | inr other ↦
            subst (λ (q : Round T B P). Inv T B (round_steps q)) (ok_inj _ r (rw other at h)) inv
      ]
  round-Inv fuel uuid time channel (original t) self r inv h = elim (Bool-cases (t == time)) [
    | inl same ↦ round_original-Inv fuel channel self r inv (rw same at h)
    | inr other ↦
        subst (λ (q : Round T B P). Inv T B (round_steps q)) (ok_inj _ r (rw other at h)) inv
  ]
  round-Inv fuel uuid time channel (repeat t step_id wakers) self r inv h =
      elim (Bool-cases (t == time)) [
        | inl same ↦ round_repeat-Inv fuel channel step_id wakers self r inv (rw same at h)
        | inr other ↦
            subst (λ (q : Round T B P). Inv T B (round_steps q)) (ok_inj _ r (rw other at h)) inv
      ]

  pub round_cases :
      (r : Round T B P)
      → ((p : NoInput.Poll T B P) × (self : NoInputTransposerSource T B P) × (r ≡ returned p self))
        ⊎ ((self : NoInputTransposerSource T B P) × (r ≡ continued self))
  round_cases (returned p self) = inl (p, self, refl)
  round_cases (continued self) = inr (self, refl)

  -- Where the set of checkpoints is that of the steps and has the first one, so it is after a poll for a
  -- state that returns, whatever the channel has waited for.
  pub poll-Inv :
      (rounds fuel time channel : ℕ) (uuids : ℕ → ℕ) (p : NoInput.Poll T B P)
      (self self' : NoInputTransposerSource T B P)
      → Inv T B self.steps
      → NoInput.poll T B P rounds fuel uuids time channel self ≡ ok (p, self')
      → Inv T B self'.steps
  unfolding NoInput.poll
  poll-Inv zero fuel time channel uuids p self self' inv h = absurd (cc)
  poll-Inv (suc rounds) fuel time channel uuids p self self' inv h =
      let (status, _, h₁) =
        >>=-ok (Channels.get_channel_status channel self.channel_statuses) _ _ h in
      let (r, ran, h₂) = >>=-ok (round T B P fuel (uuids rounds) time channel status self) _ _ h₁ in
      let kept = round-Inv fuel (uuids rounds) time channel status self r inv ran in
      elim (round_cases r) [
        | inl (q, left, e) ↦
            let here : Inv T B left.steps =
              subst (λ (q : Round T B P). Inv T B (round_steps q)) e kept in
            subst (λ (s : NoInputTransposerSource T B P). Inv T B s.steps)
              (ok_pair q left p self' (rw e at h₂)) here
        | inr (left, e) ↦
            let here : Inv T B left.steps =
              subst (λ (q : Round T B P). Inv T B (round_steps q)) e kept in
            poll-Inv rounds fuel time channel uuids p left self' here (rw e at h₂)
      ]
