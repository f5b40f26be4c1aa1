-- ===== src/Source/Steps/Saturate/Kept.antt =====
-- source/src/sources/transposer/steps.rs: the set of checkpoints stays that of the steps whenever `saturate`
-- returns.
use cozal.Prelude.{
  ℕ, suc, ◌+◌, ◌≡◌, refl, sym, subst, ◌∙◌, ap, Bool, true, false, Bool-cases, some, List, get_elem?,
  arith, ok, ◌>>=◌, >>=-ok, ok_inj, ◌⊎◌, inl, inr,
}
use cozal.Transposer.Backend.{Backend}
use cozal.Transposer.Program.{Transposer}
use cozal.Transposer.Wrapped.{WrappedTransposer}
use cozal.Transposer.Step
use cozal.Transposer.Step.{Step, StepStatus, saturated, saturating, unsaturated}
use cozal.Source.Steps
use cozal.Source.Steps.{Steps, unwrap_result}
use cozal.Source.Steps.Delete.{Inv}
use cozal.Source.Steps.Saturate.{Startable, make_room_total, sequence_number_to_delete-Chosen}
use cozal.Source.Steps.Saturate.Adjacent.{Starts, saturate_chosen}

pub unwrap_result-ok : {E A : Type 0} (x : E ⊎ A) (a : A) → unwrap_result x ≡ ok a → x ≡ inr a
unwrap_result-ok (inl e) a h = absurd (cc)
unwrap_result-ok (inr b) a h = ground (arith, h)

module _ (T : Transposer) (B : Backend T.Scheduled) where
  -- Where a step is cloned or taken, its predecessor is saturated and can start it.
  status_of_clone :
      (step step' : Step T B) (status : StepStatus T B)
      → (elim status [
        | saturated w ↦ (Step.saturate T B w step >>= λ s. ok (inr s))
        | _ ↦ ok (inl Step.previous_not_saturated)
      ])
        ≡ ok (inr step')
      → (w : WrappedTransposer T B) × (status ≡ saturated w) × (Step.saturate T B w step ≡ ok step')
  status_of_clone step step' unsaturated h = absurd (cc)
  status_of_clone step step' (saturating f) h = absurd (cc)
  status_of_clone step step' (saturated w) h =
      let (s, e, h₁) = >>=-ok (Step.saturate T B w step) _ _ h in (w, refl, e ∙ ground (arith, h₁))

  saturate_clone-Starts :
      (step prev step' : Step T B)
      → Step.is_unsaturated T B step ≡ true
      → Step.saturate_clone T B step prev ≡ ok (inr step')
      → Starts T B prev step step'
  unfolding Step.saturate_clone
  saturate_clone-Starts step prev step' waits h =
      elim (Bool-cases (Step.is_previous step.uuid_prev prev.uuid_self)) [
        | inl follows ↦
            let (w, ready, started) = status_of_clone step step' prev.status (rw follows at h) in
            record {
              transposer = w;
              ready = ready;
              follows = follows;
              waits = waits;
              started = started;
            }
        | inr other ↦ absurd (ground (arith, rw other at h))
      ]

  saturate_take-saturate_clone :
      (step prev step' prev' : Step T B)
      → Step.saturate_take T B step prev ≡ ok (inr (step', prev'))
      → Step.saturate_clone T B step prev ≡ ok (inr step')
  unfolding Step.saturate_take Step.saturate_clone
  saturate_take-saturate_clone step prev step' prev' h = ground (arith, h)

  saturate_adjacent-Starts :
      (self self' : Steps T B) (i : ℕ) (take : Bool) (prev step : Step T B)
      → get_elem? self.steps i ≡ some prev
      → get_elem? self.steps (suc i) ≡ some step
      → Step.is_unsaturated T B step ≡ true
      → Steps.saturate_adjacent T B (suc i) take self ≡ ok self'
      → (step' : Step T B) × Starts T B prev step step'
  unfolding Steps.saturate_adjacent
  saturate_adjacent-Starts self self' i true prev step at_prev at_step waits h =
      let (r, e, h₁) =
        >>=-ok (Step.saturate_take T B step prev) _ _ (rw (at_prev, at_step, ◌>>=◌) at h) in
      let ((step', prev'), e', h₂) = >>=-ok (unwrap_result r) _ _ h₁ in
      (
        step',
        saturate_clone-Starts step prev step' waits (
            saturate_take-saturate_clone step prev step' prev'
              (e ∙ ap ok (unwrap_result-ok r (step', prev') e'))),
      )
  saturate_adjacent-Starts self self' i false prev step at_prev at_step waits h =
      let (r, e, h₁) =
        >>=-ok (Step.saturate_clone T B step prev) _ _ (rw (at_prev, at_step, ◌>>=◌) at h) in
      let (step', e', h₂) = >>=-ok (unwrap_result r) _ _ h₁ in
      (step', saturate_clone-Starts step prev step' waits (e ∙ ap ok (unwrap_result-ok r step' e')))

  pub saturate-Inv :
      (self self' : Steps T B) (i : ℕ) (pinned_times : List ℕ) (prev step : Step T B)
      → Inv T B self
      → get_elem? self.steps i ≡ some prev
      → get_elem? self.steps (suc i) ≡ some step
      → Step.is_unsaturated T B step ≡ true
      → Steps.saturate T B (suc i + self.num_deleted_steps) pinned_times self ≡ ok self'
      → Inv T B self'
  unfolding Steps.saturate
  saturate-Inv self self' i pinned_times prev step inv at_prev at_step waits h =
      let k = suc i + self.num_deleted_steps in
      let (o, to_desaturate, h₁) =
        >>=-ok (Steps.sequence_number_to_delete T B pinned_times k self) _ _ h in
      let start : Startable T B self i prev step = record {
        marked = inv.marked;
        at_prev = at_prev;
        at_step = at_step;
      } in
      let chosen = sequence_number_to_delete-Chosen T B self inv pinned_times k o to_desaturate in
      let (take, made, room, same, start') =
        make_room_total T B self inv i prev step o start waits chosen in
      let index : Steps.sub k made.num_deleted_steps ≡ ok (suc i) = rw same (ground arith) in
      let (moved, adjacent, h₂) =
        >>=-ok (Steps.saturate_adjacent T B (suc i) take made) _ _
          (rw (room, ◌>>=◌, index) at h₁) in
      let (step', starts) =
        saturate_adjacent-Starts made moved i take prev step start'.at_prev start'.at_step waits
          adjacent in
      let (self'', done, inv', here) =
        saturate_chosen T B starts self i pinned_times o inv at_prev at_step to_desaturate in
      subst (Inv T B) (ok_inj self'' self' (sym done ∙ h)) inv'
