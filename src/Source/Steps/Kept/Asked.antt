-- ===== src/Source/Steps/Kept/Asked.antt =====
-- source/src/sources/transposer/steps.rs: the search for the step of a time keeps the set of checkpoints.
use cozal.Prelude.{
  unwrap, ℕ, zero, suc, ◌+◌, ◌-◌, ◌≡◌, refl, sym, subst, ◌∙◌, ap, true, false, Bool-cases, some,
  none, Option, List, get_elem?, ltb, arith, ok, err, >>=-ok, ok_pair, inl, inr, if◌then◌else◌,
}
use cozal.Transposer.Backend.{Backend}
use cozal.Transposer.Program.{Transposer}
use cozal.Transposer.Step
use cozal.Transposer.Step.{Step, StepStatus, saturated, saturating, unsaturated}
use cozal.Source.Steps
use cozal.Source.Steps.{
  Steps, ok_or, BeforeStatusInternal, saturated_ready, saturating_at, all_repeat,
}
use cozal.Source.Steps.Query
use cozal.Source.Steps.Query.{
  look_back, get_before_or_at_internal, get_before_or_at, as_status, found_or_before,
}
use cozal.Source.Steps.Delete.{Inv}
use cozal.Source.Steps.Saturate.Kept.{saturate-Inv}
use cozal.Source.Steps.Kept.{try_next_scheduled-Inv}

ok_or-some : {A : Type 0} (o : Option A) (a : A) → ok_or o ≡ ok a → o ≡ some a
ok_or-some none a h = absurd (cc)
ok_or-some (some b) a h = ground (arith, h)

index_before : (i before : ℕ) → (if ltb i 1 then err else ok (i - 1)) ≡ ok before → i ≡ suc before
index_before i before h = ground (arith, h)

module _ (T : Transposer) (B : Backend T.Scheduled) where
  is_unsaturated_lem :
      (s : Step T B)
      → Step.is_saturated T B s ≡ false
      → Step.is_saturating T B s ≡ false
      → Step.is_unsaturated T B s ≡ true
  unfolding Step.is_saturated Step.is_saturating Step.is_unsaturated
  is_unsaturated_lem s not_saturated not_saturating = go s.status not_saturated not_saturating
    where
      go :
          (status : StepStatus T B)
          → Step.status_is_saturated T B status ≡ false
          → Step.status_is_saturating T B status ≡ false
          → Step.status_is_unsaturated T B status ≡ true
      go unsaturated a b = refl
      go (saturating f) a b = absurd (cc)
      go (saturated w) a b = absurd (cc)

  look_back-Inv :
      (fuel i : ℕ) (pinned_times : List ℕ) (self self' : Steps T B) (status : BeforeStatusInternal)
      (s : Step T B)
      → Inv T B self
      → get_elem? self.steps i ≡ some s
      → Step.is_unsaturated T B s ≡ true
      → look_back T B fuel i pinned_times self ≡ ok (status, self')
      → Inv T B self'
  unfolding look_back
  look_back-Inv zero i pinned_times self self' status s inv found unsat h = absurd (cc)
  look_back-Inv (suc fuel) i pinned_times self self' status s inv found unsat h =
      let (before, at_before, h₁) = >>=-ok (if ltb i 1 then err else ok (i - 1)) _ _ h in
      let next = index_before i before at_before in
      let (step, at_step, h₂) = >>=-ok (ok_or (get_elem? self.steps before)) _ _ h₁ in
      elim (Bool-cases (Step.is_saturated T B step)) [
        | inl ready ↦
            let (moved, done, h₃) =
              >>=-ok (Steps.saturate T B (before + 1 + self.num_deleted_steps) pinned_times self) _
                _ (rw ready at h₂) in
            let number : suc before + self.num_deleted_steps ≡ before + 1 + self.num_deleted_steps =
              omega arith in
            subst (Inv T B) (ok_pair _ moved status self' h₃) (
              saturate-Inv T B self moved before pinned_times step s inv
                (ok_or-some (get_elem? self.steps before) step at_step)
                (ap (get_elem? self.steps) (sym next) ∙ found) unsat
                (ap (λ k. Steps.saturate T B k pinned_times self) number ∙ done))
        | inr other ↦ elim (Bool-cases (Step.is_saturating T B step)) [
          | inl started ↦
              subst (Inv T B) (ok_pair _ self status self' (rw (other, started) at h₂)) inv
          | inr again ↦
              look_back-Inv fuel i pinned_times self self' status s inv found unsat
                (rw (other, again) at h₂)
        ]
      ]

  as_status_same :
      (status : BeforeStatusInternal) (self self' : Steps T B) (b : Query.BeforeStatus T B)
      → as_status T B status self ≡ ok (b, self')
      → self ≡ self'
  unfolding as_status
  as_status_same (saturated_ready i) self self' b h =
      let (t, _, h₁) = >>=-ok (Steps.get_scheduled_time T B self) _ _ h in
      let (step, _, h₂) = >>=-ok (unwrap (get_elem? self.steps i)) _ _ h₁ in
      ok_pair _ self b self' h₂
  as_status_same (saturating_at i) self self' b h =
      let (step, _, h₁) = >>=-ok (unwrap (get_elem? self.steps i)) _ _ h in
      ok_pair _ self b self' h₁
  as_status_same all_repeat self self' b h = absurd (cc)

  get_before_or_at_internal-Inv :
      (fuel uuid time : ℕ) (pinned_times : List ℕ) (self self' : Steps T B)
      (status : BeforeStatusInternal)
      → Inv T B self
      → (get_before_or_at_internal T B fuel uuid time pinned_times false self ≡ ok (status, self'))
      → Inv T B self'
  unfolding get_before_or_at_internal
  get_before_or_at_internal-Inv fuel uuid time pinned_times self self' status inv h =
      let (pushed, tried, h₁) = >>=-ok (Steps.try_next_scheduled T B uuid self) _ _ h in
      let inv' = try_next_scheduled-Inv T B uuid self pushed inv tried in
      let (i, _, h₂) =
        >>=-ok (found_or_before T B (Steps.binary_search T B time pushed.steps)) _ _ h₁ in
      let (step, at_step, h₃) = >>=-ok (ok_or (get_elem? pushed.steps i)) _ _ h₂ in
      elim (Bool-cases (Step.is_saturated T B step)) [
        | inl done ↦ subst (Inv T B) (ok_pair _ pushed status self' (rw done at h₃)) inv'
        | inr other ↦ elim (Bool-cases (Step.is_saturating T B step)) [
          | inl started ↦
              subst (Inv T B) (ok_pair _ pushed status self' (rw (other, started) at h₃)) inv'
          | inr more ↦
              look_back-Inv fuel i pinned_times pushed self' status step inv'
                (ok_or-some (get_elem? pushed.steps i) step at_step)
                (is_unsaturated_lem step other more) (rw (other, more) at h₃)
        ]
      ]

  pub get_before_or_at-Inv :
      (fuel uuid time : ℕ) (pinned_times : List ℕ) (self self' : Steps T B)
      (b : Query.BeforeStatus T B)
      → Inv T B self
      → get_before_or_at T B fuel uuid time pinned_times self ≡ ok (b, self')
      → Inv T B self'
  unfolding get_before_or_at
  get_before_or_at-Inv fuel uuid time pinned_times self self' b inv h =
      let (_, _, h₁) = >>=-ok (Steps.debug_assertions T B self) _ _ h in
      let ((status, found), searched, h₂) =
        >>=-ok (get_before_or_at_internal T B fuel uuid time pinned_times false self) _ _ h₁ in
      subst (Inv T B) (as_status_same status found self' b h₂)
        (get_before_or_at_internal-Inv fuel uuid time pinned_times self found status inv searched)
