-- ===== src/Source/Steps/Kept.antt =====
-- source/src/sources/transposer/steps.rs: the set of checkpoints stays that of the steps whenever a poll of
-- events returns.
pub mod Calls
pub mod Asked
use cozal.Prelude.{
  unwrap, unwrap-some, ℕ, zero, suc, ◌+◌, ◌-◌, ◌≡◌, refl, sym, subst, ◌∙◌, ap, Bool, true, false,
  Bool-cases, some, none, Option, Option-cases, List, [], ◌∷◌, ◌++◌, get_elem?, get_elem?-last?,
  last?, set, length, ltb, leb, arith, Outcome, ok, err, panic, out_of_fuel, ◌>>=◌, >>=-ok, ok_inj,
  ok_pair, ◌⊎◌, inl, inr, if◌then◌else◌,
}
use cozal.Transposer.Backend.{Backend}
use cozal.Transposer.Program.{Transposer}
use cozal.Transposer.Wrapped.{WrappedTransposer}
use cozal.Transposer.Step
use cozal.Transposer.Step.{Step, StepStatus, saturated, saturating, unsaturated}
use cozal.Transposer.Metadata
use cozal.Transposer.Time.{ScheduledTime}
use cozal.Source.Sets
use cozal.Source.Steps.Events.{push-Inv}
use cozal.Source.Steps
use cozal.Source.Steps.{Steps, unwrap_result}
use cozal.Source.Steps.Query
use cozal.Source.Steps.Query.{
  BeforeStatusEvents, get_before_or_at_events, delete_before, is_settled,
}
use cozal.Source.Steps.Delete.{marks, Inv}
use cozal.Source.Steps.Saturate.{
  contains-marks, Startable, make_room_total, sequence_number_to_delete-Chosen,
}
use cozal.Source.Steps.Saturate.Adjacent.{Starts, saturate_chosen}
use cozal.Source.Steps.Saturate.Kept.{unwrap_result-ok, saturate-Inv}

module _ (T : Transposer) (B : Backend T.Scheduled) where
  -- A new step behind the last one is unsaturated.
  next_of-is_unsaturated :
      (uuid prev : ℕ) (t : Option ScheduledTime) (s : Step T B)
      → Step.without_inputs T B (inr (Step.next_of T B uuid prev (Step.choose_data none t)))
        ≡ inr (some s)
      → Step.is_unsaturated T B s ≡ true
  unfolding Step.is_unsaturated
  next_of-is_unsaturated uuid prev none s h = absurd (cc)
  next_of-is_unsaturated uuid prev (some t) s h = ground (arith, h)

  next_scheduled-is_unsaturated :
      (uuid : ℕ) (last s : Step T B)
      → Step.next_scheduled_unsaturated T B uuid last ≡ inr (some s)
      → Step.is_unsaturated T B s ≡ true
  unfolding Step.next_scheduled_unsaturated
  next_scheduled-is_unsaturated uuid last s h = go last.status h
    where
      go :
          (status : StepStatus T B)
          → Step.without_inputs T B (elim status [
            | saturated w ↦ inr (
                Step.next_of T B uuid last.uuid_self
                  (Step.choose_data none (Metadata.get_next_scheduled_time B w.metadata)))
            | _ ↦ inl Step.next_not_saturated
          ])
            ≡ inr (some s)
          → Step.is_unsaturated T B s ≡ true
      go unsaturated e = absurd (cc)
      go (saturating f) e = absurd (cc)
      go (saturated w) e =
          next_of-is_unsaturated uuid last.uuid_self (Metadata.get_next_scheduled_time B w.metadata)
            s e

  pub try_next_scheduled-Inv :
      (uuid : ℕ) (self self' : Steps T B)
      → Inv T B self
      → Steps.try_next_scheduled T B uuid self ≡ ok self'
      → Inv T B self'
  unfolding Steps.try_next_scheduled
  try_next_scheduled-Inv uuid self self' inv h =
      let (last, _, h₁) = >>=-ok (Steps.get_last T B self) _ _ h in
      elim (Bool-cases (Step.is_saturated T B last)) [
        | inr more ↦ subst (Inv T B) (ok_inj self self' (rw more at h₁)) inv
        | inl done ↦
            let (o, e, h₂) =
              >>=-ok (unwrap_result (Step.next_scheduled_unsaturated T B uuid last)) _ _
                (rw done at h₁) in
            let made = unwrap_result-ok (Step.next_scheduled_unsaturated T B uuid last) o e in
            subst (Inv T B) (ok_inj (Steps.push T B o self) self' h₂) (pushed last o made)
      ]
    where
      pushed :
          (last : Step T B) (o : Option (Step T B))
          → Step.next_scheduled_unsaturated T B uuid last ≡ inr o
          → Inv T B (Steps.push T B o self)
      pushed last none made = inv
      pushed last (some s) made =
          push-Inv T B self s (next_scheduled-is_unsaturated uuid last s made) inv

  get_elem?-pred :
      {A : Type 0} (xs : List A) (i : ℕ) (x : A)
      → get_elem? xs (suc i) ≡ some x
      → (y : A) × (get_elem? xs i ≡ some y)
  get_elem?-pred [] i x h = absurd (cc)
  get_elem?-pred (y ∷ ys) zero x h = (y, refl)
  get_elem?-pred (y ∷ ys) (suc i) x h = get_elem?-pred ys i x h

  -- The last step, when it is unsaturated, has a predecessor.
  last_unsaturated :
      (self : Steps T B) (last : Step T B) (index : ℕ)
      → Inv T B self
      → Steps.get_last T B self ≡ ok last
      → Steps.max_sequence_number T B self ≡ ok index
      → Step.is_unsaturated T B last ≡ true
      → (i : ℕ) × (prev : Step T B) × (index ≡ suc i + self.num_deleted_steps)
        × (get_elem? self.steps i ≡ some prev)
        × (get_elem? self.steps (suc i) ≡ some last)
  unfolding Steps.get_last Steps.max_sequence_number
  last_unsaturated self last index inv at_end number unsat =
      let (j, len, at_j) =
        get_elem?-last? self.steps last (unwrap-some (last? self.steps) last at_end) in
      go j len at_j
    where
      go :
          (j : ℕ)
          → length self.steps ≡ suc j
          → get_elem? self.steps j ≡ some last
          → (i : ℕ) × (prev : Step T B) × (index ≡ suc i + self.num_deleted_steps)
            × (get_elem? self.steps i ≡ some prev)
            × (get_elem? self.steps (suc i) ≡ some last)
      go zero len at_j =
          let (a, first, sat) = inv.front in absurd (ground (arith, first, at_j, sat, unsat))
      go (suc i) len at_j =
          let (prev, at_prev) = get_elem?-pred self.steps i last at_j in
          (i, prev, ground (arith, rw len at number), at_prev, at_j)

  pub get_before_or_at_events-Inv :
      (uuid time : ℕ) (pinned_times : List ℕ) (self self' : Steps T B) (status : BeforeStatusEvents)
      → Inv T B self
      → get_before_or_at_events T B uuid time pinned_times self ≡ ok (status, self')
      → Inv T B self'
  unfolding get_before_or_at_events
  get_before_or_at_events-Inv uuid time pinned_times self self' status inv h =
      let (_, _, h₁) = >>=-ok (Steps.debug_assertions T B self) _ _ h in
      let (pushed, tried, h₂) = >>=-ok (Steps.try_next_scheduled T B uuid self) _ _ h₁ in
      let inv' = try_next_scheduled-Inv uuid self pushed inv tried in
      let (index, number, h₃) = >>=-ok (Steps.max_sequence_number T B pushed) _ _ h₂ in
      let (last, at_end, h₄) = >>=-ok (Steps.get_last T B pushed) _ _ h₃ in
      elim (Bool-cases (is_settled T B time last)) [
        | inl settled ↦ subst (Inv T B) (ok_pair _ pushed status self' (rw settled at h₄)) inv'
        | inr more ↦ elim (Bool-cases (Step.is_unsaturated T B last)) [
          | inr started ↦
              subst (Inv T B) (ok_pair _ pushed status self' (rw (more, started) at h₄)) inv'
          | inl unsat ↦
              let (i, prev, e, at_prev, at_last) =
                last_unsaturated pushed last index inv' at_end number unsat in
              let (moved, done, h₅) =
                >>=-ok (Steps.saturate T B index pinned_times pushed) _ _
                  (rw (more, unsat) at h₄) in
              subst (Inv T B) (ok_pair _ moved status self' h₅) (
                saturate-Inv T B pushed moved i pinned_times prev last inv' at_prev at_last unsat
                  (ap (λ k. Steps.saturate T B k pinned_times pushed) (sym e) ∙ done))
        ]
      ]
