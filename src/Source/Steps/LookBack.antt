-- ===== src/Source/Steps/LookBack.antt =====
-- source/src/sources/transposer/steps.rs: when the loop of `get_before_or_at_internal` ends.
use cozal.Prelude.{
  ℕ, zero, suc, ◌-◌, ◌≡◌, refl, true, false, some, List, get_elem?, ltb, arith, Bool-cases, inl,
  inr, out_of_fuel, ok, ◌>>=◌,
}
use cozal.Transposer.Backend.{Backend}
use cozal.Transposer.Program.{Transposer}
use cozal.Transposer.Step
use cozal.Transposer.Step.{Step}
use cozal.Source.Steps
use cozal.Source.Steps.{Steps, Found, at, absent, check_first}
use cozal.Source.Steps.Query
use cozal.Source.Steps.Query.{look_back, get_before_or_at, found_or_before}

module _ (T : Transposer) (B : Backend T.Scheduled) (self : Steps T B) where
  unsaturated-not_saturated :
      (s : Step T B) → Step.is_unsaturated T B s ≡ true → Step.is_saturated T B s ≡ false
  unfolding Step.is_unsaturated Step.is_saturated
  unsaturated-not_saturated s h = ground arith

  unsaturated-not_saturating :
      (s : Step T B) → Step.is_unsaturated T B s ≡ true → Step.is_saturating T B s ≡ false
  unfolding Step.is_unsaturated Step.is_saturating
  unsaturated-not_saturating s h = ground arith

  saturating_of_rest :
      (s : Step T B)
      → Step.is_unsaturated T B s ≡ false
      → Step.is_saturated T B s ≡ false
      → Step.is_saturating T B s ≡ true
  unfolding Step.is_unsaturated Step.is_saturating Step.is_saturated
  saturating_of_rest s h k = ground arith

  -- If the step right before the one that is looked for is unsaturated too, the loop never ends.
  pub look_back_diverges :
      (fuel i : ℕ) (pinned_times : List ℕ) (s : Step T B)
      → get_elem? self.steps i ≡ some s
      → Step.is_unsaturated T B s ≡ true
      → look_back T B fuel (suc i) pinned_times self ≡ out_of_fuel
  unfolding look_back
  look_back_diverges zero i pinned_times s found unsat = refl
  look_back_diverges (suc fuel) i pinned_times s found unsat =
      let e : suc i - 1 ≡ i = omega arith in
      let some_index : ltb (suc i) 1 ≡ false = ground arith in
      rw
        (
          look_back,
          some_index,
          e,
          found,
          ◌>>=◌,
          unsaturated-not_saturated s unsat,
          unsaturated-not_saturating s unsat,
        )
        (look_back_diverges fuel i pinned_times s found unsat)

  -- If the step right before the one that is looked for is not unsaturated, the loop ends in its first
  -- round: more rounds give what one gives.
  pub look_back_ends :
      (fuel i : ℕ) (pinned_times : List ℕ) (s : Step T B)
      → get_elem? self.steps i ≡ some s
      → Step.is_unsaturated T B s ≡ false
      → look_back T B (suc fuel) (suc i) pinned_times self
        ≡ look_back T B 1 (suc i) pinned_times self
  unfolding look_back
  look_back_ends fuel i pinned_times s found sat =
      let e : suc i - 1 ≡ i = omega arith in
      let some_index : ltb (suc i) 1 ≡ false = ground arith in
      elim (Bool-cases (Step.is_saturated T B s)) [
        | inl is_sat ↦ rw (look_back, some_index, e, found, ◌>>=◌, is_sat)
        | inr not_sat ↦
            rw (look_back, some_index, e, found, ◌>>=◌, not_sat, saturating_of_rest s sat not_sat)
      ]

  -- A poll of a time whose step is unsaturated, like the step before it, while the last step is not yet
  -- saturated, never returns: no number of rounds is enough.
  pub get_before_or_at_diverges :
      (fuel uuid time i : ℕ) (pinned_times : List ℕ) (last step before : Step T B)
      → Steps.debug_assertions T B self ≡ ok tt
      → Steps.get_last T B self ≡ ok last
      → Step.is_saturated T B last ≡ false
      → found_or_before T B (Steps.binary_search T B time self.steps) ≡ ok (suc i)
      → get_elem? self.steps (suc i) ≡ some step
      → get_elem? self.steps i ≡ some before
      → Step.is_unsaturated T B step ≡ true
      → Step.is_unsaturated T B before ≡ true
      → get_before_or_at T B fuel uuid time pinned_times self ≡ out_of_fuel
  unfolding get_before_or_at Steps.try_next_scheduled
  get_before_or_at_diverges fuel uuid time i pinned_times last step before checked at_end more found
        is_step is_before unsat unsat' =
      rw (
        get_before_or_at,
        Query.get_before_or_at_internal,
        checked,
        Steps.try_next_scheduled,
        at_end,
        ◌>>=◌,
        more,
        found,
        is_step,
        unsaturated-not_saturated step unsat,
        unsaturated-not_saturating step unsat,
        look_back_diverges fuel i pinned_times before is_before unsat',
      )
