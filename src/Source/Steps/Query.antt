-- ===== src/Source/Steps/Query.antt =====
-- source/src/sources/transposer/steps.rs: which step a poll has to wait for, and the deletion of steps
-- that no later poll needs.
use cozal.Prelude.{
  unwrap, ℕ, zero, suc, ◌+◌, ◌-◌, Bool, true, false, ◌||◌, not, Option, none, some, List, [], ◌∷◌,
  length, get_elem?, drop, ltb, leb, if◌then◌else◌, Outcome, ok, err, panic, out_of_fuel, ◌>>=◌,
}
use cozal.Transposer.Backend.{Backend}
use cozal.Transposer.Program.{Transposer}
use cozal.Transposer.Step
use cozal.Transposer.Step.{Step}
use cozal.Source.Sets
use cozal.Source.Steps
use cozal.Source.Steps.{
  Steps, Found, at, absent, ok_or, sub, BeforeStatusInternal, saturated_ready, saturating_at,
  all_repeat,
}

-- `BeforeStatusEvents`; the step of `saturating` is the last one.
pub data BeforeStatusEvents : Type 0 where
  ready : Option ℕ → BeforeStatusEvents
  saturating : ℕ → BeforeStatusEvents

module _ (T : Transposer) (B : Backend T.Scheduled) where
  -- `BeforeStatus`: the step, which `saturating` gives with its sequence number.
  pub data BeforeStatus : Type 0 where
    saturated : Step T B → Option ℕ → BeforeStatus
    saturating_step : Step T B → ℕ → BeforeStatus

module _ (T : Transposer) (B : Backend T.Scheduled) where
  -- `time < last_step.get_time() || !last_step.can_produce_events()`
  abbrev pub is_settled : ℕ → Step T B → Bool
  is_settled time last_step =
      ltb time (Step.get_time T B last_step) || not last_step.can_produce_events

  unfoldable pub get_before_or_at_events :
      ℕ → ℕ → List ℕ → Steps T B → Outcome (BeforeStatusEvents × Steps T B)
  get_before_or_at_events uuid time pinned_times self₀ = do
    _ ← Steps.debug_assertions T B self₀
    self ← Steps.try_next_scheduled T B uuid self₀
    last_step_index ← Steps.max_sequence_number T B self
    last_step ← Steps.get_last T B self
    let next_time =
        if last_step.can_produce_events then some (Step.get_time T B last_step) else none
    elim (is_settled time last_step) [
      | true ↦ ok (ready next_time, self)
      | false ↦ elim (Step.is_unsaturated T B last_step) [
        | true ↦ do
          self' ← Steps.saturate T B last_step_index pinned_times self
          ok (saturating last_step_index, self')
        | false ↦ ok (saturating last_step_index, self)
      ]
    ]

  -- The loop that looks for a step before `vecdeque_index` which is not unsaturated. A round binds a
  -- new `vecdeque_index` of its own, so the next round starts from the same index again.
  unfoldable pub look_back : ℕ → ℕ → List ℕ → Steps T B → Outcome (BeforeStatusInternal × Steps T B)
  look_back zero vecdeque_index pinned_times self = out_of_fuel
  look_back (suc fuel) vecdeque_index pinned_times self = do
    before ← (if ltb vecdeque_index 1 then err else ok (vecdeque_index - 1))
    step ← ok_or (get_elem? self.steps before)
    elim (Step.is_saturated T B step) [
      | true ↦ do
        self' ← Steps.saturate T B (before + 1 + self.num_deleted_steps) pinned_times self
        ok (saturating_at (before + 1), self')
      | false ↦ elim (Step.is_saturating T B step) [
        | true ↦ ok (saturating_at before, self)
        | false ↦ look_back fuel vecdeque_index pinned_times self
      ]
    ]

  abbrev pub found_or_before : Found → Outcome ℕ
  found_or_before (at i) = ok i
  found_or_before (absent zero) = err
  found_or_before (absent (suc i)) = ok i

  unfoldable pub get_before_or_at_internal :
      ℕ → ℕ → ℕ → List ℕ → Bool → Steps T B → Outcome (BeforeStatusInternal × Steps T B)
  get_before_or_at_internal fuel uuid time pinned_times events_only self₀ = do
    self ← Steps.try_next_scheduled T B uuid self₀
    elim events_only [
      | true ↦ do
        last_step ← Steps.get_last T B self
        last_index ← Steps.max_sequence_number T B self
        ok (if is_settled time last_step then all_repeat else saturating_at last_index, self)
      | false ↦ do
        vecdeque_index ← found_or_before (Steps.binary_search T B time self.steps)
        step ← ok_or (get_elem? self.steps vecdeque_index)
        elim (Step.is_saturated T B step) [
          | true ↦ ok (saturated_ready vecdeque_index, self)
          | false ↦ elim (Step.is_saturating T B step) [
            | true ↦ ok (saturating_at vecdeque_index, self)
            | false ↦ look_back fuel vecdeque_index pinned_times self
          ]
        ]
    ]

  -- What `get_before_or_at` makes of the internal status.
  unfoldable pub as_status :
      BeforeStatusInternal → Steps T B → Outcome (BeforeStatus T B × Steps T B)
  as_status (saturated_ready i) self = do
    next_time ← Steps.get_scheduled_time T B self
    step ← unwrap (get_elem? self.steps i)
    ok (saturated step next_time, self)
  as_status (saturating_at i) self = do
    step ← unwrap (get_elem? self.steps i)
    ok (saturating_step step (i + self.num_deleted_steps), self)
  as_status all_repeat self = panic

  unfoldable pub get_before_or_at :
      ℕ → ℕ → ℕ → List ℕ → Steps T B → Outcome (BeforeStatus T B × Steps T B)
  unfolding as_status get_before_or_at_internal
  get_before_or_at fuel uuid time pinned_times self₀ = do
    _ ← Steps.debug_assertions T B self₀
    (status, self) ← get_before_or_at_internal fuel uuid time pinned_times false self₀
    as_status status self

  unfoldable pub first_unsaturated : List (Step T B) → Option ℕ
  first_unsaturated [] = none
  first_unsaturated (s ∷ rest) =
      if Step.is_unsaturated T B s then some (Step.get_time T B s) else first_unsaturated rest

  unfoldable pub earliest_poll_time : Steps T B → Option ℕ
  unfolding first_unsaturated
  earliest_poll_time self = first_unsaturated self.steps

  -- `time <= t`, for an earlier call with `t`.
  abbrev pub is_deleted : Option ℕ → ℕ → Bool
  is_deleted none time = false
  is_deleted (some t) time = leb time t

  -- The steps from the one on that a poll at or after `time` may start from.
  unfoldable pub keep_from : ℕ → ℕ → ℕ → Steps T B → Steps T B
  keep_from time sequence_number i self = record self {
    deleted_before = some time;
    steps = drop i self.steps;
    num_deleted_steps = self.num_deleted_steps + i;
    not_unsaturated = Sets.from sequence_number self.not_unsaturated;
  }

  unfoldable pub delete_before : ℕ → Steps T B → Outcome (Option ℕ × Steps T B)
  unfolding earliest_poll_time
  delete_before time self = do
    _ ← Steps.debug_assertions T B self
    elim (is_deleted self.deleted_before time) [
      | true ↦ ok (earliest_poll_time self, self)
      | false ↦ do
        sequence_number ← Steps.get_not_unsaturated_before_or_at_time T B time self
        i ← sub sequence_number self.num_deleted_steps
        _ ← (if ltb (length self.steps) i then panic else ok (tt {0}))
        let kept = keep_from time sequence_number i self
        ok (earliest_poll_time kept, kept)
    ]
