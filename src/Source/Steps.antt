-- ===== src/Source/Steps.antt =====
-- source/src/sources/transposer/steps.rs: the steps of a transposer without inputs, of which some are
-- kept saturated as checkpoints.
pub mod Query
pub mod LookBack
pub mod Advance
pub mod Delete
pub mod Marks
pub mod Saturate
pub mod Events
pub mod Stands
pub mod Kept
pub mod Search
pub mod Choice
use cozal.Prelude.{
  ℕ, zero, suc, ◌+◌, ◌-◌, Bool, true, false, ◌||◌, ◌&&◌, not, ◌⊎◌, inl, inr, Option, none, some,
  List, [], ◌∷◌, ◌++◌, length, get_elem?, set, drop, last?, ltb, leb, ◌==◌, if◌then◌else◌, Outcome,
  ok, err, panic, out_of_fuel, ◌>>=◌, Ordering, compare, unwrap,
}
use cozal.Transposer.Backend.{Backend}
use cozal.Transposer.Program.{Transposer}
use cozal.Transposer.Step
use cozal.Transposer.Step.{Step, SaturateErr, NextUnsaturatedErr}
use cozal.Source.Sets

module _ (T : Transposer) (B : Backend T.Scheduled) where
  -- A `StepWrapper` has the one field `step`.
  pub record Steps : Type 0 where
    pub steps : List (Step T B)
    pub not_unsaturated : List ℕ
    pub num_deleted_steps : ℕ
    pub deleted_before : Option ℕ
    pub number_of_checkpoints : ℕ

-- `binary_search_by_key`: the index of the time, or where it would stand.
pub data Found : Type 0 where
  at : ℕ → Found
  absent : ℕ → Found

pub data BeforeStatusInternal : Type 0 where
  saturated_ready : ℕ → BeforeStatusInternal
  saturating_at : ℕ → BeforeStatusInternal
  all_repeat : BeforeStatusInternal

-- `ok_or(())`, and a subtraction that panics below 0.
abbrev pub ok_or {ℓ} : {A : Type ℓ} → Option A → Outcome A
ok_or none = err
ok_or (some a) = ok a

abbrev pub sub : ℕ → ℕ → Outcome ℕ
sub a b = if ltb a b then panic else ok (a - b)

abbrev pub unwrap_result {ℓ κ} : {E : Type ℓ} {A : Type κ} → E ⊎ A → Outcome A
unwrap_result (inl e) = panic
unwrap_result (inr a) = ok a

-- The step before or at a time, by `Ok(i) => i, Err(i) => i - 1`.
abbrev pub before_or_at : Found → Outcome ℕ
before_or_at (at i) = ok i
before_or_at (absent i) = sub i 1

abbrev pub shift_found : Found → Found
shift_found (at i) = at (suc i)
shift_found (absent i) = absent (suc i)

module _ (T : Transposer) (B : Backend T.Scheduled) where
  unfoldable pub new : ℕ → T.Self → ℕ → B.Seed → Steps T B
  new uuid transposer start_time rng_seed = record {
    steps = Step.new_init T B uuid transposer start_time rng_seed ∷ [];
    not_unsaturated = 0 ∷ [];
    num_deleted_steps = 0;
    deleted_before = none;
    number_of_checkpoints = 30;
  }

  -- On times that ascend, as those of steps do, the search of the library finds this index.
  unfoldable pub binary_search : ℕ → List (Step T B) → Found
  binary_search time [] = absent 0
  binary_search time (s ∷ rest) = elim (compare (Step.get_time T B s) time) [
    | Ordering.lt ↦ shift_found (binary_search time rest)
    | Ordering.eq ↦ at 0
    | Ordering.gt ↦ absent 0
  ]

  unfoldable pub get_by_sequence_number : ℕ → Steps T B → Option (Step T B)
  get_by_sequence_number i self =
      if ltb i self.num_deleted_steps
      then none
      else get_elem? self.steps (i - self.num_deleted_steps)

  unfoldable pub get_last : Steps T B → Outcome (Step T B)
  get_last self = unwrap (last? self.steps)

  unfoldable pub get_scheduled_time : Steps T B → Outcome (Option ℕ)
  unfolding get_last
  get_scheduled_time self = do
    step ← get_last self
    ok (if Step.is_saturated T B step then none else some (Step.get_time T B step))

  unfoldable pub max_sequence_number : Steps T B → Outcome ℕ
  max_sequence_number self = sub (self.num_deleted_steps + length self.steps) 1

  -- `assert_eq!(self.num_deleted_steps, *self.not_unsaturated.first().unwrap())`
  abbrev pub check_first : ℕ → List ℕ → Outcome (Unit {0})
  check_first n [] = panic
  check_first n (first ∷ _) = if n == first then ok tt else panic

  unfoldable pub debug_assertions : Steps T B → Outcome (Unit {0})
  debug_assertions self = check_first self.num_deleted_steps self.not_unsaturated

  unfoldable pub desaturate : ℕ → Steps T B → Outcome (Steps T B)
  desaturate i self = do
    step ← unwrap (get_elem? self.steps i)
    ok (record self {
      steps = set self.steps i (Step.desaturate T B step);
      not_unsaturated = Sets.remove (i + self.num_deleted_steps) self.not_unsaturated;
    })

  unfoldable pub get_not_unsaturated_before_or_at_time : ℕ → Steps T B → Outcome ℕ
  unfolding binary_search
  get_not_unsaturated_before_or_at_time time self = do
    i ← before_or_at (binary_search time self.steps)
    unwrap (last? (Sets.up_to (i + self.num_deleted_steps) self.not_unsaturated))

  -- `while self.steps.front().unwrap().step.is_unsaturated()`
  unfoldable pub drop_unsaturated : List (Step T B) → ℕ → Outcome (List (Step T B) × ℕ)
  drop_unsaturated [] deleted = panic
  drop_unsaturated (s ∷ rest) deleted = elim (Step.is_unsaturated T B s) [
    | true ↦ drop_unsaturated rest (deleted + 1)
    | false ↦ ok (s ∷ rest, deleted)
  ]

  unfoldable pub ensure_first_step_is_not_unsaturated : Steps T B → Outcome (Steps T B)
  unfolding drop_unsaturated
  ensure_first_step_is_not_unsaturated self = do
    (steps, deleted) ← drop_unsaturated self.steps self.num_deleted_steps
    ok (record self { steps = steps; num_deleted_steps = deleted })

  abbrev pub needed_pinned : Steps T B → List ℕ → Outcome (List ℕ)
  needed_pinned self [] = ok []
  needed_pinned self (t ∷ ts) = do
    i ← get_not_unsaturated_before_or_at_time t self
    rest ← needed_pinned self ts
    ok (i ∷ rest)

  -- The candidates: what is not among the needed steps.
  unfoldable pub not_needed : List ℕ → List ℕ → List ℕ
  not_needed needed [] = []
  not_needed needed (i ∷ is) =
      if Sets.contains i needed then not_needed needed is else i ∷ not_needed needed is

  -- `first_time < deleted_before && first + 1 == newly_saturated`
  abbrev pub first_is_spent : Option ℕ → ℕ → ℕ → ℕ → Bool
  first_is_spent none first_time first newly = false
  first_is_spent (some t) first_time first newly = ltb first_time t && first + 1 == newly

  unfoldable pub choose_to_delete : List ℕ → ℕ → ℕ → ℕ → Steps T B → Outcome (Option ℕ)
  unfolding not_needed
  choose_to_delete pinned_times newly_saturated first last self = do
    pinned ← needed_pinned self pinned_times
    let latest = if last + 1 == newly_saturated then [] else last ∷ []
    ok (Sets.least (not_needed (first ∷ latest ++ pinned) self.not_unsaturated))

  unfoldable pub sequence_number_to_delete : List ℕ → ℕ → Steps T B → Outcome (Option ℕ)
  unfolding choose_to_delete
  sequence_number_to_delete pinned_times newly_saturated self = do
    first ← unwrap (get_elem? self.not_unsaturated 0)
    front ← unwrap (get_elem? self.steps 0)
    last ← unwrap (last? self.not_unsaturated)
    let rest = choose_to_delete pinned_times newly_saturated first last self
    let spent = first_is_spent self.deleted_before (Step.get_time T B front) first newly_saturated
    let few = ltb (length self.not_unsaturated) self.number_of_checkpoints
    if spent then ok (some first) else (if few then ok none else rest)

  -- `get_step_and_prev_mut` of the source is these two reads.
  abbrev pub get_prev : ℕ → Steps T B → Outcome (Step T B)
  get_prev zero self = panic
  get_prev (suc i) self = unwrap (get_elem? self.steps i)

  abbrev pub store_taken : ℕ → Step T B × Step T B → Steps T B → Outcome (Steps T B)
  store_taken i (step, prev) self = do
    taken ← sub (i + self.num_deleted_steps) 1
    before ← sub i 1
    ok (record self {
      steps = set (set self.steps i step) before prev;
      not_unsaturated =
          Sets.insert (i + self.num_deleted_steps) (Sets.remove taken self.not_unsaturated);
    })

  abbrev pub store_cloned : ℕ → Step T B → Steps T B → Outcome (Steps T B)
  store_cloned i step self = ok (record self {
    steps = set self.steps i step;
    not_unsaturated = Sets.insert (i + self.num_deleted_steps) self.not_unsaturated;
  })

  unfoldable pub saturate_adjacent : ℕ → Bool → Steps T B → Outcome (Steps T B)
  saturate_adjacent i take self = do
    previous ← get_prev i self
    step ← unwrap (get_elem? self.steps i)
    elim take [
      | true ↦ do
        result ← Step.saturate_take T B step previous
        moved ← unwrap_result result
        store_taken i moved self
      | false ↦ do
        result ← Step.saturate_clone T B step previous
        step' ← unwrap_result result
        store_cloned i step' self
    ]

  -- Whether the transposer of the adjacent step is taken, and the steps after the desaturation of
  -- another.
  unfoldable pub make_room : Option ℕ → ℕ → Steps T B → Outcome (Bool × Steps T B)
  unfolding desaturate
  make_room none step_to_saturate self = ok (false, self)
  make_room (some to_desaturate) step_to_saturate self = do
    adjacent ← sub step_to_saturate 1
    elim (to_desaturate == adjacent) [
      | true ↦ ok (true, self)
      | false ↦ do
        i ← sub to_desaturate self.num_deleted_steps
        self' ← desaturate i self
        ok (false, self')
    ]

  unfoldable pub saturate : ℕ → List ℕ → Steps T B → Outcome (Steps T B)
  saturate step_to_saturate pinned_times self = do
    to_desaturate ← sequence_number_to_delete pinned_times step_to_saturate self
    (take, self') ← make_room to_desaturate step_to_saturate self
    i ← sub step_to_saturate self'.num_deleted_steps
    self'' ← saturate_adjacent i take self'
    ensure_first_step_is_not_unsaturated self''

  abbrev pub push : Option (Step T B) → Steps T B → Steps T B
  push none self = self
  push (some step) self = record self { steps = self.steps ++ step ∷ [] }

  -- A step that it makes gets the identifier `uuid`.
  unfoldable pub try_next_scheduled : ℕ → Steps T B → Outcome (Steps T B)
  unfolding get_last
  try_next_scheduled uuid self = do
    last_step ← get_last self
    elim (Step.is_saturated T B last_step) [
      | true ↦ do
        step ← unwrap_result (Step.next_scheduled_unsaturated T B uuid last_step)
        ok (push step self)
      | false ↦ ok self
    ]
