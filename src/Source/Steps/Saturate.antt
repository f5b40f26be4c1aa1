-- ===== src/Source/Steps/Saturate.antt =====
-- source/src/sources/transposer/steps.rs: `saturate` starts a step from the one before it, and keeps
-- the set `not_unsaturated` that of the steps.
pub mod Adjacent
pub mod Kept
pub mod Last
use cozal.Prelude.{
  ℕ, zero, suc, ◌+◌, ◌-◌, ◌<◌, ◌≤◌, ◌==◌, ◌≡◌, ◌≢◌, refl, sym, ◌∙◌, ap, Bool, true, false, some,
  none, Option, Option-cases, List, [], ◌∷◌, ◌++◌, get_elem?, get_elem?-set_self,
  get_elem?-set_other, set-set_comm, last?-cons, set, drop, length, ltb, last?, arith, ok, Outcome,
  ◌>>=◌, Bool-cases, ◌⊎◌, inl, inr, if◌then◌else◌,
}
use cozal.Transposer.Backend.{Backend}
use cozal.Transposer.Program.{Transposer}
use cozal.Transposer.Wrapped.{WrappedTransposer}
use cozal.Transposer.Step
use cozal.Transposer.Step.{Step, saturated, unsaturated}
use cozal.Source.Sets
use cozal.Source.Steps
use cozal.Source.Steps.{Steps}
use cozal.Source.Steps.Delete.{marks, Inv, checkpoint}
use cozal.Source.Steps.Marks.{marks-set_unsaturated, marks-set_saturating, drop_unsaturated_lem}
use cozal.Source.Steps.Choice.{sequence_number_to_delete_lem}

module _ (T : Transposer) (B : Backend T.Scheduled) where
  pub contains-marks :
      (i n : ℕ) (ss : List (Step T B))
      → Sets.contains i (marks T B n ss) ≡ true
      → (j : ℕ) × (s : Step T B) × (i ≡ n + j)
        × (get_elem? ss j ≡ some s)
        × (Step.is_unsaturated T B s ≡ false)
  contains-marks i n [] h = absurd (cc)
  contains-marks i n (a ∷ ss) h = elim (Bool-cases (Step.is_unsaturated T B a)) [
    | inr sat ↦ elim (Bool-cases (i == n)) [
      | inl here ↦ (0, a, ground (arith, here), refl, sat)
      | inr other ↦
          let (j, s, e, found, sat') = contains-marks i (n + 1) ss (ground (arith, other, sat)) in
          (suc j, s, omega (arith, e), found, sat')
    ]
    | inl unsat ↦
        let (j, s, e, found, sat') = contains-marks i (n + 1) ss (ground (arith, unsat)) in
        (suc j, s, omega (arith, e), found, sat')
  ]

  module _ (self : Steps T B) (inv : Inv T B self) where
    -- No pinned time is before the first step.
    abbrev pub Pinned : List ℕ → Type 0
    Pinned times =
        (t : ℕ)
        → Sets.contains t times ≡ true
        → (s : Step T B) → get_elem? self.steps 0 ≡ some s
        → Step.get_time T B s ≤ t

    needed_pinned_total :
        (times : List ℕ)
        → Pinned times
        → (pinned : List ℕ) × (Steps.needed_pinned T B self times ≡ ok pinned)
    needed_pinned_total [] early = ([], refl)
    needed_pinned_total (t ∷ ts) early =
        let (j, s, at_t, le, found, sat) = checkpoint T B self t inv (early t (ground arith)) in
        let (rest, at_ts) = needed_pinned_total ts (λ u here. early u (ground (arith, here))) in
        ((self.num_deleted_steps + j) ∷ rest, rw (at_t, at_ts) refl)

    choose_to_delete_total :
        (times : List ℕ) (newly first last : ℕ)
        → Pinned times
        → (o : Option ℕ) × (Steps.choose_to_delete T B times newly first last self ≡ ok o)
    unfolding Steps.choose_to_delete
    choose_to_delete_total times newly first last early =
        let (pinned, e) = needed_pinned_total times early in
        (
          Sets.least (
              Steps.not_needed T B (first ∷ (if last + 1 == newly then [] else last ∷ []) ++ pinned)
                self.not_unsaturated),
          rw e refl,
        )

    -- The set of checkpoints starts with the number of the first step.
    first_mark : (rest : List ℕ) × (self.not_unsaturated ≡ self.num_deleted_steps ∷ rest)
    first_mark =
        let (a, first, sat) = inv.front in
        let (rest, e) = go self.num_deleted_steps self.steps a first sat in (rest, inv.marked ∙ e)
      where
        go :
            (n : ℕ) (ss : List (Step T B)) (a : Step T B)
            → get_elem? ss 0 ≡ some a
            → Step.is_unsaturated T B a ≡ false
            → (rest : List ℕ) × (marks T B n ss ≡ n ∷ rest)
        go n [] a first sat = absurd (cc)
        go n (b ∷ ss) a first sat = (marks T B (n + 1) ss, ground arith)

    -- What gives way is a checkpoint.
    abbrev pub Chosen : Option ℕ → Type 0
    Chosen none = Unit {0}
    Chosen (some d) = Sets.contains d self.not_unsaturated ≡ true

    Chosen-of :
        (times : List ℕ) (newly last : ℕ) (o : Option ℕ)
        → get_elem? self.not_unsaturated 0 ≡ some self.num_deleted_steps
        → last? self.not_unsaturated ≡ some last
        → Steps.sequence_number_to_delete T B times newly self ≡ ok o
        → Chosen o
    Chosen-of times newly last none at_first at_end h = tt
    Chosen-of times newly last (some d) at_first at_end h =
        let (front, first, sat) = inv.front in
        let (present, why) =
          sequence_number_to_delete_lem T B self times newly self.num_deleted_steps last d front
            at_first first at_end h in
        present

    pub sequence_number_to_delete-Chosen :
        (times : List ℕ) (newly : ℕ) (o : Option ℕ)
        → Steps.sequence_number_to_delete T B times newly self ≡ ok o
        → Chosen o
    sequence_number_to_delete-Chosen times newly o h =
        let (rest, marks-eq) = first_mark in
        let (last, at_last) = last?-cons self.num_deleted_steps rest in
        Chosen-of times newly last o (rw marks-eq refl) (rw marks-eq at_last) h

    pub sequence_number_to_delete_total :
        (times : List ℕ) (newly : ℕ)
        → Pinned times
        → (o : Option ℕ) × (Steps.sequence_number_to_delete T B times newly self ≡ ok o) × Chosen o
    unfolding Steps.sequence_number_to_delete
    sequence_number_to_delete_total times newly early =
        let (front, first, sat) = inv.front in
        let (rest, marks-eq) = first_mark in
        let (last, at_last) = last?-cons self.num_deleted_steps rest in
        let at_first : get_elem? self.not_unsaturated 0 ≡ some self.num_deleted_steps =
          rw marks-eq refl in
        let at_end : last? self.not_unsaturated ≡ some last = rw marks-eq at_last in
        let (c, chosen) = choose_to_delete_total times newly self.num_deleted_steps last early in
        let spent =
          Steps.first_is_spent T B self.deleted_before (Step.get_time T B front)
            self.num_deleted_steps newly in
        let few = ltb (length self.not_unsaturated) self.number_of_checkpoints in
        let o = if spent then some self.num_deleted_steps else (if few then none else c) in
        let e : Steps.sequence_number_to_delete T B times newly self ≡ ok o =
          rw (Steps.sequence_number_to_delete, at_first, first, at_end, ◌>>=◌, chosen)
            (ground arith) in
        (o, e, Chosen-of times newly last o at_first at_end e)

  -- `saturate` of an unsaturated step starts a future.
  pub saturate-is_unsaturated :
      (w : WrappedTransposer T B) (s s' : Step T B)
      → Step.saturate T B w s ≡ ok s'
      → Step.is_unsaturated T B s' ≡ false
  unfolding Step.saturate Step.is_unsaturated
  saturate-is_unsaturated w s s' h = ground (arith, h)

  -- The steps in which the step `suc i` is to be started from the one before it.
  pub record Startable (self : Steps T B) (i : ℕ) (prev step : Step T B) : Type 0 where
    pub marked : self.not_unsaturated ≡ marks T B self.num_deleted_steps self.steps
    pub at_prev : get_elem? self.steps i ≡ some prev
    pub at_step : get_elem? self.steps (suc i) ≡ some step

  abbrev desaturated : Steps T B → ℕ → Step T B → Steps T B
  desaturated self j s = record self {
    steps = set self.steps j (Step.desaturate T B s);
    not_unsaturated = Sets.remove (j + self.num_deleted_steps) self.not_unsaturated;
  }

  desaturate_ok :
      (self : Steps T B) (j : ℕ) (s : Step T B)
      → get_elem? self.steps j ≡ some s
      → Steps.desaturate T B j self ≡ ok (desaturated self j s)
  unfolding Steps.desaturate
  desaturate_ok self j s found = rw found refl

  desaturate-is_unsaturated :
      (s : Step T B) → Step.is_unsaturated T B (Step.desaturate T B s) ≡ true
  unfolding Step.desaturate Step.is_unsaturated
  desaturate-is_unsaturated s = refl

  desaturate-Startable :
      (self : Steps T B) (i j : ℕ) (prev step s : Step T B)
      → Startable self i prev step
      → get_elem? self.steps j ≡ some s
      → Step.is_unsaturated T B s ≡ false
      → j ≢ i
      → j ≢ suc i
      → Startable (desaturated self j s) i prev step
  desaturate-Startable self i j prev step s start found sat off_prev off_step =
      let n = self.num_deleted_steps in
      let e : j + n ≡ n + j = omega arith in
      let s' = Step.desaturate T B s in
      record {
        marked =
            rw (e, start.marked)
              (sym (
                marks-set_unsaturated T B n j self.steps s s' found sat
                  (desaturate-is_unsaturated s)));
        at_prev = get_elem?-set_other self.steps j i s' off_prev ∙ start.at_prev;
        at_step = get_elem?-set_other self.steps j (suc i) s' off_step ∙ start.at_step;
      }

  pub make_room_total :
      (self : Steps T B) (inv : Inv T B self) (i : ℕ) (prev step : Step T B) (o : Option ℕ)
      → Startable self i prev step
      → Step.is_unsaturated T B step ≡ true
      → Chosen self inv o
      → (take : Bool) × (self' : Steps T B) × (Steps.make_room T B o
            (suc i + self.num_deleted_steps)
            self
          ≡ ok (take, self'))
        × (self'.num_deleted_steps ≡ self.num_deleted_steps)
        × Startable self' i prev step
  unfolding Steps.make_room
  make_room_total self inv i prev step none start unsat present = (false, self, refl, refl, start)
  make_room_total self inv i prev step (some d) start unsat present =
      let n = self.num_deleted_steps in
      let adjacent : Steps.sub (suc i + n) 1 ≡ ok (i + n) = ground arith in
      let (j, s, at_d, found, sat) =
        contains-marks d n self.steps (rw (sym start.marked) present) in
      elim (Bool-cases (d == i + n)) [
        | inl next ↦ (true, self, rw (adjacent, ◌>>=◌, next) refl, refl, start)
        | inr other ↦
            let off_prev : j ≢ i = λ e. ground (arith, e, other, at_d) in
            let off_step : j ≢ suc i = λ e. ground (arith, e, sat, unsat, found, start.at_step) in
            let index : Steps.sub d n ≡ ok j = ground (arith, at_d) in
            (
              false,
              desaturated self j s,
              rw (adjacent, ◌>>=◌, other, index, desaturate_ok self j s found) refl,
              refl,
              desaturate-Startable self i j prev step s start found sat off_prev off_step,
            )
      ]
