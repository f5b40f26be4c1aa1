-- ===== src/Source/Steps/Saturate/Adjacent.antt =====
-- source/src/sources/transposer/steps.rs: `saturate_adjacent`, and `saturate` as a whole.
use cozal.Prelude.{
  ℕ, suc, ◌+◌, ◌-◌, ◌≡◌, refl, sym, ◌∙◌, ap, Bool, true, false, some, Option, List, get_elem?,
  get_elem?-set_self, get_elem?-set_other, set-set_comm, set, drop, ltb, arith, ok, ◌>>=◌, inr,
}
use cozal.Transposer.Backend.{Backend}
use cozal.Transposer.Program.{Transposer}
use cozal.Transposer.Wrapped.{WrappedTransposer}
use cozal.Transposer.Step
use cozal.Transposer.Step.{Step, saturated, unsaturated}
use cozal.Source.Sets
use cozal.Source.Steps
use cozal.Source.Steps.{Steps}
use cozal.Source.Steps.Delete.{marks, Inv}
use cozal.Source.Steps.Marks.{marks-set_unsaturated, marks-set_saturating, drop_unsaturated_lem}
use cozal.Source.Steps.Saturate.{
  Startable, Pinned, sequence_number_to_delete_total, sequence_number_to_delete-Chosen,
  make_room_total, saturate-is_unsaturated,
}

module _ (T : Transposer) (B : Backend T.Scheduled) where
  -- The transposer of `prev` can start `step`, which becomes `step'`.
  pub record Starts (prev step step' : Step T B) : Type 0 where
    pub transposer : WrappedTransposer T B
    pub ready : prev.status ≡ saturated transposer
    pub follows : Step.is_previous step.uuid_prev prev.uuid_self ≡ true
    pub waits : Step.is_unsaturated T B step ≡ true
    pub started : Step.saturate T B transposer step ≡ ok step'

module _ (T : Transposer) (B : Backend T.Scheduled) {prev step step' : Step T B}
    (s : Starts T B prev step step') where
  saturate_take_ok :
      Step.saturate_take T B step prev ≡ ok (inr (step', record prev { status = unsaturated }))
  unfolding Step.saturate_take
  saturate_take_ok = rw (s.follows, s.ready, s.started) refl

  saturate_clone_ok : Step.saturate_clone T B step prev ≡ ok (inr step')
  unfolding Step.saturate_clone
  saturate_clone_ok = rw (s.follows, s.ready, s.started) refl

  prev_is_unsaturated : Step.is_unsaturated T B prev ≡ false
  unfolding Step.is_unsaturated
  prev_is_unsaturated = rw s.ready refl

  taken_is_unsaturated : Step.is_unsaturated T B (record prev { status = unsaturated }) ≡ true
  unfolding Step.is_unsaturated
  taken_is_unsaturated = refl

  -- Both ways to start the step leave the set of checkpoints that of the steps.
  saturate_adjacent_total :
      (self : Steps T B) (i : ℕ) (take : Bool)
      → Startable T B self i prev step
      → (self' : Steps T B) × (Steps.saturate_adjacent T B (suc i) take self ≡ ok self')
        × (self'.num_deleted_steps ≡ self.num_deleted_steps)
        × (self'.not_unsaturated ≡ marks T B self.num_deleted_steps self'.steps)
        × (get_elem? self'.steps (suc i) ≡ some step')
  unfolding Steps.saturate_adjacent
  saturate_adjacent_total self i true start =
      let n = self.num_deleted_steps in
      let prev' = record prev { status = unsaturated } in
      let before : Steps.sub (suc i + n) 1 ≡ ok (i + n) = ground arith in
      let index : Steps.sub (suc i) 1 ≡ ok i = ground arith in
      let a : suc i + n ≡ n + suc i = omega arith in
      let b : i + n ≡ n + i = omega arith in
      let taken = set self.steps i prev' in
      let at_step : get_elem? taken (suc i) ≡ some step =
        get_elem?-set_other self.steps i (suc i) prev' (λ e. absurd (omega (arith, e)))
        ∙ start.at_step in
      (
        record self {
          steps = set (set self.steps (suc i) step') i prev';
          not_unsaturated = Sets.insert (suc i + n) (Sets.remove (i + n) self.not_unsaturated);
        },
        rw (start.at_prev, start.at_step, saturate_take_ok, ◌>>=◌, before, index) refl,
        refl,
        rw (set-set_comm, a, b, start.marked)
            (sym (
              marks-set_saturating T B n (suc i) taken step step' at_step
                (saturate-is_unsaturated T B s.transposer step step' s.started)
              ∙ ap (Sets.insert (n + suc i)) (
                  marks-set_unsaturated T B n i self.steps prev prev' start.at_prev
                    prev_is_unsaturated taken_is_unsaturated))),
        rw set-set_comm (get_elem?-set_self taken (suc i) step step' at_step),
      )
  saturate_adjacent_total self i false start =
      let n = self.num_deleted_steps in
      let e : suc i + n ≡ n + suc i = omega arith in
      (
        record self {
          steps = set self.steps (suc i) step';
          not_unsaturated = Sets.insert (suc i + n) self.not_unsaturated;
        },
        rw (start.at_prev, start.at_step, saturate_clone_ok, ◌>>=◌) refl,
        refl,
        rw (e, start.marked)
            (sym (
              marks-set_saturating T B n (suc i) self.steps step step' start.at_step
                (saturate-is_unsaturated T B s.transposer step step' s.started))),
        get_elem?-set_self self.steps (suc i) step step' start.at_step,
      )

  -- The first steps are dropped while they are unsaturated.
  ensure_first_total :
      (self : Steps T B) (i : ℕ)
      → self.not_unsaturated ≡ marks T B self.num_deleted_steps self.steps
      → get_elem? self.steps i ≡ some step'
      → (self' : Steps T B) × (Steps.ensure_first_step_is_not_unsaturated T B self ≡ ok self')
        × Inv T B self'
        × (Steps.get_by_sequence_number T B (i + self.num_deleted_steps) self' ≡ some step')
  unfolding Steps.ensure_first_step_is_not_unsaturated Steps.get_by_sequence_number
  ensure_first_total self i marked found =
      let n = self.num_deleted_steps in
      let (d, k, a, dropped, kept, first, front, at_i, here) =
        drop_unsaturated_lem T B n i self.steps step' found
          (saturate-is_unsaturated T B s.transposer step step' s.started) in
      let inside : ltb (i + n) (n + d) ≡ false = ground (arith, at_i) in
      let index : i + n - (n + d) ≡ k = omega (arith, at_i) in
      (
        record self { steps = drop d self.steps; num_deleted_steps = n + d },
        rw dropped refl,
        record { marked = marked ∙ sym kept; front = (a, first, front) },
        rw (inside, index) here,
      )

  -- With the checkpoint that gives way, if one does.
  pub saturate_chosen :
      (self : Steps T B) (i : ℕ) (pinned_times : List ℕ) (o : Option ℕ) (inv : Inv T B self)
      → get_elem? self.steps i ≡ some prev
      → get_elem? self.steps (suc i) ≡ some step
      → Steps.sequence_number_to_delete T B pinned_times (suc i + self.num_deleted_steps) self
        ≡ ok o
      → (self' : Steps T B) × (Steps.saturate T B (suc i + self.num_deleted_steps) pinned_times self
          ≡ ok self')
        × Inv T B self'
        × (Steps.get_by_sequence_number T B (suc i + self.num_deleted_steps) self' ≡ some step')
  unfolding Steps.saturate
  saturate_chosen self i pinned_times o inv at_prev at_step to_desaturate =
      let k = suc i + self.num_deleted_steps in
      let chosen = sequence_number_to_delete-Chosen T B self inv pinned_times k o to_desaturate in
      let start : Startable T B self i prev step = record {
        marked = inv.marked;
        at_prev = at_prev;
        at_step = at_step;
      } in
      let (take, made, room, same, start') =
        make_room_total T B self inv i prev step o start s.waits chosen in
      let index : Steps.sub k made.num_deleted_steps ≡ ok (suc i) = rw same (ground arith) in
      let (moved, adjacent, same', marked, at_k) = saturate_adjacent_total made i take start' in
      let (self', ensured, inv', here) = ensure_first_total moved (suc i) (rw same' marked) at_k in
      (
        self',
        rw (to_desaturate, ◌>>=◌, room, index, adjacent, ensured) refl,
        inv',
        ap (λ m. Steps.get_by_sequence_number T B (suc i + m) self') (sym (same' ∙ same)) ∙ here,
      )

  -- An unsaturated step whose predecessor is saturated, while no pinned time is before the first step:
  -- `saturate` returns, the step has started from its predecessor's transposer under its number, the
  -- set of checkpoints is that of the steps, and the first step is one of them.
  pub saturate_total :
      (self : Steps T B) (i : ℕ) (pinned_times : List ℕ) (inv : Inv T B self)
      → get_elem? self.steps i ≡ some prev
      → get_elem? self.steps (suc i) ≡ some step
      → Pinned T B self inv pinned_times
      → (self' : Steps T B) × (Steps.saturate T B (suc i + self.num_deleted_steps) pinned_times self
          ≡ ok self')
        × Inv T B self'
        × (Steps.get_by_sequence_number T B (suc i + self.num_deleted_steps) self' ≡ some step')
  saturate_total self i pinned_times inv at_prev at_step early =
      let (o, to_desaturate, chosen) =
        sequence_number_to_delete_total T B self inv pinned_times (suc i + self.num_deleted_steps)
          early in
      saturate_chosen self i pinned_times o inv at_prev at_step to_desaturate
