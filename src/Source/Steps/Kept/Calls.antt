-- ===== src/Source/Steps/Kept/Calls.antt =====
-- source/src/sources/transposer/steps.rs: `delete_before` and a poll of a step keep the set of checkpoints.
use cozal.Prelude.{
  unwrap-some, ℕ, zero, suc, ◌+◌, ◌≡◌, refl, sym, subst, ◌∙◌, ap, true, false, Bool-cases, some,
  none, Option, List, [], ◌∷◌, get_elem?, get_elem?-last?, get_elem?-set_self, get_elem?-set_other,
  last?, set, length, ltb, leb, ◌==◌, arith, Outcome, ok, panic, >>=-ok, ok_pair, ◌⊎◌, inl, inr,
  if◌then◌else◌,
}
use cozal.Transposer.Backend.{Backend}
use cozal.Transposer.Program.{Transposer}
use cozal.Transposer.Wrapped
use cozal.Transposer.Wrapped.{FuturePoll, is_ready, is_pending, has_panicked}
use cozal.Transposer.Step
use cozal.Transposer.Step.{Step, StepStatus, StepPoll, PollErr, saturated, saturating, unsaturated}
use cozal.Source.Sets
use cozal.Source.Steps
use cozal.Source.Steps.{Steps}
use cozal.Source.Steps.Query
use cozal.Source.Steps.Query.{BeforeStatusEvents, get_before_or_at_events, delete_before, keep_from}
use cozal.Source.Steps.Delete.{marks, Inv, keep_from-Inv}
use cozal.Source.Steps.Saturate.{contains-marks}

contains-get_elem? : (q i : ℕ) (xs : List ℕ) → get_elem? xs i ≡ some q → Sets.contains q xs ≡ true
contains-get_elem? q i [] h = absurd (cc)
contains-get_elem? q zero (x ∷ xs) h = ground (arith, h)
contains-get_elem? q (suc i) (x ∷ xs) h = ground (arith, contains-get_elem? q i xs h)

contains-last? : (q : ℕ) (xs : List ℕ) → last? xs ≡ some q → Sets.contains q xs ≡ true
contains-last? q xs h =
    let (i, len, at_i) = get_elem?-last? xs q h in contains-get_elem? q i xs at_i

contains-up_to :
    (k q : ℕ) (xs : List ℕ) → Sets.contains q (Sets.up_to k xs) ≡ true → Sets.contains q xs ≡ true
unfolding Sets.up_to
contains-up_to k q [] h = h
contains-up_to k q (x ∷ xs) h = elim (Bool-cases (leb x k)) [
  | inl le ↦ elim (Bool-cases (q == x)) [
    | inl here ↦ ground (arith, here)
    | inr other ↦ ground (arith, contains-up_to k q xs (ground (arith, rw le at h, other)))
  ]
  | inr gt ↦ ground (arith, contains-up_to k q xs (rw gt at h))
]

module _ (T : Transposer) (B : Backend T.Scheduled) where
  marks-set_same :
      (n i : ℕ) (ss : List (Step T B)) (s s' : Step T B)
      → get_elem? ss i ≡ some s
      → Step.is_unsaturated T B s ≡ false
      → Step.is_unsaturated T B s' ≡ false
      → marks T B n (set ss i s') ≡ marks T B n ss
  marks-set_same n i [] s s' found sat sat' = absurd (cc)
  marks-set_same n zero (a ∷ ss) s s' found sat sat' = ground (arith, found, sat, sat')
  marks-set_same n (suc i) (a ∷ ss) s s' found sat sat' =
      ground (arith, marks-set_same (n + 1) i ss s s' found sat sat')

  pub set-Inv :
      (self : Steps T B) (i : ℕ) (s s' : Step T B)
      → Inv T B self
      → get_elem? self.steps i ≡ some s
      → Step.is_unsaturated T B s ≡ false
      → Step.is_unsaturated T B s' ≡ false
      → Inv T B (record self { steps = set self.steps i s' })
  set-Inv self i s s' inv found sat sat' = record {
    marked =
        inv.marked ∙ sym (marks-set_same self.num_deleted_steps i self.steps s s' found sat sat');
    front = first i found;
  }
    where
      first :
          (i : ℕ)
          → get_elem? self.steps i ≡ some s
          → (a : Step T B) × (get_elem? (set self.steps i s') 0 ≡ some a)
            × (Step.is_unsaturated T B a ≡ false)
      first zero at_i = (s', get_elem?-set_self self.steps 0 s s' at_i, sat')
      first (suc i) at_i =
          let (a, at_first, kept) = inv.front in
          (
            a,
            get_elem?-set_other self.steps (suc i) 0 s' (λ e. absurd (omega (arith, e))) ∙ at_first,
            kept,
          )

  -- A poll that is no error is one of a step that has started, and still has.
  pub poll-is_unsaturated :
      (fuel : ℕ) (s s' : Step T B) (p : StepPoll T.OutputEvent)
      → Step.poll T B fuel s ≡ ok (inr (p, s'))
      → (Step.is_unsaturated T B s ≡ false) × (Step.is_unsaturated T B s' ≡ false)
  unfolding Step.poll Step.is_unsaturated
  poll-is_unsaturated fuel s s' p h = (started s.status h, go s.status h)
    where
      polled : StepStatus T B → Outcome (PollErr ⊎ (StepPoll T.OutputEvent × Step T B))
      polled status = elim status [
        | unsaturated ↦ ok (inl Step.poll_unsaturated)
        | saturating f ↦ Step.poll_with T B s (Wrapped.poll T B fuel f)
        | saturated _ ↦ ok (inl Step.poll_saturated)
      ]

      started :
          (status : StepStatus T B)
          → polled status ≡ ok (inr (p, s'))
          → Step.status_is_unsaturated T B status ≡ false
      started unsaturated e = absurd (ground (arith, e))
      started (saturating f) e = refl
      started (saturated w) e = refl

      after :
          (x : FuturePoll T B)
          → Step.poll_with T B s x ≡ ok (inr (p, s'))
          → Step.status_is_unsaturated T B s'.status ≡ false
      after (is_ready w) e = ground (arith, e)
      after (is_pending none f) e = ground (arith, e)
      after (is_pending (some a) f) e = ground (arith, e)
      after has_panicked e = absurd (cc)
      after Wrapped.FuturePoll.out_of_fuel e = absurd (cc)

      go :
          (status : StepStatus T B)
          → polled status ≡ ok (inr (p, s'))
          → Step.status_is_unsaturated T B s'.status ≡ false
      go unsaturated e = absurd (ground (arith, e))
      go (saturating f) e = after (Wrapped.poll T B fuel f) e
      go (saturated w) e = absurd (ground (arith, e))

  checkpoint_present :
      (self : Steps T B) (time q : ℕ)
      → Steps.get_not_unsaturated_before_or_at_time T B time self ≡ ok q
      → Sets.contains q self.not_unsaturated ≡ true
  unfolding Steps.get_not_unsaturated_before_or_at_time
  checkpoint_present self time q h =
      let (i, _, h₁) =
        >>=-ok (Steps.before_or_at (Steps.binary_search T B time self.steps)) _ _ h in
      let k = i + self.num_deleted_steps in
      contains-up_to k q self.not_unsaturated (
        contains-last? q (Sets.up_to k self.not_unsaturated)
          (unwrap-some (last? (Sets.up_to k self.not_unsaturated)) q h₁))

  -- Where `delete_before` returns, it has changed nothing, or kept the steps from a checkpoint on.
  pub delete_before-ok :
      (self self' : Steps T B) (time : ℕ) (next : Option ℕ)
      → Inv T B self
      → delete_before T B time self ≡ ok (next, self')
      → (self ≡ self')
        ⊎ ((j : ℕ) × (s : Step T B) × (get_elem? self.steps j ≡ some s)
            × (Step.is_unsaturated T B s ≡ false)
            × (keep_from T B time (self.num_deleted_steps + j) j self ≡ self'))
  unfolding delete_before
  delete_before-ok self self' time next inv h =
      let (_, _, h₁) = >>=-ok (Steps.debug_assertions T B self) _ _ h in
      elim (Bool-cases (Query.is_deleted T B self.deleted_before time)) [
        | inl deleted ↦ inl (ok_pair _ self next self' (rw deleted at h₁))
        | inr later ↦
            let (q, found_q, h₂) =
              >>=-ok (Steps.get_not_unsaturated_before_or_at_time T B time self) _ _
                (rw later at h₁) in
            let (j, s, e, found, sat) =
              contains-marks T B q self.num_deleted_steps self.steps
                (rw (sym inv.marked) (checkpoint_present self time q found_q)) in
            let (i, at_i, h₃) = >>=-ok (Steps.sub q self.num_deleted_steps) _ _ h₂ in
            let same : i ≡ j = ground (arith, at_i, e) in
            let (_, _, h₄) =
              >>=-ok (if ltb (length self.steps) i then panic else ok (tt {0})) _ _ h₃ in
            inr (
              j,
              s,
              found,
              sat,
              ap (λ k. keep_from T B time k j self) (sym e)
                  ∙ ap (λ k. keep_from T B time q k self) (sym same)
                  ∙ ok_pair _ (keep_from T B time q i self) next self' h₄,
            )
      ]

  pub delete_before-Inv :
      (self self' : Steps T B) (time : ℕ) (next : Option ℕ)
      → Inv T B self
      → delete_before T B time self ≡ ok (next, self')
      → Inv T B self'
  delete_before-Inv self self' time next inv h =
      elim (delete_before-ok self self' time next inv h) [
        | inl same ↦ subst (Inv T B) same inv
        | inr (j, s, found, sat, kept) ↦
            subst (Inv T B) kept (keep_from-Inv T B self time j s inv found sat)
      ]

  pub new-Inv :
      (uuid start_time : ℕ) (transposer : T.Self) (rng_seed : B.Seed)
      → Inv T B (Steps.new T B uuid transposer start_time rng_seed)
  unfolding Steps.new Step.new_init Step.is_unsaturated
  new-Inv uuid start_time transposer rng_seed = record {
    marked = refl;
    front = (Step.new_init T B uuid transposer start_time rng_seed, refl, refl);
  }
