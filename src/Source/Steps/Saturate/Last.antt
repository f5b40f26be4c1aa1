-- ===== src/Source/Steps/Saturate/Last.antt =====
-- source/src/sources/transposer/steps.rs: `saturate` leaves the last step where it was.
use cozal.Prelude.{
  unwrap, ℕ, zero, suc, ◌+◌, ◌-◌, ◌==◌, ◌≡◌, refl, sym, ◌∙◌, ap, Bool, true, false, Bool-cases,
  Option, some, none, List, [], ◌∷◌, get_elem?, set, last?, length, length-set, arith, ok, >>=-ok,
  ok_inj, inl, inr, ltb,
}
use cozal.Transposer.Backend.{Backend}
use cozal.Transposer.Program.{Transposer}
use cozal.Transposer.Step
use cozal.Transposer.Step.{Step, SaturateErr}
use cozal.Source.Steps
use cozal.Source.Steps.{Steps, unwrap_result}

pub last?-get_elem? :
    {A : Type 0} (xs : List A) (i : ℕ) (x : A)
    → length xs ≡ suc i
    → get_elem? xs i ≡ some x
    → last? xs ≡ some x
last?-get_elem? [] i x n h = absurd (cc)
last?-get_elem? (y ∷ []) zero x n h = h
last?-get_elem? (y ∷ []) (suc i) x n h = absurd (cc)
last?-get_elem? (y ∷ z ∷ xs) zero x n h = absurd (omega (arith, n))
last?-get_elem? (y ∷ z ∷ xs) (suc i) x n h =
    rw (last?-get_elem? (z ∷ xs) i x (omega (arith, n)) h) refl

module _ (T : Transposer) (B : Backend T.Scheduled) where
  -- The number of steps that there have been.
  abbrev pub total : Steps T B → ℕ
  total self = self.num_deleted_steps + length self.steps

  total-drop_unsaturated :
      (ss ss' : List (Step T B)) (n n' : ℕ)
      → Steps.drop_unsaturated T B ss n ≡ ok (ss', n')
      → n' + length ss' ≡ n + length ss
  unfolding Steps.drop_unsaturated
  total-drop_unsaturated [] ss' n n' h = absurd (cc)
  total-drop_unsaturated (s ∷ ss) ss' n n' h = elim (Bool-cases (Step.is_unsaturated T B s)) [
    | inl unsat ↦
        omega (
          arith,
          total-drop_unsaturated ss ss' (n + 1) n' (rw (Steps.drop_unsaturated, unsat) at h),
        )
    | inr sat ↦
        let e = ok_inj (s ∷ ss, n) (ss', n') (rw (Steps.drop_unsaturated, sat) at h) in
        sym (ap (λ (x : List (Step T B) × ℕ). x.1 + length x.0) e)
  ]

  total-ensure_first_step_is_not_unsaturated :
      (self self' : Steps T B)
      → Steps.ensure_first_step_is_not_unsaturated T B self ≡ ok self'
      → total self' ≡ total self
  unfolding Steps.ensure_first_step_is_not_unsaturated
  total-ensure_first_step_is_not_unsaturated self self' h =
      let ((ss, n), dropped, h₁) =
        >>=-ok (Steps.drop_unsaturated T B self.steps self.num_deleted_steps) _ _ h in
      ap total (sym (ok_inj _ self' h₁))
      ∙ total-drop_unsaturated self.steps ss self.num_deleted_steps n dropped

  total-desaturate :
      (self self' : Steps T B) (i : ℕ)
      → Steps.desaturate T B i self ≡ ok self'
      → total self' ≡ total self
  unfolding Steps.desaturate
  total-desaturate self self' i h =
      let (s, found, h₁) = >>=-ok (unwrap (get_elem? self.steps i)) _ _ h in
      ap total (sym (ok_inj _ self' h₁))
      ∙ ap (λ k. self.num_deleted_steps + k) (length-set self.steps i (Step.desaturate T B s))

  total-make_room :
      (o : Option ℕ) (k : ℕ) (take : Bool) (self self' : Steps T B)
      → Steps.make_room T B o k self ≡ ok (take, self')
      → total self' ≡ total self
  unfolding Steps.make_room
  total-make_room none k take self self' h =
      let e = ok_inj (false, self) (take, self') h in
      ap (λ (x : Bool × Steps T B). total x.1) (sym e)
  total-make_room (some d) k take self self' h =
      let (adjacent, found, h₁) = >>=-ok (Steps.sub k 1) _ _ h in
      elim (Bool-cases (d == adjacent)) [
        | inl next ↦
            let e = ok_inj (true, self) (take, self') (rw next at h₁) in
            ap (λ (x : Bool × Steps T B). total x.1) (sym e)
        | inr other ↦
            let (i, index, h₂) = >>=-ok (Steps.sub d self.num_deleted_steps) _ _ (rw other at h₁) in
            let (made, done, h₃) = >>=-ok (Steps.desaturate T B i self) _ _ h₂ in
            let e = ok_inj (false, made) (take, self') h₃ in
            ap (λ (x : Bool × Steps T B). total x.1) (sym e) ∙ total-desaturate self made i done
      ]

  total-store_taken :
      (i : ℕ) (moved : Step T B × Step T B) (self self' : Steps T B)
      → Steps.store_taken T B i moved self ≡ ok self'
      → total self' ≡ total self
  total-store_taken i (step, prev) self self' h =
      let (taken, e, h₁) = >>=-ok (Steps.sub (i + self.num_deleted_steps) 1) _ _ h in
      let (before, e', h₂) = >>=-ok (Steps.sub i 1) _ _ h₁ in
      ap total (sym (ok_inj _ self' h₂))
      ∙ ap (λ k. self.num_deleted_steps + k)
          (length-set (set self.steps i step) before prev ∙ length-set self.steps i step)

  total-saturate_adjacent :
      (i : ℕ) (take : Bool) (self self' : Steps T B)
      → Steps.saturate_adjacent T B i take self ≡ ok self'
      → total self' ≡ total self
  unfolding Steps.saturate_adjacent
  total-saturate_adjacent i true self self' h =
      let (prev, at_prev, h₁) = >>=-ok (Steps.get_prev T B i self) _ _ h in
      let (step, at_step, h₂) = >>=-ok (unwrap (get_elem? self.steps i)) _ _ h₁ in
      let (r, e, h₃) = >>=-ok (Step.saturate_take T B step prev) _ _ h₂ in
      let (moved, e', h₄) = >>=-ok (unwrap_result r) _ _ h₃ in
      total-store_taken i moved self self' h₄
  total-saturate_adjacent i false self self' h =
      let (prev, at_prev, h₁) = >>=-ok (Steps.get_prev T B i self) _ _ h in
      let (step, at_step, h₂) = >>=-ok (unwrap (get_elem? self.steps i)) _ _ h₁ in
      let (r, e, h₃) = >>=-ok (Step.saturate_clone T B step prev) _ _ h₂ in
      let (step', e', h₄) = >>=-ok (unwrap_result r) _ _ h₃ in
      ap total (sym (ok_inj _ self' h₄))
      ∙ ap (λ k. self.num_deleted_steps + k) (length-set self.steps i step')

  -- Where `saturate` returns, it has dropped steps from the front alone: the numbers of those left end
  -- where they did.
  pub total-saturate :
      (k : ℕ) (pinned_times : List ℕ) (self self' : Steps T B)
      → Steps.saturate T B k pinned_times self ≡ ok self'
      → total self' ≡ total self
  unfolding Steps.saturate
  total-saturate k pinned_times self self' h =
      let (o, chosen, h₁) =
        >>=-ok (Steps.sequence_number_to_delete T B pinned_times k self) _ _ h in
      let ((take, made), room, h₂) = >>=-ok (Steps.make_room T B o k self) _ _ h₁ in
      let (i, index, h₃) = >>=-ok (Steps.sub k made.num_deleted_steps) _ _ h₂ in
      let (moved, adjacent, h₄) = >>=-ok (Steps.saturate_adjacent T B i take made) _ _ h₃ in
      total-ensure_first_step_is_not_unsaturated moved self' h₄
      ∙ total-saturate_adjacent i take made moved adjacent
      ∙ total-make_room o k take self made room

  -- The step with the number of the last one is the last one.
  pub last?-get_by_sequence_number :
      (self : Steps T B) (k : ℕ) (s : Step T B)
      → total self ≡ suc k
      → Steps.get_by_sequence_number T B k self ≡ some s
      → last? self.steps ≡ some s
  unfolding Steps.get_by_sequence_number
  last?-get_by_sequence_number self k s count found =
      elim (Bool-cases (ltb k self.num_deleted_steps)) [
        | inl early ↦ absurd (ground (arith, early))
        | inr late ↦
            last?-get_elem? self.steps (k - self.num_deleted_steps) s (ground (arith, late, count))
              (ground (arith, late, found))
      ]
