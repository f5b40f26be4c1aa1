-- ===== src/Source/Steps/Marks.antt =====
-- source/src/sources/transposer/steps.rs: the set `not_unsaturated` under the changes of a step.
use cozal.Prelude.{
  ℕ, zero, suc, ◌+◌, ◌<◌, ◌≡◌, refl, sym, ◌∙◌, true, false, some, List, [], ◌∷◌, get_elem?, set,
  drop, arith, ok, Bool-cases, inl, inr,
}
use cozal.Transposer.Backend.{Backend}
use cozal.Transposer.Program.{Transposer}
use cozal.Transposer.Step
use cozal.Transposer.Step.{Step}
use cozal.Source.Sets
use cozal.Source.Steps
use cozal.Source.Steps.Delete.{marks}

module _ (T : Transposer) (B : Backend T.Scheduled) where
  -- A step is desaturated.
  pub marks-set_unsaturated :
      (n j : ℕ) (ss : List (Step T B)) (s s' : Step T B)
      → get_elem? ss j ≡ some s
      → Step.is_unsaturated T B s ≡ false
      → Step.is_unsaturated T B s' ≡ true
      → marks T B n (set ss j s') ≡ Sets.remove (n + j) (marks T B n ss)
  unfolding Sets.remove
  marks-set_unsaturated n j [] s s' found sat unsat = absurd (cc)
  marks-set_unsaturated n zero (a ∷ ss) s s' found sat unsat = ground arith
  marks-set_unsaturated n (suc j) (a ∷ ss) s s' found sat unsat =
      let e : n + suc j ≡ n + 1 + j = omega arith in
      let ih = marks-set_unsaturated (n + 1) j ss s s' found sat unsat in rw e (ground (arith, ih))

  -- Marks from `n` on are not below it.
  insert_below :
      (k n : ℕ) (ss : List (Step T B)) → k < n → Sets.insert k (marks T B n ss) ≡ k ∷ marks T B n ss
  unfolding Sets.insert
  insert_below k n [] lt = refl
  insert_below k n (a ∷ ss) lt = ground (arith, insert_below k (n + 1) ss)

  -- A step starts to saturate.
  pub marks-set_saturating :
      (n i : ℕ) (ss : List (Step T B)) (s s' : Step T B)
      → get_elem? ss i ≡ some s
      → Step.is_unsaturated T B s' ≡ false
      → marks T B n (set ss i s') ≡ Sets.insert (n + i) (marks T B n ss)
  unfolding Sets.insert
  marks-set_saturating n i [] s s' found sat = absurd (cc)
  marks-set_saturating n zero (a ∷ ss) s s' found sat =
      let e : n + 0 ≡ n = omega arith in rw e (ground (arith, insert_below n (n + 1) ss))
  marks-set_saturating n (suc i) (a ∷ ss) s s' found sat =
      let e : n + suc i ≡ n + 1 + i = omega arith in
      let ih = marks-set_saturating (n + 1) i ss s s' found sat in rw e (ground (arith, ih))

  drop_next :
      (n : ℕ) (a : Step T B) (ss : List (Step T B))
      → Step.is_unsaturated T B a ≡ true
      → Steps.drop_unsaturated T B (a ∷ ss) n ≡ Steps.drop_unsaturated T B ss (n + 1)
  unfolding Steps.drop_unsaturated
  drop_next n a ss h = ground arith

  marks_next :
      (n : ℕ) (a : Step T B) (ss : List (Step T B))
      → Step.is_unsaturated T B a ≡ true
      → marks T B n (a ∷ ss) ≡ marks T B (n + 1) ss
  marks_next n a ss h = ground arith

  -- What is left when `d` steps are dropped from the front: the step `i` has the index `k`.
  abbrev pub Dropped : ℕ → ℕ → List (Step T B) → Step T B → Type 0
  Dropped n i ss s =
      (d k : ℕ) × (a : Step T B) × (Steps.drop_unsaturated T B ss n ≡ ok (drop d ss, n + d))
      × (marks T B (n + d) (drop d ss) ≡ marks T B n ss)
      × (get_elem? (drop d ss) 0 ≡ some a)
      × (Step.is_unsaturated T B a ≡ false)
      × (i ≡ d + k)
      × (get_elem? (drop d ss) k ≡ some s)

  front_lem :
      (n i : ℕ) (a : Step T B) (ss : List (Step T B)) (s : Step T B)
      → Step.is_unsaturated T B a ≡ false
      → get_elem? (a ∷ ss) i ≡ some s
      → Dropped n i (a ∷ ss) s
  unfolding Steps.drop_unsaturated
  front_lem n i a ss s front found =
      let e : n + 0 ≡ n = omega arith in
      (0, i, a, rw e (ground (arith, front)), rw e refl, refl, front, omega arith, found)

  -- Unsaturated steps are dropped from the front, up to one that is not: the marks stay.
  pub drop_unsaturated_lem :
      (n i : ℕ) (ss : List (Step T B)) (s : Step T B)
      → get_elem? ss i ≡ some s
      → Step.is_unsaturated T B s ≡ false
      → Dropped n i ss s
  drop_unsaturated_lem n i [] s found sat = absurd (cc)
  drop_unsaturated_lem n zero (a ∷ ss) s found sat =
      let same : a ≡ s = ground arith in front_lem n zero a ss s (rw same sat) found
  drop_unsaturated_lem n (suc i) (a ∷ ss) s found sat =
      elim (Bool-cases (Step.is_unsaturated T B a)) [
        | inr front ↦ front_lem n (suc i) a ss s front found
        | inl unsat ↦
            let (d, k, b, dropped, same, first, kept, at_i, here) =
              drop_unsaturated_lem (n + 1) i ss s found sat in
            let e : n + suc d ≡ n + 1 + d = omega arith in
            (
              suc d,
              k,
              b,
              drop_next n a ss unsat ∙ rw e dropped,
              rw e same ∙ sym (marks_next n a ss unsat),
              first,
              kept,
              omega (arith, at_i),
              here,
            )
      ]
