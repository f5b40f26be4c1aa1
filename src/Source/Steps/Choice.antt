-- ===== src/Source/Steps/Choice.antt =====
-- source/src/sources/transposer/steps.rs: the checkpoint that gives way to a new one.
use cozal.Prelude.{
  ℕ, ◌+◌, ◌≤◌, ◌≡◌, ◌≢◌, refl, sym, ◌∙◌, true, false, ◌||◌, none, some, Option-cases, >>=-ok,
  Bool-cases, ◌⊎◌, inl, inr, List, [], ◌∷◌, ◌++◌, get_elem?, last?, ltb, ◌==◌, arith, ok, ◌>>=◌,
  if◌then◌else◌, length,
}
use cozal.Transposer.Backend.{Backend}
use cozal.Transposer.Program.{Transposer}
use cozal.Transposer.Step
use cozal.Transposer.Step.{Step}
use cozal.Source.Sets
use cozal.Source.Steps
use cozal.Source.Steps.{Steps}

contains-append :
    (k : ℕ) (xs ys : List ℕ)
    → Sets.contains k (xs ++ ys) ≡ (Sets.contains k xs || Sets.contains k ys)
contains-append k [] ys = refl
contains-append k (x ∷ xs) ys = ground (arith, contains-append k xs ys)

lesser_cases : (x y : ℕ) → (Sets.lesser x (some y) ≡ x) ⊎ (Sets.lesser x (some y) ≡ y)
lesser_cases x y = elim (Bool-cases (Sets.precedes x y)) [
  | inl e ↦ inl (rw e refl)
  | inr e ↦ inr (rw e refl)
]

least_cons : (x : ℕ) (xs : List ℕ) → Sets.least (x ∷ xs) ≡ some (Sets.lesser x (Sets.least xs))
unfolding Sets.least
least_cons x xs = refl

least_nil : Sets.least [] ≡ none
unfolding Sets.least
least_nil = refl

-- The choice is one of the candidates.
contains-least : (i : ℕ) (xs : List ℕ) → Sets.least xs ≡ some i → Sets.contains i xs ≡ true
contains-least i [] h = absurd (let e = least_nil in cc)
contains-least i (x ∷ xs) h =
    let e = least_cons x xs in
    elim (Option-cases (Sets.least xs)) [
      | inl none_left ↦ let here : x ≡ i = ground (arith, e, none_left) in ground (arith, here)
      | inr (y, found) ↦
          let there = contains-least y xs found in
          let same : Sets.lesser x (some y) ≡ i = ground (arith, e, found) in
          elim (lesser_cases x y) [
            | inl p ↦ let xi : x ≡ i = sym p ∙ same in ground (arith, xi)
            | inr p ↦ let yi : y ≡ i = sym p ∙ same in ground (arith, yi, there)
          ]
    ]

first_contained : (k : ℕ) (xs : List ℕ) → get_elem? xs 0 ≡ some k → Sets.contains k xs ≡ true
first_contained k [] h = absurd (cc)
first_contained k (x ∷ xs) h = ground arith

module _ (T : Transposer) (B : Backend T.Scheduled) where
  contains-not_needed :
      (i : ℕ) (needed xs : List ℕ)
      → Sets.contains i (Steps.not_needed T B needed xs) ≡ true
      → (Sets.contains i xs ≡ true) × (Sets.contains i needed ≡ false)
  unfolding Steps.not_needed
  contains-not_needed i needed [] h = absurd (cc)
  contains-not_needed i needed (x ∷ xs) h = ground (arith, contains-not_needed i needed xs)

  -- The step that a pinned poll starts from is among those needed.
  contains-needed_pinned :
      (self : Steps T B) (t i : ℕ) (times pinned : List ℕ)
      → Steps.needed_pinned T B self times ≡ ok pinned
      → Sets.contains t times ≡ true
      → Steps.get_not_unsaturated_before_or_at_time T B t self ≡ ok i
      → Sets.contains i pinned ≡ true
  contains-needed_pinned self t i [] pinned h here e = absurd (cc)
  contains-needed_pinned self t i (u ∷ us) pinned h here e =
      let (j, at_u, tail) =
        >>=-ok (Steps.get_not_unsaturated_before_or_at_time T B u self)
          (λ j. Steps.needed_pinned T B self us >>= λ rest. ok (j ∷ rest)) pinned h in
      let (rest, at_us, split) =
        >>=-ok (Steps.needed_pinned T B self us) (λ rest. ok (j ∷ rest)) pinned tail in
      elim (Bool-cases (t == u)) [
        | inl same ↦
            let tu : t ≡ u = ground arith in
            let ij : ok i ≡ ok j = sym e ∙ (rw tu at_u) in ground (arith, ij, split)
        | inr other ↦
            let there : Sets.contains t us ≡ true = ground arith in
            ground (arith, contains-needed_pinned self t i us rest at_us there e, split)
      ]

  -- The oldest and the newest checkpoint apart, what `choose_to_delete` chooses is a checkpoint, and
  -- none that a poll of a pinned time starts from.
  choose_to_delete_lem :
      (self : Steps T B) (times : List ℕ) (newly first last i : ℕ)
      → Steps.choose_to_delete T B times newly first last self ≡ ok (some i)
      → (Sets.contains i self.not_unsaturated ≡ true)
        × (i ≢ first)
        × ((last + 1 == newly) ≡ false → i ≢ last)
        × ((t : ℕ)
            → Sets.contains t times ≡ true
            → Steps.get_not_unsaturated_before_or_at_time T B t self ≢ ok i)
  unfolding Steps.choose_to_delete
  choose_to_delete_lem self times newly first last i h =
      let latest = if last + 1 == newly then [] else last ∷ [] in
      let (pinned, e, chosen) =
        >>=-ok (Steps.needed_pinned T B self times)
          (λ pinned.
            ok (Sets.least (Steps.not_needed T B (first ∷ latest ++ pinned) self.not_unsaturated)))
          (some i) h in
      let least : Sets.least (Steps.not_needed T B (first ∷ latest ++ pinned) self.not_unsaturated)
          ≡ some i =
        ground (arith, chosen) in
      let (present, free) =
        contains-not_needed i (first ∷ latest ++ pinned) self.not_unsaturated
          (contains-least i _ least) in
      let apart = contains-append i latest pinned in
      (
        present,
        ground (arith, free),
        ground (arith, free, apart),
        λ t pin start.
            ground (arith, free, apart, contains-needed_pinned self t i times pinned e pin start),
      )

  -- What `sequence_number_to_delete` chooses is a checkpoint. It is the first one just if that one is
  -- followed by the step to saturate and deleted already; else there are as many checkpoints as
  -- allowed, it is not the first one, not the last one unless the step to saturate follows that one,
  -- and not one that a poll of a pinned time starts from.
  pub sequence_number_to_delete_lem :
      (self : Steps T B) (times : List ℕ) (newly first last i : ℕ) (front : Step T B)
      → get_elem? self.not_unsaturated 0 ≡ some first
      → get_elem? self.steps 0 ≡ some front
      → last? self.not_unsaturated ≡ some last
      → Steps.sequence_number_to_delete T B times newly self ≡ ok (some i)
      → (Sets.contains i self.not_unsaturated ≡ true)
        × (((i ≡ first)
              × (Steps.first_is_spent T B self.deleted_before (Step.get_time T B front) first newly
                  ≡ true))
            ⊎ ((self.number_of_checkpoints ≤ length self.not_unsaturated)
                × (i ≢ first)
                × ((last + 1 == newly) ≡ false → i ≢ last)
                × ((t : ℕ)
                    → Sets.contains t times ≡ true
                    → Steps.get_not_unsaturated_before_or_at_time T B t self ≢ ok i)))
  unfolding Steps.sequence_number_to_delete
  sequence_number_to_delete_lem self times newly first last i front marked at_front at_last h =
      let spent =
        Steps.first_is_spent T B self.deleted_before (Step.get_time T B front) first newly in
      let few = ltb (length self.not_unsaturated) self.number_of_checkpoints in
      let chosen : (if spent
            then ok (some first)
            else (if few then ok none else Steps.choose_to_delete T B times newly first last self))
          ≡ ok (some i) =
        rw (Steps.sequence_number_to_delete, marked, at_front, at_last, ◌>>=◌) at h in
      elim (Bool-cases spent) [
        | inl holds ↦
            let here : first ≡ i = ground (arith, chosen, holds) in
            (
              ground (arith, first_contained first self.not_unsaturated marked, here),
              inl (sym here, holds),
            )
        | inr fails ↦ elim (Bool-cases few) [
          | inl holds ↦ absurd (ground (arith, chosen, fails, holds))
          | inr enough ↦
              let rest : Steps.choose_to_delete T B times newly first last self ≡ ok (some i) =
                ground (arith, chosen, fails, enough) in
              let (present, off_first, off_last, off_pinned) =
                choose_to_delete_lem self times newly first last i rest in
              (present, inr (ground (arith, enough), off_first, off_last, off_pinned))
        ]
      ]
