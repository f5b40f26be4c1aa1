-- ===== src/Source/Steps/Search.antt =====
-- source/src/sources/transposer/steps.rs: the search for the step of a time.
use cozal.Prelude.{
  ℕ, zero, suc, ◌<◌, ◌≤◌, ◌≡◌, refl, some, List, [], ◌∷◌, get_elem?, ltb, Bool-cases, inl, inr, ok,
  arith,
}
use cozal.Transposer.Backend.{Backend}
use cozal.Transposer.Program.{Transposer}
use cozal.Transposer.Step
use cozal.Transposer.Step.{Step}
use cozal.Source.Steps
use cozal.Source.Steps.{Found, at, absent, shift_found}
use cozal.Source.Steps.Query.{found_or_before}

module _ (T : Transposer) (B : Backend T.Scheduled) where
  -- The times of the steps go up.
  pub data Ascending : List (Step T B) → Type 0 where
    one_step : {s : Step T B} → Ascending (s ∷ [])
    earlier :
        {s t : Step T B} {ss : List (Step T B)}
        → Step.get_time T B s < Step.get_time T B t
        → Ascending (t ∷ ss)
        → Ascending (s ∷ t ∷ ss)

  found_or_before-shift_found :
      (f : Found) (i : ℕ)
      → found_or_before T B f ≡ ok i
      → found_or_before T B (shift_found f) ≡ ok (suc i)
  found_or_before-shift_found (at j) i h = ground (arith, h)
  found_or_before-shift_found (absent zero) i h = absurd (cc)
  found_or_before-shift_found (absent (suc j)) i h = ground (arith, h)

  -- On steps whose times go up, the first of them not later than `time`, the search ends at the index of
  -- the last step that is not later than `time`.
  pub binary_search_lem :
      (time : ℕ) (a : Step T B) (ss : List (Step T B))
      → Ascending (a ∷ ss)
      → Step.get_time T B a ≤ time
      → (i : ℕ) × (s : Step T B) × (found_or_before T B (Steps.binary_search T B time (a ∷ ss))
          ≡ ok i)
        × (get_elem? (a ∷ ss) i ≡ some s)
        × (Step.get_time T B s ≤ time)
        × ((u : Step T B) → get_elem? (a ∷ ss) (suc i) ≡ some u → time < Step.get_time T B u)
  unfolding Steps.binary_search
  binary_search_lem time a [] one_step le =
      (0, a, ground (arith, le), refl, le, λ u h. absurd (cc h))
  binary_search_lem time a (t ∷ ss) (earlier lt up) le =
      elim (Bool-cases (ltb time (Step.get_time T B t))) [
        | inl late ↦ (0, a, ground (arith, le, late), refl, le, λ u h. ground (arith, late, h))
        | inr due ↦
            let (i, s, found, here, le', next) =
              binary_search_lem time t ss up (ground (arith, due)) in
            let shifted =
              found_or_before-shift_found (Steps.binary_search T B time (t ∷ ss)) i found in
            let step : Steps.binary_search T B time (a ∷ t ∷ ss)
                ≡ shift_found (Steps.binary_search T B time (t ∷ ss)) =
              ground (arith, lt, due) in
            (suc i, s, rw step shifted, here, le', next)
      ]
