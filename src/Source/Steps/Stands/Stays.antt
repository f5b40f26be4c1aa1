-- ===== src/Source/Steps/Stands/Stays.antt =====
-- source/src/sources/transposer/steps.rs: `delete_before` leaves the steps standing where they do.
use cozal.Prelude.{
  ℕ, zero, suc, ◌+◌, ◌-◌, ◌≡◌, ◌⊎◌, refl, sym, ◌∙◌, ap, subst, false, Option, some, List, [], ◌∷◌,
  ◌++◌, get_elem?, get_elem?-bound, get_elem?-drop, get_elem?-last?, drop, drop-append, last?,
  length, arith, ok, inl, inr,
}
use cozal.Transposer.Backend.{Backend}
use cozal.Transposer.Program.{Transposer}
use cozal.Transposer.Wrapped.{WrappedTransposer}
use cozal.Transposer.Step
use cozal.Transposer.Step.{Step}
use cozal.Source.Steps
use cozal.Source.Steps.{Steps}
use cozal.Source.Steps.Query.{delete_before, keep_from}
use cozal.Source.Steps.Delete.{keep_from-Inv}
use cozal.Source.Steps.Events.{next, next-is_unsaturated}
use cozal.Source.Steps.Saturate.Last.{last?-get_elem?}
use cozal.Source.Steps.Stands.{Stands, Rests, rests, awaits}
use cozal.Source.Steps.Stands.Due.{awaiting-Inv}
use cozal.Source.Steps.Kept.Calls.{delete_before-ok}

length-drop : {A : Type 0} (n : ℕ) (xs : List A) → length (drop n xs) ≡ length xs - n
length-drop zero xs = omega arith
length-drop (suc n) [] = omega arith
length-drop (suc n) (x ∷ xs) = omega (arith, length-drop n xs)

last?-drop :
    {A : Type 0} (n : ℕ) (xs : List A) (x y : A)
    → get_elem? xs n ≡ some y
    → last? xs ≡ some x
    → last? (drop n xs) ≡ some x
last?-drop n xs x y at_n at_end =
    let (i, len, at_i) = get_elem?-last? xs x at_end in
    let bound = get_elem?-bound xs n y at_n in
    let index : n + (i - n) ≡ i = omega (arith, len, bound) in
    last?-get_elem? (drop n xs) (i - n) x (length-drop n xs ∙ omega (arith, len, bound))
      (get_elem?-drop n (i - n) xs ∙ ap (get_elem? xs) index ∙ at_i)

-- An element before the last one.
get_elem?-front :
    {A : Type 0} (xs : List A) (x y : A) (n : ℕ)
    → get_elem? (xs ++ x ∷ []) n ≡ some y
    → (get_elem? xs n ≡ some y) ⊎ (x ≡ y)
get_elem?-front [] x y zero h = inr (ground (arith, h))
get_elem?-front [] x y (suc n) h = absurd (cc)
get_elem?-front (z ∷ xs) x y zero h = inl h
get_elem?-front (z ∷ xs) x y (suc n) h = get_elem?-front xs x y n h

module _ (T : Transposer) (B : Backend T.Scheduled) where
  keep_from-push :
      (time j k : ℕ) (s a : Step T B) (self : Steps T B)
      → get_elem? self.steps j ≡ some s
      → Steps.push T B (some a) (keep_from T B time k j self)
        ≡ keep_from T B time k j (Steps.push T B (some a) self)
  unfolding keep_from
  keep_from-push time j k s a self found =
      let bound = get_elem?-bound self.steps j s found in
      let none_left : j - length self.steps ≡ 0 = omega (arith, bound) in
      let e : drop j (self.steps ++ a ∷ []) ≡ drop j self.steps ++ a ∷ [] =
        drop-append j self.steps (a ∷ [])
        ∙ ap (λ n. drop j self.steps ++ drop n (a ∷ [])) none_left in
      ap (λ l. let kept = keep_from T B time k j self in record kept { steps = l }) (sym e)

module _ (T : Transposer) (B : Backend T.Scheduled) {w : WrappedTransposer T B} where
  keep_from-Rests :
      (time j : ℕ) (s : Step T B) {self : Steps T B} (r : Rests T B w self)
      → get_elem? self.steps j ≡ some s
      → Step.is_unsaturated T B s ≡ false
      → (r' : Rests T B w (keep_from T B time (self.num_deleted_steps + j) j self)) × (r'.last
          ≡ r.last)
  unfolding keep_from
  keep_from-Rests time j s {self} r found sat = (
    record {
      inv = keep_from-Inv T B self time j s r.inv found sat;
      last = r.last;
      at_end = last?-drop j self.steps r.last s found r.at_end;
      reached = r.reached;
      silent = r.silent;
    },
    refl,
  )

  pub delete_before-Stands :
      (time : ℕ) (next_time : Option ℕ) {self self' : Steps T B}
      → Stands T B w self
      → delete_before T B time self ≡ ok (next_time, self')
      → Stands T B w self'
  delete_before-Stands time next_time {self} {self'} (rests r) h =
      elim (delete_before-ok T B self self' time next_time r.inv h) [
        | inl same ↦ subst (Stands T B w) same (rests r)
        | inr (j, s, found, sat, kept) ↦
            subst (Stands T B w) kept (rests (keep_from-Rests time j s r found sat).0)
      ]
  delete_before-Stands time next_time {self' = self'} (awaits {self = self} uuid t r scheduled) h =
      let a = next T B uuid r.last t in
      let pushed = Steps.push T B (some a) self in
      elim (delete_before-ok T B pushed self' time next_time (awaiting-Inv T B r uuid t) h) [
        | inl same ↦ subst (Stands T B w) same (awaits uuid t r scheduled)
        | inr (j, s, found, sat, kept) ↦ elim (get_elem?-front self.steps a s j found) [
          | inl found₀ ↦
              let k = self.num_deleted_steps + j in
              let (r', same) = keep_from-Rests time j s r found₀ sat in
              subst (Stands T B w) (keep_from-push T B time j k s a self found₀ ∙ kept) (
                subst
                  (λ l.
                    Stands T B w
                      (Steps.push T B (some (next T B uuid l t)) (keep_from T B time k j self)))
                  same (awaits uuid t r' scheduled))
          | inr same ↦ absurd (
              cc (
                sym (next-is_unsaturated T B uuid r.last t)
                ∙ ap (Step.is_unsaturated T B) same
                ∙ sat))
        ]
      ]
