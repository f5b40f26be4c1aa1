-- ===== src/Source/NoInput/Reference/Parts.antt =====
-- source/src/sources/transposer/no_input_transposer.rs: the run of a transposer up to a time, and on from
-- there to a later one.
use cozal.Prelude.{
  ℕ, suc, ◌+◌, ◌≤◌, ◌≡◌, refl, sym, ap, ◌∙◌, Option, some, none, List, [], ◌++◌, arith, inl, inr,
  ltb, Bool-cases,
}
use mathlib.Core.List.{append_assoc}
use cozal.Transposer.Time.{ScheduledTime}
use cozal.Transposer.Backend.{Backend}
use cozal.Transposer.Program.{Transposer}
use cozal.Transposer.Wrapped.{WrappedTransposer}
use cozal.Source.Steps.Stands.{IsLater}
use cozal.Source.NoInput.Reference.{stamp, RunsTo, idle, handled}

IsLater-before :
    (time time' : ℕ) (o : Option ScheduledTime) → time ≤ time' → IsLater time' o → IsLater time o
IsLater-before time time' none le later = tt
IsLater-before time time' (some t) le later = omega (arith, le, later)

module _ (T : Transposer) (B : Backend T.Scheduled) where
  -- A run up to a time passes by an earlier time.
  pub record Split (n time time' k : ℕ) (w : WrappedTransposer T B) (es : List (ℕ × T.OutputEvent))
      (w' : WrappedTransposer T B) : Type 0 where
    pub before : List (ℕ × T.OutputEvent)
    pub later : List (ℕ × T.OutputEvent)
    pub k₀ : ℕ
    pub k₁ : ℕ
    pub between : WrappedTransposer T B
    pub first : RunsTo T B n time k₀ w before between
    pub second : RunsTo T B n time' k₁ between later w'
    pub all : es ≡ before ++ later
    pub count : k ≡ k₀ + k₁

module _ (T : Transposer) (B : Backend T.Scheduled) where
  pub RunsTo-Split :
      (n time time' k : ℕ) {w w' : WrappedTransposer T B} {es : List (ℕ × T.OutputEvent)}
      → time ≤ time'
      → RunsTo T B n time' k w es w'
      → Split T B n time time' k w es w'
  RunsTo-Split n time time' k {w = w} le (idle later) = record {
    before = [];
    later = [];
    k₀ = 0;
    k₁ = 0;
    between = w;
    first = idle (IsLater-before time time' _ le later);
    second = idle later;
    all = refl;
    count = omega arith;
  }
  RunsTo-Split n time time' (suc k) {w = w} le
        (handled {t = t} {es = es} {fs = fs} scheduled due driven run) =
      elim (Bool-cases (ltb time t.time)) [
        | inl early ↦ record {
          before = [];
          later = stamp t.time es ++ fs;
          k₀ = 0;
          k₁ = suc k;
          between = w;
          first = idle (rw scheduled (ground (arith, early)));
          second = handled scheduled due driven run;
          all = refl;
          count = omega arith;
        }
        | inr now ↦
            let s = RunsTo-Split n time time' k le run in
            record {
              before = stamp t.time es ++ s.before;
              later = s.later;
              k₀ = suc s.k₀;
              k₁ = s.k₁;
              between = s.between;
              first = handled scheduled (ground (arith, now)) driven s.first;
              second = s.second;
              all =
                  ap (λ l. stamp t.time es ++ l) s.all
                  ∙ sym (append_assoc (stamp t.time es) s.before s.later);
              count = omega (arith, s.count);
            }
      ]
