-- ===== src/Source/Steps/Delete.antt =====
-- source/src/sources/transposer/steps.rs: the set `not_unsaturated` is that of the steps, and
-- `delete_before` keeps it so.
use cozal.Prelude.{
  unwrap, ℕ, zero, suc, ◌+◌, ◌-◌, ◌≡◌, ◌≢◌, refl, false, none, some, Bool-cases, ◌⊎◌, inl, inr,
  List, [], ◌∷◌, get_elem?, get_elem?-drop, get_elem?-bound, drop, ltb, leb, leb→le, arith, ok,
  last?, ◌≤◌, if◌then◌else◌, length, ◌>>=◌,
}
use cozal.Transposer.Backend.{Backend}
use cozal.Transposer.Program.{Transposer}
use cozal.Transposer.Step
use cozal.Transposer.Step.{Step}
use cozal.Source.Sets
use cozal.Source.Steps
use cozal.Source.Steps.{Steps, Found, at, absent, before_or_at}
use cozal.Source.Steps.Query
use cozal.Source.Steps.Query.{delete_before, keep_from, earliest_poll_time}

module _ (T : Transposer) (B : Backend T.Scheduled) where
  -- The sequence numbers of the steps that are not unsaturated, from the number of the first.
  abbrev pub marks : ℕ → List (Step T B) → List ℕ
  marks n [] = []
  marks n (s ∷ ss) =
      let rest = marks (n + 1) ss in if Step.is_unsaturated T B s then rest else n ∷ rest

  pub record Inv (self : Steps T B) : Type 0 where
    pub marked : self.not_unsaturated ≡ marks self.num_deleted_steps self.steps
    pub front :
        (s : Step T B) × (get_elem? self.steps 0 ≡ some s) × (Step.is_unsaturated T B s ≡ false)

module _ (T : Transposer) (B : Backend T.Scheduled) where
  -- The last mark up to `k`, if there is one.
  last_up_to :
      (k n : ℕ) (ss : List (Step T B))
      → (last? (Sets.up_to k (marks T B n ss)) ≡ none)
        ⊎ ((j : ℕ) × (s : Step T B) × (last? (Sets.up_to k (marks T B n ss)) ≡ some (n + j))
            × (n + j ≤ k)
            × (get_elem? ss j ≡ some s)
            × (Step.is_unsaturated T B s ≡ false))
  unfolding Sets.up_to
  last_up_to k n [] = inl refl
  last_up_to k n (s ∷ ss) = elim (last_up_to k (n + 1) ss) [
    | inl e ↦ elim (Bool-cases (Step.is_unsaturated T B s)) [
      | inl unsat ↦ inl (rw unsat e)
      | inr sat ↦ elim (Bool-cases (leb n k)) [
        | inl le ↦ inr (0, s, ground arith, omega (arith, leb→le n k le), refl, sat)
        | inr gt ↦ inl (rw (sat, gt) e)
      ]
    ]
    | inr (j, t, e, le, found, sat) ↦
        let shift : n + 1 + j ≡ n + suc j = omega arith in
        inr (suc j, t, ground (arith, e, shift), omega arith, found, sat)
  ]

  -- All marks are at least the first number.
  from-marks_all :
      (k n : ℕ) (ss : List (Step T B)) → k ≤ n → Sets.from k (marks T B n ss) ≡ marks T B n ss
  unfolding Sets.from
  from-marks_all k n [] h = refl
  from-marks_all k n (s ∷ ss) h = ground (arith, from-marks_all k (n + 1) ss)

  from-marks :
      (n j : ℕ) (ss : List (Step T B))
      → Sets.from (n + j) (marks T B n ss) ≡ marks T B (n + j) (drop j ss)
  unfolding Sets.from
  from-marks n zero ss =
      let e : n + 0 ≡ n = omega arith in rw e (from-marks_all n n ss (omega arith))
  from-marks n (suc j) [] = refl
  from-marks n (suc j) (s ∷ ss) =
      let e : n + suc j ≡ n + 1 + j = omega arith in rw e (ground (arith, from-marks (n + 1) j ss))

  abbrev bound : Found → ℕ
  bound (at i) = i
  bound (absent i) = i

  bound-shift : (f : Found) → bound (Steps.shift_found f) ≡ suc (bound f)
  bound-shift (at i) = refl
  bound-shift (absent i) = refl

  -- Every step of the time or of a later one stands at the index that the search gives, or behind it.
  search_bound :
      (time : ℕ) (ss : List (Step T B)) (j : ℕ) (s : Step T B)
      → get_elem? ss j ≡ some s
      → time ≤ Step.get_time T B s
      → bound (Steps.binary_search T B time ss) ≤ j
  unfolding Steps.binary_search
  search_bound time [] j s h late = cc
  search_bound time (a ∷ ss) zero s h late = ground arith
  search_bound time (a ∷ ss) (suc j) s h late =
      ground (arith, search_bound time ss j s h late, bound-shift (Steps.binary_search T B time ss))

  before_shift :
      (f : Found)
      → (i : ℕ) × (before_or_at (Steps.shift_found f) ≡ ok i) × (i ≤ bound (Steps.shift_found f))
  before_shift (at i) = (suc i, refl, omega arith)
  before_shift (absent i) = (i, ground arith, omega arith)

  -- From the time of the first step on the search finds a step before or at the time.
  search_ok :
      (time : ℕ) (a : Step T B) (ss : List (Step T B))
      → Step.get_time T B a ≤ time
      → (i : ℕ) × (before_or_at (Steps.binary_search T B time (a ∷ ss)) ≡ ok i)
        × (i ≤ bound (Steps.binary_search T B time (a ∷ ss)))
  unfolding Steps.binary_search
  search_ok time a ss h = elim (Bool-cases (ltb (Step.get_time T B a) time)) [
    | inl lt ↦
        let e : Steps.binary_search T B time (a ∷ ss)
            ≡ Steps.shift_found (Steps.binary_search T B time ss) =
          ground arith in
        rw e (before_shift (Steps.binary_search T B time ss))
    | inr here ↦ (0, ground arith, ground arith)
  ]

  first_marked :
      (k n : ℕ) (b : Step T B) (ss : List (Step T B))
      → Step.is_unsaturated T B b ≡ false
      → n ≤ k
      → last? (Sets.up_to k (marks T B n (b ∷ ss))) ≢ none
  unfolding Sets.up_to
  first_marked k n b ss sat le = ground arith

  checkpoint_of :
      (n time : ℕ) (ss : List (Step T B)) (a : Step T B)
      → get_elem? ss 0 ≡ some a
      → Step.is_unsaturated T B a ≡ false
      → Step.get_time T B a ≤ time
      → (j : ℕ) × (s : Step T B) × ((do
        i ← before_or_at (Steps.binary_search T B time ss)
        unwrap (last? (Sets.up_to (i + n) (marks T B n ss))))
          ≡ ok (n + j))
        × (j ≤ bound (Steps.binary_search T B time ss))
        × (get_elem? ss j ≡ some s)
        × (Step.is_unsaturated T B s ≡ false)
  checkpoint_of n time [] a first sat early = absurd (cc)
  checkpoint_of n time (b ∷ ss) a first sat early =
      let same : b ≡ a = ground arith in
      let (i, found, le) = search_ok time b ss (rw same early) in
      elim (last_up_to (i + n) n (b ∷ ss)) [
        | inl lost ↦ absurd (first_marked (i + n) n b ss (rw same sat) (omega arith) lost)
        | inr (j, s, e, lt, at_j, sat_j) ↦ (j, s, rw (found, ◌>>=◌, e), omega arith, at_j, sat_j)
      ]

  -- The checkpoint that a poll at a time starts from, when the first step is not later.
  pub checkpoint :
      (self : Steps T B) (time : ℕ)
      → Inv T B self
      → ((s : Step T B) → get_elem? self.steps 0 ≡ some s → Step.get_time T B s ≤ time)
      → (j : ℕ) × (s : Step T B) × (Steps.get_not_unsaturated_before_or_at_time T B time self
          ≡ ok (self.num_deleted_steps + j))
        × (j ≤ bound (Steps.binary_search T B time self.steps))
        × (get_elem? self.steps j ≡ some s)
        × (Step.is_unsaturated T B s ≡ false)
  unfolding Steps.get_not_unsaturated_before_or_at_time
  checkpoint self time inv early =
      let (a, first, sat) = inv.front in
      rw inv.marked
        (checkpoint_of self.num_deleted_steps time self.steps a first sat (early a first))

  pub marked_first : (self : Steps T B) → Inv T B self → Steps.debug_assertions T B self ≡ ok tt
  unfolding Steps.debug_assertions
  marked_first self inv = let (a, first, sat) = inv.front in rw inv.marked (go self.steps first sat)
    where
      go :
          {a : Step T B} (ss : List (Step T B))
          → get_elem? ss 0 ≡ some a
          → Step.is_unsaturated T B a ≡ false
          → Steps.check_first T B self.num_deleted_steps (marks T B self.num_deleted_steps ss)
            ≡ ok tt
      go [] first sat = absurd (cc)
      go (b ∷ ss) first sat = ground arith

  pub keep_from-Inv :
      (self : Steps T B) (time j : ℕ) (s : Step T B)
      → Inv T B self
      → get_elem? self.steps j ≡ some s
      → Step.is_unsaturated T B s ≡ false
      → Inv T B (keep_from T B time (self.num_deleted_steps + j) j self)
  unfolding keep_from
  keep_from-Inv self time j s inv found sat =
      let e : j + 0 ≡ j = omega arith in
      record {
        marked = rw inv.marked (from-marks self.num_deleted_steps j self.steps);
        front = (s, rw (get_elem?-drop, e) found, sat);
      }

  -- Where it returns, it keeps the steps from the checkpoint on.
  delete_before_from :
      (self : Steps T B) (time j : ℕ) (s : Step T B)
      → Steps.debug_assertions T B self ≡ ok tt
      → Query.is_deleted T B self.deleted_before time ≡ false
      → (Steps.get_not_unsaturated_before_or_at_time T B time self
          ≡ ok (self.num_deleted_steps + j))
      → get_elem? self.steps j ≡ some s
      → (delete_before T B time self
          ≡ ok (
            earliest_poll_time T B (keep_from T B time (self.num_deleted_steps + j) j self),
            keep_from T B time (self.num_deleted_steps + j) j self,
          ))
  unfolding delete_before
  delete_before_from self time j s asserted later start found =
      let n = self.num_deleted_steps in
      let back : Steps.sub (n + j) n ≡ ok j = ground arith in
      let inside : ltb (length self.steps) j ≡ false =
        ground (arith, get_elem?-bound self.steps j s found) in
      rw (asserted, later, start, back, inside) refl

  kept_start :
      (self : Steps T B) (time j : ℕ)
      → (Steps.get_not_unsaturated_before_or_at_time T B time self
          ≡ ok (self.num_deleted_steps + j))
      → (Steps.get_not_unsaturated_before_or_at_time T B time self
          ≡ ok (keep_from T B time (self.num_deleted_steps + j) j self).num_deleted_steps)
  unfolding keep_from
  kept_start self time j start = start

  -- A step behind the checkpoint keeps its number.
  kept_number :
      (self : Steps T B) (time j q : ℕ) (u : Step T B)
      → j ≤ bound (Steps.binary_search T B time self.steps)
      → Steps.get_by_sequence_number T B q self ≡ some u
      → time ≤ Step.get_time T B u
      → (Steps.get_by_sequence_number T B q (keep_from T B time (self.num_deleted_steps + j) j self)
          ≡ some u)
  unfolding Steps.get_by_sequence_number keep_from
  kept_number self time j q u le present late = elim (Bool-cases (ltb q self.num_deleted_steps)) [
    | inl lt ↦ absurd (ground arith)
    | inr ge ↦
        let here : get_elem? self.steps (q - self.num_deleted_steps) ≡ some u = ground arith in
        let far = search_bound time self.steps (q - self.num_deleted_steps) u here late in
        let inside : ltb q (self.num_deleted_steps + j) ≡ false = ground arith in
        let e : j + (q - (self.num_deleted_steps + j)) ≡ q - self.num_deleted_steps =
          ground arith in
        rw (inside, get_elem?-drop, e) here
  ]

  -- Where the set of checkpoints is that of the steps and has the first one, `delete_before` with a
  -- later time than before, and not before the first step, returns: the set of checkpoints is still
  -- that of the steps, the first step that is left is the checkpoint that a poll at the time starts
  -- from, and every step of the time or of a later one is left.
  pub delete_before_total :
      (self : Steps T B) (time : ℕ)
      → Inv T B self
      → ((s : Step T B) → get_elem? self.steps 0 ≡ some s → Step.get_time T B s ≤ time)
      → Query.is_deleted T B self.deleted_before time ≡ false
      → (self' : Steps T B) × (delete_before T B time self
          ≡ ok (earliest_poll_time T B self', self'))
        × Inv T B self'
        × (Steps.get_not_unsaturated_before_or_at_time T B time self ≡ ok self'.num_deleted_steps)
        × ((q : ℕ) (s : Step T B)
            → Steps.get_by_sequence_number T B q self ≡ some s
            → time ≤ Step.get_time T B s
            → Steps.get_by_sequence_number T B q self' ≡ some s)
  delete_before_total self time inv early later =
      let (j, s, start, le, found, sat) = checkpoint self time inv early in
      (
        keep_from T B time (self.num_deleted_steps + j) j self,
        delete_before_from self time j s (marked_first self inv) later start found,
        keep_from-Inv self time j s inv found sat,
        kept_start self time j start,
        λ q u present late. kept_number self time j q u le present late,
      )
