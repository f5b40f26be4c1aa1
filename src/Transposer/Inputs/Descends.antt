-- ===== src/Transposer/Inputs/Descends.antt =====
-- transposer/src/step/step_inputs.rs: the order in which the input events of a type are handled.
use cozal.Prelude.{
  ℕ, ◌≡◌, ◌≢◌, refl, sym, ap, ◌∙◌, subst, Ordering, compare, Bool-cases, inl, inr, List, [], ◌∷◌,
  ◌++◌, ok, >>=-ok, ok_inj, arith,
}
use mathlib.Core.List.{append_assoc}
use cozal.Transposer.Program.{Transposer}
use cozal.Transposer.Inputs.{
  StepInputs, StepInputsEntry, insert_sorted, add_input, add_entry, add_event, values_of, handled,
  new_entry, is_before,
}

module _ (T : Transposer) (time : ℕ) where
  abbrev IsAbove : T.InputEvent → List T.InputEvent → Type 0
  IsAbove a [] = Unit {0}
  IsAbove a (b ∷ _) = T.sort_input_events time a b ≢ Ordering.lt

  -- No event is less than the next one.
  abbrev pub Descends : List T.InputEvent → Type 0
  Descends [] = Unit {0}
  Descends (a ∷ rest) = IsAbove a rest × Descends rest

  abbrev pub AllDescend : List (ℕ × StepInputsEntry T) → Type 0
  AllDescend [] = Unit {0}
  AllDescend ((_, e) ∷ m) = Descends e.values × AllDescend m

-- One list is the other with the value put in.
pub record Inserted {A : Type 0} (a : A) (old new : List A) : Type 0 where
  pub before : List A
  pub after : List A
  pub was : old ≡ before ++ after
  pub is_now : new ≡ before ++ a ∷ after

Inserted-append :
    {A : Type 0} (a : A) (old new rest : List A)
    → Inserted a old new
    → Inserted a (old ++ rest) (new ++ rest)
Inserted-append a old new rest h = record {
  before = h.before;
  after = h.after ++ rest;
  was = ap (λ l. l ++ rest) h.was ∙ append_assoc h.before h.after rest;
  is_now = ap (λ l. l ++ rest) h.is_now ∙ append_assoc h.before (a ∷ h.after) rest;
}

Inserted-prepend :
    {A : Type 0} (a : A) (front old new : List A)
    → Inserted a old new
    → Inserted a (front ++ old) (front ++ new)
Inserted-prepend a front old new h = record {
  before = front ++ h.before;
  after = h.after;
  was = ap (λ l. front ++ l) h.was ∙ sym (append_assoc front h.before h.after);
  is_now = ap (λ l. front ++ l) h.is_now ∙ sym (append_assoc front h.before (a ∷ h.after));
}

module _ (T : Transposer) where
  Inserted-insert_sorted :
      (time : ℕ) (i : T.InputEvent) (vs : List T.InputEvent)
      → Inserted i vs (insert_sorted T time i vs)
  unfolding insert_sorted
  Inserted-insert_sorted time i [] = record { before = []; after = []; was = refl; is_now = refl }
  Inserted-insert_sorted time i (v ∷ vs) = elim (Bool-cases (is_before T time i v)) [
    | inl e ↦
        rw (insert_sorted, e)
          (Inserted-prepend i (v ∷ []) vs (insert_sorted T time i vs)
            (Inserted-insert_sorted time i vs))
    | inr e ↦
        rw (insert_sorted, e) (record { before = []; after = v ∷ vs; was = refl; is_now = refl })
  ]

  module _ (time : ℕ)
      (flips : (a b : T.InputEvent)
        → T.sort_input_events time a b ≡ Ordering.lt
        → T.sort_input_events time b a ≢ Ordering.lt) where
    IsAbove-insert_sorted :
        (a i : T.InputEvent) (vs : List T.InputEvent)
        → T.sort_input_events time i a ≡ Ordering.lt
        → IsAbove T time a vs
        → IsAbove T time a (insert_sorted T time i vs)
    unfolding insert_sorted
    IsAbove-insert_sorted a i [] lt above = flips i a lt
    IsAbove-insert_sorted a i (v ∷ vs) lt above = elim (Bool-cases (is_before T time i v)) [
      | inl e ↦ rw (insert_sorted, e) above
      | inr e ↦ rw (insert_sorted, e) (flips i a lt)
    ]

    Descends-insert_sorted :
        (i : T.InputEvent) (vs : List T.InputEvent)
        → Descends T time vs
        → Descends T time (insert_sorted T time i vs)
    unfolding insert_sorted
    Descends-insert_sorted i [] down = (tt, tt)
    Descends-insert_sorted i (v ∷ vs) (above, down) = elim (Bool-cases (is_before T time i v)) [
      | inl e ↦
          rw (insert_sorted, e)
            (
              IsAbove-insert_sorted v i vs (ground (arith, e)) above,
              Descends-insert_sorted i vs down,
            )
      | inr e ↦ rw (insert_sorted, e) ((λ lt. ground (arith, e, lt)), (above, down))
    ]

    -- What an entry becomes.
    add_input_lem :
        (i : T.InputEvent) (e e' : StepInputsEntry T)
        → Descends T time e.values
        → add_input T time i e ≡ ok e'
        → Descends T time e'.values × Inserted i e.values e'.values
    unfolding add_input
    add_input_lem i e e' down h =
        let values : e'.values ≡ insert_sorted T time i e.values = ground (arith, h) in
        (
          subst (Descends T time) (sym values) (Descends-insert_sorted i e.values down),
          subst (Inserted i e.values) (sym values) (Inserted-insert_sorted time i e.values),
        )

    abbrev IsAdded :
        T.InputEvent → List (ℕ × StepInputsEntry T) → List (ℕ × StepInputsEntry T) → Type 0
    IsAdded i m m' = AllDescend T time m' × Inserted i (values_of T m) (values_of T m')

    add_entry-IsAdded :
        (i : T.InputEvent) (m m' : List (ℕ × StepInputsEntry T))
        → AllDescend T time m
        → add_entry T time i m ≡ ok m'
        → IsAdded i m m'
    unfolding add_entry
    add_entry-IsAdded i [] m' down h =
        let (e, added, h₁) = >>=-ok (add_input T time i (new_entry T i)) _ _ h in
        let (down', put) = add_input_lem i (new_entry T i) e tt added in
        subst (IsAdded i []) (ok_inj _ m' h₁) ((down', tt), Inserted-append i [] e.values [] put)
    add_entry-IsAdded i ((k, e) ∷ m) m' (down, rest) h =
        go (λ n. add_entry-IsAdded i m n rest) (compare (T.sort i) k) refl
      where
        go :
            ((n : List (ℕ × StepInputsEntry T)) → add_entry T time i m ≡ ok n → IsAdded i m n)
            → (o : Ordering) → compare (T.sort i) k ≡ o
            → IsAdded i ((k, e) ∷ m) m'
        go ih Ordering.lt c =
            let (e', added, h₁) =
              >>=-ok (add_input T time i (new_entry T i)) _ _ (rw (add_entry, c) at h) in
            let (down', put) = add_input_lem i (new_entry T i) e' tt added in
            subst (IsAdded i ((k, e) ∷ m)) (ok_inj _ m' h₁)
              ((down', (down, rest)), Inserted-append i [] e'.values (values_of T ((k, e) ∷ m)) put)
        go ih Ordering.eq c =
            let (e', added, h₁) = >>=-ok (add_input T time i e) _ _ (rw (add_entry, c) at h) in
            let (down', put) = add_input_lem i e e' down added in
            subst (IsAdded i ((k, e) ∷ m)) (ok_inj _ m' h₁)
              ((down', rest), Inserted-append i e.values e'.values (values_of T m) put)
        go ih Ordering.gt c =
            let (n, added, h₁) = >>=-ok (add_entry T time i m) _ _ (rw (add_entry, c) at h) in
            let (rest', put) = ih n added in
            subst (IsAdded i ((k, e) ∷ m)) (ok_inj _ m' h₁)
              ((down, rest'), Inserted-prepend i e.values (values_of T m) (values_of T n) put)

  -- The order that a user gives, of events at one time, is one in which no two events are less than each
  -- other. Where `add_event` returns and the values of each entry descend in that order, they still do;
  -- the event has been put among those that are handled, whose order is as before.
  pub add_event-Descends :
      (i : T.InputEvent) (self self' : StepInputs T)
      → ((a b : T.InputEvent)
          → T.sort_input_events self.time a b ≡ Ordering.lt
          → T.sort_input_events self.time b a ≢ Ordering.lt)
      → AllDescend T self.time self.inputs
      → add_event T i self ≡ ok self'
      → AllDescend T self.time self'.inputs × Inserted i (handled T self) (handled T self')
  unfolding add_event handled
  add_event-Descends i self self' flips down h =
      let (m, added, h₁) = >>=-ok (add_entry T self.time i self.inputs) _ _ h in
      subst
        (λ (s : StepInputs T).
          AllDescend T self.time s.inputs
          × Inserted i (values_of T self.inputs) (values_of T s.inputs))
        (ok_inj _ self' h₁) (add_entry-IsAdded self.time flips i self.inputs m down added)
