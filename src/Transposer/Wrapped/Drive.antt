-- ===== src/Transposer/Wrapped/Drive.antt =====
-- transposer/src/step/wrapped_transposer.rs: a future driven to its end, and what swallowing outputs
-- changes of it.
use cozal.Prelude.{
  ℕ, zero, suc, ◌+◌, ◌-◌, ◌≡◌, refl, sym, ap, ◌∙◌, Option, none, some, Option-cases, inl, inr, List,
  [], ◌∷◌, ◌++◌, length, drop, arith, drop-append,
}
use cozal.Transposer.Backend.{Backend}
use cozal.Transposer.Program.{Program, Transposer}
use cozal.Transposer.Time.{SubStepTime}
use cozal.Transposer.Context
use cozal.Transposer.Context.{SubStepUpdateContext, run_to_end}
use cozal.Transposer.Context.Swallow.{swallowing, run_to_end-swallowing}
use cozal.Transposer.Wrapped.{
  Phase, in_init, in_input, in_scheduled, WrappedTransposer, Future, ready, handler, failed,
  after_handler, scheduled_loop, input_loop, handle_scheduled, handle_input,
}
use cozal.Transposer.Inputs.{StepInputs, handled}

module _ (T : Transposer) (B : Backend T.Scheduled) where
  abbrev pub prepend :
      List T.OutputEvent
      → Option (List T.OutputEvent × WrappedTransposer T B)
      → Option (List T.OutputEvent × WrappedTransposer T B)
  prepend es none = none
  prepend es (some (fs, w)) = some (es ++ fs, w)

  -- All the events that a future sends, and its result, if it ends within `n` handlers.
  unfoldable pub drive : ℕ → Future T B → Option (List T.OutputEvent × WrappedTransposer T B)
  drive zero f = none
  drive (suc n) (ready w) = some ([], w)
  drive (suc n) failed = none
  drive (suc n) (handler phase p context) = elim (run_to_end B p context) [
    | none ↦ none
    | some (es, transposer, context') ↦
        prepend es (drive n (after_handler T B phase transposer context'))
  ]

  -- The same future, with `k` outputs to swallow.
  abbrev pub swallowing_future : ℕ → Future T B → Future T B
  swallowing_future k (ready w) = ready w
  swallowing_future k failed = failed
  swallowing_future k (handler phase p c) = handler phase p (swallowing B k c)

  -- What is left of a run's events when the first `k` are swallowed.
  abbrev pub without_first :
      ℕ
      → Option (List T.OutputEvent × WrappedTransposer T B)
      → Option (List T.OutputEvent × WrappedTransposer T B)
  without_first k none = none
  without_first k (some (es, w)) = some (drop k es, w)

  scheduled_loop-swallowing :
      (t : SubStepTime) (s : T.Self) (k : ℕ) (c : SubStepUpdateContext B)
      → scheduled_loop T B t s (swallowing B k c)
        ≡ swallowing_future k (scheduled_loop T B t s (swallowing B 0 c))
  unfolding scheduled_loop
  scheduled_loop-swallowing t s k c = ground arith

  pub handle_scheduled-swallowing :
      (t : ℕ) (k : ℕ) (w : WrappedTransposer T B)
      → handle_scheduled T B t k w ≡ swallowing_future k (handle_scheduled T B t 0 w)
  unfolding handle_scheduled
  handle_scheduled-swallowing t k w =
      let t' : SubStepTime = record { index = w.metadata.last_updated.index + 1; time = t } in
      scheduled_loop-swallowing t' w.transposer k (Context.new B t' w.metadata 0)

  input_loop-swallowing :
      (t : SubStepTime) (is : List T.InputEvent) (s : T.Self) (k : ℕ) (c : SubStepUpdateContext B)
      → input_loop T B t is s (swallowing B k c)
        ≡ swallowing_future k (input_loop T B t is s (swallowing B 0 c))
  unfolding input_loop
  input_loop-swallowing t [] s k c = handle_scheduled-swallowing t.time k _
  input_loop-swallowing t (i ∷ is) s k c = refl

  pub handle_input-swallowing :
      (i : StepInputs T) (k : ℕ) (w : WrappedTransposer T B)
      → handle_input T B i k w ≡ swallowing_future k (handle_input T B i 0 w)
  unfolding handle_input
  handle_input-swallowing i k w =
      let t : SubStepTime = record { index = w.metadata.last_updated.index + 1; time = i.time } in
      input_loop-swallowing t (handled T i) w.transposer k (Context.new B t w.metadata 0)

  after_handler-swallowing :
      (phase : Phase T) (s : T.Self) (k : ℕ) (c : SubStepUpdateContext B)
      → after_handler T B phase s (swallowing B k c)
        ≡ swallowing_future k (after_handler T B phase s (swallowing B 0 c))
  unfolding after_handler
  after_handler-swallowing (in_init start) s k c = handle_scheduled-swallowing start k _
  after_handler-swallowing (in_input t rest) s k c = input_loop-swallowing t rest s k (record c {
    metadata = record (c.metadata) {
      last_updated = record { index = c.metadata.last_updated.index + 1; time = t.time };
    };
  })
  after_handler-swallowing (in_scheduled t) s k c =
      scheduled_loop-swallowing (record t { index = t.index + 1 }) s k
        (record c { metadata = record (c.metadata) { last_updated = t } })

  -- A run that swallows nothing leaves nothing to swallow.
  nothing_left :
      (p : Program T.Scheduled T.OutputEvent T.Self) (c : SubStepUpdateContext B)
      {es : List T.OutputEvent} {s : T.Self} {c' : SubStepUpdateContext B}
      → run_to_end B p (swallowing B 0 c) ≡ some (es, s, c')
      → c' ≡ swallowing B 0 c'
  nothing_left p c {es} {s} {c'} e = ground (arith, run_to_end-swallowing B p 0 c)

  without_first-prepend :
      (k : ℕ) (es : List T.OutputEvent) (o : Option (List T.OutputEvent × WrappedTransposer T B))
      → prepend (drop k es) (without_first (k - length es) o) ≡ without_first k (prepend es o)
  without_first-prepend k es none = refl
  without_first-prepend k es (some (fs, w)) = ap (λ l. some (l, w)) (sym (drop-append k es fs))

  -- One handler, whose run ends in `es`, `s` and `c`: what follows it is driven by `rest`.
  drive-after_handler :
      (n k : ℕ) (phase : Phase T) (es : List T.OutputEvent) (s : T.Self)
      (c : SubStepUpdateContext B)
      → c ≡ swallowing B 0 c
      → ((j : ℕ) (f : Future T B)
          → drive n (swallowing_future j f) ≡ without_first j (drive n (swallowing_future 0 f)))
      → prepend (drop k es) (drive n (after_handler T B phase s (swallowing B (k - length es) c)))
        ≡ without_first k (prepend es (drive n (after_handler T B phase s c)))
  drive-after_handler n k phase es s c none_left rest =
      let j = k - length es in
      let f = after_handler T B phase s (swallowing B 0 c) in
      ap (λ g. prepend (drop k es) (drive n g)) (after_handler-swallowing phase s j c)
      ∙ ap (prepend (drop k es)) (rest j f)
      ∙ without_first-prepend k es (drive n (swallowing_future 0 f))
      ∙ ap (λ g. without_first k (prepend es (drive n g)))
          (sym (after_handler-swallowing phase s 0 c)
            ∙ ap (after_handler T B phase s) (sym none_left))

  -- A future that swallows `k` outputs sends the same events but the first `k`, and has the same
  -- result.
  pub drive-swallowing :
      (n k : ℕ) (f : Future T B)
      → drive n (swallowing_future k f) ≡ without_first k (drive n (swallowing_future 0 f))
  unfolding drive
  drive-swallowing zero k f = refl
  drive-swallowing (suc n) zero (ready w) = refl
  drive-swallowing (suc n) (suc k) (ready w) = refl
  drive-swallowing (suc n) k failed = refl
  drive-swallowing (suc n) k (handler phase p c) =
      elim (Option-cases (run_to_end B p (swallowing B 0 c))) [
        | inl e ↦ rw (drive, run_to_end-swallowing B p k c, e)
        | inr ((es, s, c'), e) ↦
            rw (drive, run_to_end-swallowing B p k c, e)
              (drive-after_handler n k phase es s c' (nothing_left p c e) (drive-swallowing n))
      ]
