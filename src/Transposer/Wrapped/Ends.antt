-- ===== src/Transposer/Wrapped/Ends.antt =====
-- transposer/src/step/wrapped_transposer.rs: a future whose run ends is brought there by its polls.
use cozal.Prelude.{
  ℕ, zero, suc, ◌≤◌, ◌≡◌, refl, sym, ap, ◌∙◌, subst, Option, none, some, Option-cases, inl, inr,
  List, [], ◌∷◌, ◌++◌, arith,
}
use cozal.Transposer.Backend.{Backend}
use cozal.Transposer.Program.{
  Program, Transposer, finish, current_time, last_updated_time, schedule_event,
  schedule_event_expireable, expire_event, emit_event, get_rng, pending,
}
use cozal.Transposer.Context.{
  SubStepUpdateContext, run, run_to_end, schedule, schedule_expireable, expire, draw,
}
use cozal.Transposer.Wrapped.{
  Phase, WrappedTransposer, Future, ready, handler, failed, after_handler, poll, FuturePoll,
  is_ready, is_pending,
}
use cozal.Transposer.Context.Swallow.{swallowing}
use cozal.Transposer.Wrapped.Drive.{drive, prepend}
use cozal.Transposer.Wrapped.Polls.{
  send, send_lem, then_drive, then_poll, poll_handler, drive_handler,
}

module _ (T : Transposer) (B : Backend T.Scheduled) where
  -- A poll, and the polls after it with `fuel` handlers each, return the events and the result.
  pub data Ends (fuel : ℕ)
      : FuturePoll T B → List T.OutputEvent → WrappedTransposer T B → Type 0 where
    at_ready : {w : WrappedTransposer T B} → Ends fuel (is_ready w) [] w
    at_pending :
        {f : Future T B} {es : List T.OutputEvent} {w : WrappedTransposer T B}
        → Ends fuel (poll T B fuel f) es w
        → Ends fuel (is_pending none f) es w
    at_event :
        {f : Future T B} {e : T.OutputEvent} {es : List T.OutputEvent} {w : WrappedTransposer T B}
        → Ends fuel (poll T B fuel f) es w
        → Ends fuel (is_pending (some e) f) (e ∷ es) w

module _ (T : Transposer) (B : Backend T.Scheduled) where
  prepend_nil : (o : Option (List T.OutputEvent × WrappedTransposer T B)) → prepend T B [] o ≡ o
  prepend_nil none = refl
  prepend_nil (some (es, w)) = refl

  abbrev value_or :
      List T.OutputEvent × WrappedTransposer T B
      → Option (List T.OutputEvent × WrappedTransposer T B)
      → List T.OutputEvent × WrappedTransposer T B
  value_or x none = x
  value_or _ (some y) = y

  Ends-of_eq :
      (fuel : ℕ) (q : FuturePoll T B) (x y : List T.OutputEvent × WrappedTransposer T B)
      → some x ≡ some y
      → Ends T B fuel q x.0 x.1
      → Ends T B fuel q y.0 y.1
  Ends-of_eq fuel q x y h ends =
      subst (λ (z : List T.OutputEvent × WrappedTransposer T B). Ends T B fuel q z.0 z.1)
        (ap (value_or x) h) ends

  -- A drive of a handler that sends an event first.
  first_sent :
      (n : ℕ) (phase : Phase T) (e : T.OutputEvent) (x : List T.OutputEvent × WrappedTransposer T B)
      (o : Option (List T.OutputEvent × T.Self × SubStepUpdateContext B))
      → then_drive T B n phase (send B e o) ≡ some x
      → (fs : List T.OutputEvent) × (v : WrappedTransposer T B) × (then_drive T B n phase o
          ≡ some (fs, v))
        × (some (e ∷ fs, v) ≡ some x)
  first_sent n phase e x none h = absurd (cc)
  first_sent n phase e x (some (es, r, c)) h =
      elim (Option-cases (drive T B n (after_handler T B phase r c))) [
        | inl lost ↦ absurd (ground (arith, lost))
        | inr ((gs, v), found) ↦ (es ++ gs, v, rw found refl, rw found at h)
      ]

  module _ (fuel n : ℕ) (phase : Phase T) (enough : n ≤ fuel)
      (rest : (m : ℕ) (f : Future T B) (es : List T.OutputEvent) (w : WrappedTransposer T B)
        → n ≤ m
        → drive T B n f ≡ some (es, w)
        → Ends T B (suc fuel) (poll T B m f) es w) where
    -- A handler's future, when those that follow it end.
    Ends-of_run :
        (p : Program T.Scheduled T.OutputEvent T.Self) (m : ℕ) (c : SubStepUpdateContext B)
        (es : List T.OutputEvent) (w : WrappedTransposer T B)
        → n ≤ m
        → then_drive T B n phase (run_to_end B p c) ≡ some (es, w)
        → Ends T B (suc fuel) (then_poll T B m phase (run B p c)) es w
    unfolding run run_to_end
    Ends-of_run (finish r) m c es w le h =
        rest m (after_handler T B phase r c) es w le
          (sym (prepend_nil (drive T B n (after_handler T B phase r c))) ∙ h)
    Ends-of_run (current_time f) m c es w le h = Ends-of_run (f c.time.time) m c es w le h
    Ends-of_run (last_updated_time f) m c es w le h =
        Ends-of_run (f c.metadata.last_updated.time) m c es w le h
    Ends-of_run (schedule_event t v f) m c es w le h =
        let done = schedule B t v c in Ends-of_run (f done.0) m done.1 es w le h
    Ends-of_run (schedule_event_expireable t v f) m c es w le h =
        let done = schedule_expireable B t v c in Ends-of_run (f done.0) m done.1 es w le h
    Ends-of_run (expire_event g f) m c es w le h = elim (Option-cases (expire B g c)) [
      | inl e ↦ absurd (ground (arith, e))
      | inr ((r, c'), e) ↦ rw (e, run) (Ends-of_run (f r) m c' es w le (rw (e, run_to_end) at h))
    ]
    Ends-of_run (emit_event e p) m c es w le h =
        elim (c.outputs_to_swallow)
            as (λ k.
              then_drive T B n phase (run_to_end B (emit_event e p) (swallowing B k c))
                ≡ some (es, w)
              → Ends T B (suc fuel)
                  (then_poll T B m phase (run B (emit_event e p) (swallowing B k c))) es w) [
                    | zero ↦ λ h'.
                        let sends =
                          ap (then_drive T B n phase)
                            (sym (send_lem B e (run_to_end B p (swallowing B 0 c))))
                          ∙ h' in
                        let (fs, v, driven, same) =
                          first_sent n phase e (es, w) (run_to_end B p (swallowing B 0 c)) sends in
                        Ends-of_eq (suc fuel)
                          (is_pending (some e) (handler phase p (swallowing B 0 c))) (e ∷ fs, v)
                          (es, w) same
                          (at_event (
                            rw (poll_handler T B fuel phase p (swallowing B 0 c))
                              (Ends-of_run p fuel (swallowing B 0 c) fs v enough driven)))
                    | suc k ↦ λ h'. Ends-of_run p m (swallowing B k c) es w le h'
                  ]
          h
    Ends-of_run (get_rng f) m c es w le h =
        let drawn = draw B c in Ends-of_run (f drawn.0) m drawn.1 es w le h
    Ends-of_run (pending p) m c es w le h =
        at_pending (rw (poll_handler T B fuel phase p c) (Ends-of_run p fuel c es w enough h))

  -- A future whose run ends within `n` handlers, polled with fuel for at least as many: the polls return
  -- the events of the run, in their order, and then its result.
  pub Ends-of_drive :
      (fuel n m : ℕ) (f : Future T B) (es : List T.OutputEvent) (w : WrappedTransposer T B)
      → n ≤ suc fuel
      → n ≤ m
      → drive T B n f ≡ some (es, w)
      → Ends T B (suc fuel) (poll T B m f) es w
  unfolding drive poll
  Ends-of_drive fuel zero m f es w enough le h = absurd (cc)
  Ends-of_drive fuel (suc n) zero f es w enough le h = absurd (omega (arith, le))
  Ends-of_drive fuel (suc n) (suc m) (ready v) es w enough le h =
      Ends-of_eq (suc fuel) (is_ready v) ([], v) (es, w) h at_ready
  Ends-of_drive fuel (suc n) (suc m) failed es w enough le h = absurd (cc)
  Ends-of_drive fuel (suc n) (suc m) (handler phase p c) es w enough le h =
      rw (poll_handler T B m phase p c) (
        Ends-of_run fuel n phase (omega (arith, enough))
          (λ k f fs v lt d. Ends-of_drive fuel n k f fs v (omega (arith, enough)) lt d) p m c es w
          (omega (arith, le)) (sym (drive_handler T B n phase p c) ∙ h))
