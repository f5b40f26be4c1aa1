-- ===== src/Transposer/Step/Replay.antt =====
-- transposer/src/step/mod.rs: a step that is desaturated and saturated again replays its handlers to
-- the same transposer, and emits none of its events a second time.
use cozal.Prelude.{
  ℕ, suc, ◌+◌, ◌≡◌, refl, sym, ap, ◌∙◌, Option, some, none, List, [], ◌∷◌, length, drop-length, ok,
  inr, arith, false,
}
use cozal.Transposer.Backend.{Backend}
use cozal.Transposer.Program.{Transposer}
use cozal.Transposer.Wrapped
use cozal.Transposer.Wrapped.{
  WrappedTransposer, Future, FuturePoll, is_ready, is_pending, has_panicked, handle_input,
  handle_scheduled,
}
use cozal.Transposer.Wrapped.Drive.{
  drive, swallowing_future, drive-swallowing, handle_input-swallowing, handle_scheduled-swallowing,
}
use cozal.Transposer.Wrapped.Polls.{drive_of_poll, drive_unique}
use cozal.Transposer.Step.{
  Step, emitted, pending, ready, saturating, saturated, poll, poll_with, saturate, desaturate,
  init_data, input_data, scheduled_data, StepData,
}

module _ (T : Transposer) (B : Backend T.Scheduled) where
  -- The polls of a step up to the one that saturates it, with the events that they return.
  pub data Polls (fuel : ℕ) : Step T B → List T.OutputEvent → Step T B → Type 0 where
    ends : {s s' : Step T B} → poll T B fuel s ≡ ok (inr (ready, s')) → Polls fuel s [] s'
    emits :
        {s s' s'' : Step T B} {e : T.OutputEvent} {es : List T.OutputEvent}
        → poll T B fuel s ≡ ok (inr (emitted e, s'))
        → Polls fuel s' es s''
        → Polls fuel s (e ∷ es) s''
    waits :
        {s s' s'' : Step T B} {es : List T.OutputEvent}
        → poll T B fuel s ≡ ok (inr (pending, s'))
        → Polls fuel s' es s''
        → Polls fuel s es s''

module _ (T : Transposer) (B : Backend T.Scheduled) where
  -- The step that a drive of its future ends in.
  abbrev pub ended : Step T B → List T.OutputEvent → WrappedTransposer T B → Step T B
  ended s es w = record s {
    status = saturated w;
    event_count = s.event_count + length es;
    can_produce_events = false;
  }

  pub poll_saturating :
      (fuel : ℕ) (s : Step T B) (f : Future T B)
      → s.status ≡ saturating f
      → poll T B fuel s ≡ poll_with T B s (Wrapped.poll T B fuel f)
  unfolding poll
  poll_saturating fuel s f e = rw (e, poll)

  poll_with-ready :
      (s s' : Step T B) (p : FuturePoll T B)
      → poll_with T B s p ≡ ok (inr (ready, s'))
      → (w : WrappedTransposer T B) × (p ≡ is_ready w) × (s' ≡ ended s [] w)
  poll_with-ready s s' (is_ready w) h = (w, refl, ground arith)
  poll_with-ready s s' (is_pending none f) h = absurd (cc)
  poll_with-ready s s' (is_pending (some e) f) h = absurd (cc)
  poll_with-ready s s' has_panicked h = absurd (cc)
  poll_with-ready s s' Wrapped.FuturePoll.out_of_fuel h = absurd (cc)

  poll_with-pending :
      (s s' : Step T B) (p : FuturePoll T B)
      → poll_with T B s p ≡ ok (inr (pending, s'))
      → (f : Future T B) × (p ≡ is_pending none f) × (s' ≡ record s { status = saturating f })
  poll_with-pending s s' (is_ready w) h = absurd (cc)
  poll_with-pending s s' (is_pending none f) h = (f, refl, ground arith)
  poll_with-pending s s' (is_pending (some e) f) h = absurd (cc)
  poll_with-pending s s' has_panicked h = absurd (cc)
  poll_with-pending s s' Wrapped.FuturePoll.out_of_fuel h = absurd (cc)

  poll_with-emitted :
      (s s' : Step T B) (e : T.OutputEvent) (p : FuturePoll T B)
      → poll_with T B s p ≡ ok (inr (emitted e, s'))
      → (f : Future T B) × (p ≡ is_pending (some e) f)
        × (s' ≡ record s { status = saturating f; event_count = s.event_count + 1 })
  poll_with-emitted s s' e (is_ready w) h = absurd (cc)
  poll_with-emitted s s' e (is_pending none f) h = absurd (cc)
  poll_with-emitted s s' e (is_pending (some a) f) h = (f, ground arith, ground arith)
  poll_with-emitted s s' e has_panicked h = absurd (cc)
  poll_with-emitted s s' e Wrapped.FuturePoll.out_of_fuel h = absurd (cc)

  pub ended_one_more :
      (s : Step T B) (e : T.OutputEvent) (es : List T.OutputEvent) (w : WrappedTransposer T B)
      → ended (record s { event_count = s.event_count + 1 }) es w ≡ ended s (e ∷ es) w
  ended_one_more s e es w =
      let counts : s.event_count + 1 + length es ≡ s.event_count + suc (length es) = omega arith in
      ap
        (λ (n : ℕ).
          let t : Step T B = record s {
            status = saturated w;
            event_count = n;
            can_produce_events = false;
          } in
          t)
        counts

  -- Polls to the end take the events of the future's drive.
  pub Polls-drive :
      (fuel : ℕ) {s s' : Step T B} {es : List T.OutputEvent} (f : Future T B)
      → Polls T B fuel s es s'
      → s.status ≡ saturating f
      → (n : ℕ) × (w : WrappedTransposer T B) × (drive T B n f ≡ some (es, w)) × (s' ≡ ended s es w)
  Polls-drive fuel {s} {s'} f (ends h) e =
      let (w, polled, done) =
        poll_with-ready s s' (Wrapped.poll T B fuel f) (sym (poll_saturating fuel s f e) ∙ h) in
      (fuel + 0, w, drive_of_poll T B fuel 0 f ([], w) (rw polled), done)
  Polls-drive fuel {s} f (waits {s' = t} {es = es} h rest) e =
      let (g, polled, done) =
        poll_with-pending s t (Wrapped.poll T B fuel f) (sym (poll_saturating fuel s f e) ∙ h) in
      let (n, w, driven, end) = Polls-drive fuel g rest (ap (λ (u : Step T B). u.status) done) in
      (
        fuel + n,
        w,
        drive_of_poll T B fuel n f _ (rw polled driven),
        end ∙ ap (λ u. ended u es w) done,
      )
  Polls-drive fuel {s} f (emits {s' = t} {e = a} {es = es} h rest) e =
      let (g, polled, done) =
        poll_with-emitted s t a (Wrapped.poll T B fuel f) (sym (poll_saturating fuel s f e) ∙ h) in
      let (n, w, driven, end) = Polls-drive fuel g rest (ap (λ (u : Step T B). u.status) done) in
      (
        fuel + n,
        w,
        drive_of_poll T B fuel n f (a ∷ es, w) (rw (polled, driven)),
        end ∙ ap (λ u. ended u es w) done ∙ ended_one_more s a es w,
      )

  -- The future that `saturate` starts.
  abbrev pub start : StepData T B → ℕ → WrappedTransposer T B → Option (Future T B)
  start (init_data _) k w = none
  start (input_data i) k w = some (handle_input T B i k w)
  start (scheduled_data t) k w = some (handle_scheduled T B t.time k w)

  start-swallowing :
      (d : StepData T B) (k : ℕ) (w : WrappedTransposer T B) (f : Future T B)
      → start d k w ≡ some f
      → (g : Future T B) × (start d 0 w ≡ some g)
        × (f ≡ swallowing_future T B k g)
        × (g ≡ swallowing_future T B 0 g)
  start-swallowing (init_data _) k w f h = absurd (cc)
  start-swallowing (input_data i) k w f h = (
    handle_input T B i 0 w,
    refl,
    ground (arith, handle_input-swallowing T B i k w),
    handle_input-swallowing T B i 0 w,
  )
  start-swallowing (scheduled_data t) k w f h = (
    handle_scheduled T B t.time 0 w,
    refl,
    ground (arith, handle_scheduled-swallowing T B t.time k w),
    handle_scheduled-swallowing T B t.time 0 w,
  )

  pub saturate-start :
      (w : WrappedTransposer T B) (s s' : Step T B)
      → saturate T B w s ≡ ok s'
      → (f : Future T B) × (start s.step_data s.event_count w ≡ some f)
        × (s' ≡ record s { status = saturating f })
  unfolding saturate
  saturate-start w s s' h = go s.step_data refl
    where
      go :
          (d : StepData T B)
          → s.step_data ≡ d
          → (f : Future T B) × (start s.step_data s.event_count w ≡ some f)
            × (s' ≡ record s { status = saturating f })
      go (init_data _) e = absurd (ground arith)
      go (input_data i) e = (handle_input T B i s.event_count w, rw e, ground arith)
      go (scheduled_data t) e = (handle_scheduled T B t.time s.event_count w, rw e, ground arith)

  -- A second run of a drive, with as many outputs to swallow as the first has sent.
  pub drive_again :
      (n : ℕ) (d : StepData T B) (w v : WrappedTransposer T B) (f f' : Future T B)
      (es : List T.OutputEvent)
      → start d 0 w ≡ some f
      → start d (length es) w ≡ some f'
      → drive T B n f ≡ some (es, v)
      → drive T B n f' ≡ some ([], v)
  drive_again n d w v f f' es h h' driven =
      let (g, e, is_f', is_g) = start-swallowing d (length es) w f' h' in
      let same_start : f ≡ g = ground arith in
      let driven' : drive T B n (swallowing_future T B 0 g) ≡ some (es, v) =
        rw (← is_g, ← same_start) driven in
      rw (is_f', drive-swallowing, driven', drop-length)

  pub ended_again :
      (s₀ s₁ : Step T B) (es : List T.OutputEvent) (v : WrappedTransposer T B)
      → s₁ ≡ ended s₀ es v
      → ended s₁ [] v ≡ s₁
  ended_again s₀ s₁ es v e =
      let counts : s₀.event_count + length es + 0 ≡ s₀.event_count + length es = omega arith in
      ap (λ u. ended u [] v) e
      ∙ ap
          (λ (n : ℕ).
            let t : Step T B = record s₀ {
              status = saturated v;
              event_count = n;
              can_produce_events = false;
            } in
            t)
          counts
      ∙ sym e

  -- A step that has sent no event yet saturates, and its polls return the events `es`. If it is then
  -- desaturated, and saturated again from the same transposer, then its polls return no event, and it
  -- ends as it was.
  pub replay :
      (w : WrappedTransposer T B) (fuel fuel' : ℕ) (s s₀ s₁ s₂ s₃ : Step T B)
      (es es' : List T.OutputEvent)
      → s.event_count ≡ 0
      → saturate T B w s ≡ ok s₀
      → Polls T B fuel s₀ es s₁
      → saturate T B w (desaturate T B s₁) ≡ ok s₂
      → Polls T B fuel' s₂ es' s₃
      → (es' ≡ []) × (s₃ ≡ s₁)
  unfolding desaturate
  replay w fuel fuel' s s₀ s₁ s₂ s₃ es es' fresh first polls second polls' =
      let (f, f-start, s₀-eq) = saturate-start w s s₀ first in
      let (n, v, driven, s₁-eq) =
        Polls-drive fuel f polls (ap (λ (u : Step T B). u.status) s₀-eq) in
      let (f', f'-start, s₂-eq) = saturate-start w (desaturate T B s₁) s₂ second in
      let (m, v', driven', s₃-eq) =
        Polls-drive fuel' f' polls' (ap (λ (u : Step T B). u.status) s₂-eq) in
      let is_data : s₁.step_data ≡ s.step_data =
        ap (λ (u : Step T B). u.step_data) s₁-eq ∙ ap (λ (u : Step T B). u.step_data) s₀-eq in
      let counts : s₁.event_count ≡ length es = omega (
        arith,
        ap (λ (u : Step T B). u.event_count) s₁-eq,
        ap (λ (u : Step T B). u.event_count) s₀-eq,
      ) in
      let same_end : ◌≡◌ {A = List T.OutputEvent × WrappedTransposer T B} ([], v) (es', v') =
        drive_unique T B n m f' ([], v) (es', v')
          (drive_again n s.step_data w v f f' es (rw fresh at f-start)
            (rw (is_data, counts) at f'-start) driven)
          driven' in
      let none_left : es' ≡ [] =
        sym (ap (λ (x : List T.OutputEvent × WrappedTransposer T B). x.0) same_end) in
      let same_transposer : v' ≡ v =
        sym (ap (λ (x : List T.OutputEvent × WrappedTransposer T B). x.1) same_end) in
      (
        none_left,
        s₃-eq
            ∙ ap (λ u. ended u es' v') s₂-eq
            ∙ ap (λ l. ended s₁ l v') none_left
            ∙ ap (ended s₁ []) same_transposer
            ∙ ended_again s₀ s₁ es v s₁-eq,
      )
