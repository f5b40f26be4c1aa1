-- ===== src/Transposer/Step/Resume.antt =====
-- transposer/src/step/mod.rs: the polls of a step that is saturated again come to an end.
use cozal.Prelude.{
  ℕ, suc, ◌+◌, ◌≡◌, refl, ap, ◌∙◌, subst, some, List, [], length, ok, inr, arith, false,
}
use cozal.Transposer.Backend.{Backend}
use cozal.Transposer.Program.{Transposer}
use cozal.Transposer.Wrapped.{
  WrappedTransposer, Future, FuturePoll, is_ready, handle_input, handle_scheduled,
}
use cozal.Transposer.Wrapped.Drive.{drive}
use cozal.Transposer.Wrapped.Ends.{Ends, at_ready, at_pending, at_event, Ends-of_drive}
use cozal.Transposer.Step
use cozal.Transposer.Step.{
  Step, StepData, poll, poll_with, saturate, desaturate, saturating, saturated, init_data,
  input_data, scheduled_data,
}
use cozal.Transposer.Step.Replay.{
  Polls, ends, emits, waits, ended, poll_saturating, Polls-drive, saturate-start, start,
  drive_again, ended_again, ended_one_more,
}

module _ (T : Transposer) (B : Backend T.Scheduled) where
  ended_ready :
      (s : Step T B) (w : WrappedTransposer T B)
      → poll_with T B s (is_ready w) ≡ ok (inr (Step.ready, ended T B s [] w))
  ended_ready s w =
      let counts : s.event_count ≡ s.event_count + 0 = omega arith in
      ap
        (λ (n : ℕ).
          let t : Step T B = record s {
            status = saturated w;
            event_count = n;
            can_produce_events = false;
          } in
          ok (inr (Step.ready, t)))
        counts

  -- The polls of a step whose future ends.
  Polls_of_Ends :
      (fuel : ℕ) {q : FuturePoll T B} {es : List T.OutputEvent} {w : WrappedTransposer T B}
      (s : Step T B)
      → Ends T B fuel q es w
      → poll T B fuel s ≡ poll_with T B s q
      → Polls T B fuel s es (ended T B s es w)
  Polls_of_Ends fuel {w = w} s at_ready h = ends (h ∙ ended_ready s w)
  Polls_of_Ends fuel s (at_pending {f = f} {es = es} {w = w} rest) h =
      let s' : Step T B = record s { status = saturating f } in
      waits h (Polls_of_Ends fuel s' rest (poll_saturating T B fuel s' f refl))
  Polls_of_Ends fuel s (at_event {f = f} {e = e} {es = es} {w = w} rest) h =
      let s' : Step T B = record s { status = saturating f; event_count = s.event_count + 1 } in
      emits h (
        subst (λ u. Polls T B fuel s' es u) (ended_one_more T B s e es w)
          (Polls_of_Ends fuel s' rest (poll_saturating T B fuel s' f refl)))

  saturate_of_start :
      (w : WrappedTransposer T B) (s : Step T B) (f : Future T B)
      → start T B s.step_data s.event_count w ≡ some f
      → saturate T B w s ≡ ok (record s { status = saturating f })
  unfolding saturate
  saturate_of_start w s f h = ground (arith, h)

  start_any :
      (d : StepData T B) (k : ℕ) (w : WrappedTransposer T B) (f : Future T B)
      → start T B d 0 w ≡ some f
      → (f' : Future T B) × (start T B d k w ≡ some f')
  start_any (init_data _) k w f h = absurd (cc)
  start_any (input_data i) k w f h = (handle_input T B i k w, refl)
  start_any (scheduled_data t) k w f h = (handle_scheduled T B t.time k w, refl)

  -- A step that has sent no event yet saturates, and its polls return the events `es`. If it is then
  -- desaturated, it can be saturated again from the same transposer, and with enough fuel its polls
  -- bring it back, without an event, to what it was.
  pub replay_total :
      (w : WrappedTransposer T B) (fuel : ℕ) (s s₀ s₁ : Step T B) (es : List T.OutputEvent)
      → s.event_count ≡ 0
      → saturate T B w s ≡ ok s₀
      → Polls T B fuel s₀ es s₁
      → (fuel' : ℕ) × (s₂ : Step T B) × (saturate T B w (desaturate T B s₁) ≡ ok s₂)
        × Polls T B fuel' s₂ [] s₁
  unfolding desaturate
  replay_total w fuel s s₀ s₁ es fresh first polls =
      let (f, f-start, s₀-eq) = saturate-start T B w s s₀ first in
      let (n, v, driven, s₁-eq) =
        Polls-drive T B fuel f polls (ap (λ (u : Step T B). u.status) s₀-eq) in
      let is_data : s₁.step_data ≡ s.step_data =
        ap (λ (u : Step T B). u.step_data) s₁-eq ∙ ap (λ (u : Step T B). u.step_data) s₀-eq in
      let counts : s₁.event_count ≡ length es = omega (
        arith,
        ap (λ (u : Step T B). u.event_count) s₁-eq,
        ap (λ (u : Step T B). u.event_count) s₀-eq,
      ) in
      let from_zero : start T B s.step_data 0 w ≡ some f = rw fresh at f-start in
      let (f', again) = start_any s.step_data (length es) w f from_zero in
      let silent : drive T B n f' ≡ some ([], v) =
        drive_again T B n s.step_data w v f f' es from_zero again driven in
      let s₂ : Step T B = record s₁ { status = saturating f' } in
      let end : ended T B s₂ [] v ≡ s₁ = ended_again T B s₀ s₁ es v s₁-eq in
      (
        suc n,
        s₂,
        saturate_of_start w (desaturate T B s₁) f' (rw (is_data, counts) again),
        subst (λ u. Polls T B (suc n) s₂ [] u) end
            (Polls_of_Ends (suc n) s₂
              (Ends-of_drive T B n n (suc n) f' [] v (omega arith) (omega arith) silent)
              (poll_saturating T B (suc n) s₂ f' refl)),
      )
