-- ===== src/Transposer/Wrapped/Polls.antt =====
-- transposer/src/step/wrapped_transposer.rs: the polls of a future, against its run to the end.
use cozal.Prelude.{
  ℕ, zero, suc, ◌+◌, ◌≡◌, refl, sym, ap, ◌∙◌, Option, none, some, Option-cases, inl, inr, ◌⊎◌, List,
  [], ◌∷◌, arith,
}
use cozal.Transposer.Backend.{Backend}
use cozal.Transposer.Program.{
  Program, Transposer, finish, current_time, last_updated_time, schedule_event,
  schedule_event_expireable, expire_event, emit_event, get_rng, pending,
}
use cozal.Transposer.Context.{
  SubStepUpdateContext, Run, finished, emitted, waiting, panicked, run, run_to_end, schedule,
  schedule_expireable, expire, draw,
}
use cozal.Transposer.Wrapped.{
  Phase, WrappedTransposer, Future, ready, handler, failed, after_handler, poll, FuturePoll,
  is_ready, is_pending, has_panicked, out_of_fuel,
}
use native.Mathlib.Nat.{suc-add}
use cozal.Transposer.Context.Swallow.{swallowing}
use cozal.Transposer.Wrapped.Drive.{drive, prepend}

module _ {Scheduled : Type 0} (B : Backend Scheduled) {OutputEvent R : Type 0} where
  abbrev pub send :
      OutputEvent
      → Option (List OutputEvent × R × SubStepUpdateContext B)
      → Option (List OutputEvent × R × SubStepUpdateContext B)
  send e none = none
  send e (some (es, r, c)) = some (e ∷ es, r, c)

  -- The run to the end from where a poll has stopped.
  abbrev resume : Run B OutputEvent R → Option (List OutputEvent × R × SubStepUpdateContext B)
  resume (finished r c) = some ([], r, c)
  resume (emitted e p c) = send e (run_to_end B p c)
  resume (waiting p c) = run_to_end B p c
  resume panicked = none

  pub send_lem :
      (e : OutputEvent) (o : Option (List OutputEvent × R × SubStepUpdateContext B))
      → elim o as (λ _. Option (List OutputEvent × R × SubStepUpdateContext B)) [
        | none ↦ none
        | some (es, r, c) ↦ some (e ∷ es, r, c)
      ]
        ≡ send e o
  send_lem e none = refl
  send_lem e (some (es, r, c)) = refl

  run_to_end-run :
      (p : Program Scheduled OutputEvent R) (c : SubStepUpdateContext B)
      → run_to_end B p c ≡ resume (run B p c)
  unfolding run run_to_end
  run_to_end-run (finish r) c = refl
  run_to_end-run (current_time f) c = run_to_end-run (f c.time.time) c
  run_to_end-run (last_updated_time f) c = run_to_end-run (f c.metadata.last_updated.time) c
  run_to_end-run (schedule_event t v f) c =
      let done = schedule B t v c in run_to_end-run (f done.0) done.1
  run_to_end-run (schedule_event_expireable t v f) c =
      let done = schedule_expireable B t v c in run_to_end-run (f done.0) done.1
  run_to_end-run (expire_event h f) c = elim (Option-cases (expire B h c)) [
    | inl e ↦ rw (e, run, run_to_end)
    | inr ((r, c'), e) ↦ rw (e, run, run_to_end) (run_to_end-run (f r) c')
  ]
  run_to_end-run (emit_event e p) c =
      elim (c.outputs_to_swallow)
        as (λ n.
          run_to_end B (emit_event e p) (swallowing B n c)
          ≡ resume (run B (emit_event e p) (swallowing B n c))) [
            | zero ↦ send_lem e (run_to_end B p (swallowing B 0 c))
            | suc n ↦ run_to_end-run p (swallowing B n c)
          ]
  run_to_end-run (get_rng f) c = let drawn = draw B c in run_to_end-run (f drawn.0) drawn.1
  run_to_end-run (pending p) c = refl

module _ (T : Transposer) (B : Backend T.Scheduled) where
  -- What a drive makes of the end of a handler's run.
  abbrev pub then_drive :
      ℕ
      → Phase T
      → Option (List T.OutputEvent × T.Self × SubStepUpdateContext B)
      → Option (List T.OutputEvent × WrappedTransposer T B)
  then_drive n phase none = none
  then_drive n phase (some (es, s, c)) = prepend T B es (drive T B n (after_handler T B phase s c))

  pub drive_handler :
      (n : ℕ) (phase : Phase T) (p : Program T.Scheduled T.OutputEvent T.Self)
      (c : SubStepUpdateContext B)
      → drive T B (suc n) (handler phase p c) ≡ then_drive n phase (run_to_end B p c)
  unfolding drive
  drive_handler n phase p c = elim (Option-cases (run_to_end B p c)) [
    | inl e ↦ rw (e, drive)
    | inr ((es, s, c'), e) ↦ rw (e, drive)
  ]

  -- More fuel changes nothing once a drive has ended.
  drive_more :
      (n k : ℕ) (f : Future T B) → (drive T B n f ≡ none) ⊎ (drive T B (n + k) f ≡ drive T B n f)
  unfolding drive
  drive_more zero k f = inl refl
  drive_more (suc n) k (ready v) = inr (rw suc-add refl)
  drive_more (suc n) k failed = inl refl
  drive_more (suc n) k (handler phase p c) = elim (Option-cases (run_to_end B p c)) [
    | inl e ↦ inl (rw (e, drive))
    | inr ((es, s, c'), e) ↦ elim (drive_more n k (after_handler T B phase s c')) [
      | inl lost ↦ inl (rw (e, drive, lost))
      | inr more ↦ inr (rw (suc-add, drive, e, more))
    ]
  ]

  pub drive-add :
      (n k : ℕ) (f : Future T B) (x : List T.OutputEvent × WrappedTransposer T B)
      → drive T B n f ≡ some x
      → drive T B (n + k) f ≡ some x
  drive-add n k f x h = elim (drive_more n k f) [ inl lost ↦ cc | inr more ↦ more ∙ h ]

  pub drive_unique :
      (n m : ℕ) (f : Future T B) (x y : List T.OutputEvent × WrappedTransposer T B)
      → drive T B n f ≡ some x
      → drive T B m f ≡ some y
      → x ≡ y
  drive_unique n m f x y h k =
      let e : n + m ≡ m + n = omega arith in
      let h' : drive T B (m + n) f ≡ some x = rw (← e) (drive-add n m f x h) in
      cc (drive-add m n f y k)

  abbrev pub sent :
      Option T.OutputEvent
      → Option (List T.OutputEvent × WrappedTransposer T B)
      → Option (List T.OutputEvent × WrappedTransposer T B)
  sent none o = o
  sent (some e) none = none
  sent (some e) (some (es, w)) = some (e ∷ es, w)

  -- What a drive gives from where a poll has stopped.
  abbrev pub drive_rest : ℕ → FuturePoll T B → Option (List T.OutputEvent × WrappedTransposer T B)
  drive_rest n (is_ready w) = some ([], w)
  drive_rest n (is_pending e f) = sent e (drive T B n f)
  drive_rest n has_panicked = none
  drive_rest n out_of_fuel = none

  abbrev pub then_poll : ℕ → Phase T → Run B T.OutputEvent T.Self → FuturePoll T B
  then_poll m phase (finished s c) = poll T B m (after_handler T B phase s c)
  then_poll m phase (emitted e p c) = is_pending (some e) (handler phase p c)
  then_poll m phase (waiting p c) = is_pending none (handler phase p c)
  then_poll m phase panicked = has_panicked

  pub poll_handler :
      (m : ℕ) (phase : Phase T) (p : Program T.Scheduled T.OutputEvent T.Self)
      (c : SubStepUpdateContext B)
      → poll T B (suc m) (handler phase p c) ≡ then_poll m phase (run B p c)
  unfolding poll
  poll_handler m phase p c = ground arith

  then_drive-send :
      (n : ℕ) (phase : Phase T) (e : T.OutputEvent)
      (o : Option (List T.OutputEvent × T.Self × SubStepUpdateContext B))
      → then_drive n phase (send B e o) ≡ sent (some e) (then_drive n phase o)
  then_drive-send n phase e none = refl
  then_drive-send n phase e (some (es, s, c)) =
      elim (Option-cases (drive T B n (after_handler T B phase s c))) [
        | inl lost ↦ rw lost
        | inr (x, found) ↦ rw found
      ]

  -- A suspended handler is driven on, with fuel to spare.
  drive-resume :
      (m n : ℕ) (phase : Phase T) (p : Program T.Scheduled T.OutputEvent T.Self)
      (c : SubStepUpdateContext B) (x : List T.OutputEvent × WrappedTransposer T B)
      → drive T B n (handler phase p c) ≡ some x
      → then_drive (m + n) phase (run_to_end B p c) ≡ some x
  unfolding drive
  drive-resume m zero phase p c x h = cc
  drive-resume m (suc n) phase p c x h =
      let e : suc (m + suc n) ≡ suc n + suc m = omega arith in
      sym (drive_handler (m + suc n) phase p c)
      ∙ ap (λ k. drive T B k (handler phase p c)) e
      ∙ drive-add (suc n) (suc m) (handler phase p c) x h

  drive_of_run :
      (m n : ℕ) (phase : Phase T) (r : Run B T.OutputEvent T.Self)
      (x : List T.OutputEvent × WrappedTransposer T B)
      → ((f : Future T B) → drive_rest n (poll T B m f) ≡ some x → drive T B (m + n) f ≡ some x)
      → drive_rest n (then_poll m phase r) ≡ some x
      → then_drive (m + n) phase (resume B r) ≡ some x
  drive_of_run m n phase (finished s c) x ih h = rw (ih (after_handler T B phase s c) h)
  drive_of_run m n phase (emitted e p c) x ih h =
      elim (Option-cases (drive T B n (handler phase p c))) [
        | inl lost ↦ ground arith
        | inr (y, found) ↦
            then_drive-send (m + n) phase e (run_to_end B p c)
            ∙ ap (sent (some e)) (drive-resume m n phase p c y found)
            ∙ ap (sent (some e)) (sym found)
            ∙ h
      ]
  drive_of_run m n phase (waiting p c) x ih h = drive-resume m n phase p c x h
  drive_of_run m n phase panicked x ih h = cc

  -- A poll takes the events of a future one by one, in their order, and then its result: when a poll
  -- and the drive of what it leaves give the events and the result `x`, the drive of the future gives
  -- `x`.
  pub drive_of_poll :
      (m n : ℕ) (f : Future T B) (x : List T.OutputEvent × WrappedTransposer T B)
      → drive_rest n (poll T B m f) ≡ some x
      → drive T B (m + n) f ≡ some x
  unfolding drive poll
  drive_of_poll zero n f x h = cc
  drive_of_poll (suc m) n (ready v) x h = rw suc-add h
  drive_of_poll (suc m) n failed x h = cc
  drive_of_poll (suc m) n (handler phase p c) x h =
      rw (suc-add, drive_handler, run_to_end-run B p c)
        (drive_of_run m n phase (run B p c) x (λ f. drive_of_poll m n f x)
          (rw (← poll_handler m phase p c) h))
