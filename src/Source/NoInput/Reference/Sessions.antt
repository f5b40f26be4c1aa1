-- ===== src/Source/NoInput/Reference/Sessions.antt =====
-- source/src/sources/transposer/no_input_transposer.rs: a caller that polls for events and advances the
-- source, in any order.
use cozal.Prelude.{
  ℕ, suc, ◌≤◌, ◌≡◌, refl, sym, ap, ◌∙◌, subst, Option, List, ◌++◌, arith, Outcome, ok, >>=-ok,
  ok_inj, ok_pair,
}
use cozal.Transposer.Backend.{Backend}
use cozal.Transposer.Program.{Transposer}
use cozal.Transposer.Wrapped.{WrappedTransposer}
use cozal.Source.Steps.Query.{delete_before}
use cozal.Source.Steps.Stands.Stays.{delete_before-Stands}
use cozal.Source.NoInput
use cozal.Source.NoInput.{
  Interpolate, NoInputTransposerSource, SourcePoll, interrupt, ready, pending, finalized_event,
}
use cozal.Source.NoInput.Reference.{RunsTo, Answers, is_ready, waits, sends, EventPoll, StandsAt}
use cozal.Source.NoInput.Reference.Refined.{poll_events-RunsTo}
use cozal.Source.NoInput.Reference.Parts.{RunsTo-Split}

module _ (T : Transposer) (B : Backend T.Scheduled) (P : Interpolate T B) where
  -- The calls of a caller: polls for events, each repeated until the source is ready, and advances, the
  -- last of them polls at the time `end`; with the events that they return.
  pub data Session (rounds fuel end : ℕ)
      : NoInputTransposerSource T B P
        → List (ℕ × T.OutputEvent)
        → NoInputTransposerSource T B P
        → Type 0 where
    ends :
        {self self' : NoInputTransposerSource T B P} {es : List (ℕ × T.OutputEvent)}
        {next : Option ℕ} (uuids : ℕ → ℕ)
        → Answers T B P rounds fuel uuids end
            (NoInput.poll_events T B P rounds fuel uuids end self)
            es
            next
            self'
        → Session rounds fuel end self es self'
    polls :
        {self self' self'' : NoInputTransposerSource T B P} {es fs : List (ℕ × T.OutputEvent)}
        {next : Option ℕ} (uuids : ℕ → ℕ) (time : ℕ)
        → time ≤ end
        → Answers T B P rounds fuel uuids time
            (NoInput.poll_events T B P rounds fuel uuids time self)
            es
            next
            self'
        → Session rounds fuel end self' fs self''
        → Session rounds fuel end self (es ++ fs) self''
    advances :
        {self self' self'' : NoInputTransposerSource T B P} {es : List (ℕ × T.OutputEvent)}
        (time : ℕ)
        → NoInput.advance T B P time self ≡ ok self'
        → Session rounds fuel end self' es self''
        → Session rounds fuel end self es self''

module _ (T : Transposer) (B : Backend T.Scheduled) (P : Interpolate T B) where
  module _ (rounds fuel : ℕ) (uuids : ℕ → ℕ) (time : ℕ) where
    Answers-unique :
        {o o' : Outcome (EventPoll T B P)} {es es' : List (ℕ × T.OutputEvent)}
        {next next' : Option ℕ} {self self' : NoInputTransposerSource T B P}
        → Answers T B P rounds fuel uuids time o es next self
        → Answers T B P rounds fuel uuids time o' es' next' self'
        → o ≡ o'
        → (es ≡ es') × (self ≡ self')
    Answers-unique is_ready is_ready e = (refl, ok_pair _ _ _ _ e)
    Answers-unique is_ready (waits b) e = absurd (cc)
    Answers-unique is_ready (sends b) e = absurd (cc)
    Answers-unique (waits a) is_ready e = absurd (cc)
    Answers-unique (waits a) (waits b) e =
        Answers-unique a b
          (ap (NoInput.poll_events T B P rounds fuel uuids time) (ok_pair _ _ _ _ e))
    Answers-unique (waits a) (sends b) e = absurd (cc)
    Answers-unique (sends a) is_ready e = absurd (cc)
    Answers-unique (sends a) (waits b) e = absurd (cc)
    Answers-unique (sends a) (sends b) e =
        let (events, left) =
          Answers-unique a b
            (ap (NoInput.poll_events T B P rounds fuel uuids time) (ok_pair _ _ _ _ e)) in
        (ground (arith, e, events), left)

  advance-StandsAt :
      (time : ℕ) {w : WrappedTransposer T B} {self self' : NoInputTransposerSource T B P}
      → StandsAt T B P w self
      → NoInput.advance T B P time self ≡ ok self'
      → StandsAt T B P w self'
  unfolding NoInput.advance
  advance-StandsAt time {w} {self} {self'} at_w h =
      let ((next, steps), deleted, h₁) = >>=-ok (delete_before T B time self.steps) _ _ h in
      subst (StandsAt T B P w) (ok_inj _ self' h₁) (record {
        steps = delete_before-Stands T B time next at_w.steps deleted;
        no_channels = at_w.no_channels;
      })

  -- A source stands at a transposer and no channel waits. Its caller polls it for events at times up to
  -- `end`, each time until it is ready, and advances it in between as it likes, and at last polls it at
  -- `end`. Where the rounds and the fuel are enough for the transposer's run up to `end`, all the calls
  -- together return the events of that run and no others, and the source stands at the transposer that
  -- the run ends in.
  pub Session-RunsTo :
      (fuel end rounds n k : ℕ) {w w' : WrappedTransposer T B} {es fs : List (ℕ × T.OutputEvent)}
      {self self' : NoInputTransposerSource T B P}
      → n ≤ suc fuel
      → k ≤ rounds
      → RunsTo T B n end k w es w'
      → StandsAt T B P w self
      → Session T B P (suc rounds) (suc fuel) end self fs self'
      → (fs ≡ es) × StandsAt T B P w' self'
  Session-RunsTo fuel end rounds n k {w' = w'} {self = self} fueled enough run at_w
        (ends uuids answers) =
      let h =
        poll_events-RunsTo T B P fuel uuids end rounds n k (suc rounds) self fueled run at_w
          (omega (arith, enough)) (omega (arith, enough)) in
      let (events, left) =
        Answers-unique (suc rounds) (suc fuel) uuids end answers h.answers refl in
      (events, subst (StandsAt T B P w') (sym left) h.stands)
  Session-RunsTo fuel end rounds n k {w' = w'} {es = es} {self = self} fueled enough run at_w
        (polls {fs = fs} uuids time le answers rest) =
      let s = RunsTo-Split T B n time end k le run in
      let h =
        poll_events-RunsTo T B P fuel uuids time rounds n s.k₀ (suc rounds) self fueled s.first at_w
          (omega (arith, s.count, enough)) (omega (arith, s.count, enough)) in
      let (events, left) =
        Answers-unique (suc rounds) (suc fuel) uuids time answers h.answers refl in
      let (later, stands) =
        Session-RunsTo fuel end rounds n s.k₁ fueled (omega (arith, s.count, enough)) s.second
          (subst (StandsAt T B P s.between) (sym left) h.stands) rest in
      (ap (λ l. l ++ fs) events ∙ ap (λ l. s.before ++ l) later ∙ sym s.all, stands)
  Session-RunsTo fuel end rounds n k fueled enough run at_w (advances time advanced rest) =
      Session-RunsTo fuel end rounds n k fueled enough run (advance-StandsAt time at_w advanced)
        rest
