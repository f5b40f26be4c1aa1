-- ===== src/Source/InterruptStream/Waits.antt =====
-- source/src/adapters/interrupt_stream.rs: a call of the stream ends, with the answer to its last poll.
use cozal.Prelude.{
  ℕ, zero, suc, ◌+◌, ◌≡◌, ◌<◌, ◌≤◌, refl, true, false, Bool-cases, some, none, ◌⊎◌, inl, inr,
  Outcome, ok, err, panic, out_of_fuel, ◌>>=◌, arith,
}
use cozal.Source.NoInput.{SourcePoll, ready, interrupt, pending}
use cozal.Source.Trait.{Source, SourcePollErr, Schedules}
use cozal.Source.InterruptStream
use cozal.Source.InterruptStream.{InterruptStream, Wait, StreamPoll, item, pending_item}

module _ (S : Source) (W : Wait) (clock polled : ℕ → ℕ) where
  -- What the call with `k` calls to come makes of the source.
  abbrev pub look :
      ℕ → S.Self → Outcome ((SourcePollErr S.Error ⊎ SourcePoll S.Event (Unit {0})) × S.Self)
  look k source = do advanced ← S.advance (clock k) source; S.poll_events (clock k) advanced

  -- From the call with `k` calls to come the stream comes to a later one, as each wait in between is
  -- ready at once.
  pub data Goes : ℕ → InterruptStream S W → ℕ → InterruptStream S W → Type 0 where
    stays : {k : ℕ} {self : InterruptStream S W} → Goes k self k self
    again :
        {k j : ℕ} {self self' : InterruptStream S W} (next : ℕ) (source : S.Self)
        → look (suc k) self.source ≡ ok (inr (ready tt (some next)), source)
        → W.is_ready (polled (suc k)) (W.wait_fn next) ≡ true
        → Goes k (record { source = source; current_wait = none }) j self'
        → Goes (suc k) self j self'

  -- The result of a call that does not call the stream again, after a poll of the source.
  abbrev pub Ends :
      ℕ
      → Outcome ((SourcePollErr S.Error ⊎ SourcePoll S.Event (Unit {0})) × S.Self)
      → InterruptStream S W
      → Outcome (StreamPoll S.Event × InterruptStream S W)
      → Type 0
  Ends k (ok (inl _, source)) self result = result ≡ panic
  Ends k (ok (inr (interrupt time i), source)) self result =
      result ≡ ok (item time i, record self { source = source })
  Ends k (ok (inr pending, source)) self result =
      result ≡ ok (pending_item, record self { source = source })
  Ends k (ok (inr (ready _ none), source)) self result =
      result ≡ ok (pending_item, record { source = source; current_wait = none })
  Ends k (ok (inr (ready _ (some next)), source)) self result =
      (W.is_ready (polled k) (W.wait_fn next) ≡ false)
      × (result
          ≡ ok (pending_item, record { source = source; current_wait = some (W.wait_fn next) }))
  Ends k err self result = result ≡ err
  Ends k panic self result = result ≡ panic
  Ends k out_of_fuel self result = result ≡ out_of_fuel

  -- A result of the call with `n` calls to come.
  abbrev pub Answers :
      ℕ → InterruptStream S W → Outcome (StreamPoll S.Event × InterruptStream S W) → Type 0
  Answers n self result =
      (k : ℕ) × (self' : InterruptStream S W) × Goes n self k self'
      × Ends k (look k self'.source) self' result

module _ (S : Source) (W : Wait) (clock polled : ℕ → ℕ) where
  abbrev follow :
      ℕ
      → InterruptStream S W
      → ((SourcePollErr S.Error ⊎ SourcePoll S.Event (Unit {0})) × S.Self)
      → Outcome (StreamPoll S.Event × InterruptStream S W)
  follow k self p =
      InterruptStream.after_events S W (polled k)
        (λ this. InterruptStream.poll_next S W k clock polled this) p.0
        (record self { source = p.1 })

  bind_look :
      {A B C : Type 0} (x : Outcome A) (f : A → Outcome B) (g : B → Outcome C)
      → (x >>= λ a. f a >>= g) ≡ ((x >>= f) >>= g)
  bind_look (ok a) f g = refl
  bind_look err f g = refl
  bind_look panic f g = refl
  bind_look out_of_fuel f g = refl

  poll_next-look :
      (k : ℕ) (self : InterruptStream S W)
      → InterruptStream.poll_next S W (suc k) clock polled self
        ≡ (look S W clock polled k self.source >>= follow k self)
  unfolding InterruptStream.poll_next
  poll_next-look k self =
      bind_look (S.advance (clock k) self.source) (λ a. S.poll_events (clock k) a) (follow k self)

  later :
      (k next : ℕ) (s t : S.Self)
      → Schedules S
      → look S W clock polled k s ≡ ok (inr (ready tt (some next)), t)
      → clock k < next
  later k next s t schedules e = go (S.advance (clock k) s) e
    where
      go :
          (x : Outcome S.Self)
          → (x >>= λ a. S.poll_events (clock k) a) ≡ ok (inr (ready tt (some next)), t)
          → clock k < next
      go (ok a) e = schedules.later (clock k) next a t e
      go err e = absurd (cc)
      go panic e = absurd (cc)
      go out_of_fuel e = absurd (cc)

  -- The answer to a poll of the source, from what follows when a wait is ready at once.
  answer :
      (k : ℕ) (self : InterruptStream S W)
      (x : Outcome ((SourcePollErr S.Error ⊎ SourcePoll S.Event (Unit {0})) × S.Self))
      → look S W clock polled k self.source ≡ x
      → ((next : ℕ) (t : S.Self)
          → look S W clock polled k self.source ≡ ok (inr (ready tt (some next)), t)
          → W.is_ready (polled k) (W.wait_fn next) ≡ true
          → Answers S W clock polled k self (
              InterruptStream.poll_next S W k clock polled
                (record { source = t; current_wait = none })))
      → Answers S W clock polled k self (x >>= follow k self)
  answer k self (ok (inl e, t)) seen rest = (k, self, stays, rw seen refl)
  answer k self (ok (inr (interrupt time i), t)) seen rest = (k, self, stays, rw seen refl)
  answer k self (ok (inr pending, t)) seen rest = (k, self, stays, rw seen refl)
  answer k self (ok (inr (ready u none), t)) seen rest = (k, self, stays, rw seen refl)
  answer k self (ok (inr (ready u (some next)), t)) seen rest =
      elim (Bool-cases (W.is_ready (polled k) (W.wait_fn next))) [
        | inl now ↦ rw (InterruptStream.after_events, now) (rest next t seen now)
        | inr wait ↦ (k, self, stays, rw seen (wait, rw (InterruptStream.after_events, wait) refl))
      ]
  answer k self err seen rest = (k, self, stays, rw seen refl)
  answer k self panic seen rest = (k, self, stays, rw seen refl)
  answer k self out_of_fuel seen rest = (k, self, stays, rw seen refl)

  -- The source promises next events after the time of its poll, a wait is not ready before its instant,
  -- the clock does not go back, and at most `n` instants pass in the call. Then `suc n` rounds are enough:
  -- the stream calls itself just while a wait is ready at once, and its result is the answer to its last
  -- poll of the source. It passes an interrupt on, panics on an error, and is pending else: with the wait,
  -- not ready, for the next event that the source has announced, or with no wait if it has announced none.
  pub poll_next_total :
      (n : ℕ) (self : InterruptStream S W)
      → Schedules S
      → ((now t : ℕ) → now < t → W.is_ready now (W.wait_fn t) ≡ false)
      → ((k : ℕ) → clock k ≤ polled k)
      → ((k : ℕ) → polled (suc k) ≤ clock k)
      → polled 0 ≤ clock n + n
      → Answers S W clock polled n self (InterruptStream.poll_next S W (suc n) clock polled self)
  poll_next_total zero self schedules waits onward forward short = rw (poll_next-look 0 self) (
      answer 0 self (look S W clock polled 0 self.source) refl λ next t seen now. absurd (
        ground
          (arith, short, now, waits (polled 0) next, later 0 next self.source t schedules seen)))
  poll_next_total (suc n) self schedules waits onward forward short =
      rw (poll_next-look (suc n) self) (
        answer (suc n) self (look S W clock polled (suc n) self.source) refl λ next t seen now.
          let early = later (suc n) next self.source t schedules seen in
          let due : next ≤ polled (suc n) = ground (arith, now, waits (polled (suc n)) next) in
          let (k, s, goes, ends) =
            poll_next_total n (record { source = t; current_wait = none }) schedules waits onward
              forward (omega (arith, short, early, due, forward n)) in
          (k, s, again next t seen now goes, ends))
