-- ===== src/Source/InterruptStream.antt =====
-- source/src/adapters/interrupt_stream.rs, with `SourceExt::interrupt_stream` of
-- source/src/traits/source_ext.rs: the interrupts of a source as a stream in real time.
pub mod Waits
use cozal.Prelude.{
  ℕ, zero, suc, Bool, true, false, Option, some, none, ◌⊎◌, inl, inr, Outcome, ok, panic,
  out_of_fuel, ◌>>=◌,
}
use cozal.Source.NoInput.{SourcePoll, Interrupt, ready, interrupt, pending}
use cozal.Source.Trait.{Source, SourcePollErr}

-- The user's `wait_fn`: the future that waits for an instant, and whether it is ready at one.
pub record Wait : Type 1 where
  pub Fut : Type 0
  pub wait_fn : ℕ → Fut
  pub is_ready : ℕ → Fut → Bool

-- `Poll<Option<Item>>`: the stream never ends, so `Ready(None)` does not occur.
pub data StreamPoll (Event : Type 0) : Type 0 where
  item : ℕ → Interrupt Event → StreamPoll Event
  pending_item : StreamPoll Event

module _ (S : Source) (W : Wait) where
  pub record InterruptStream : Type 0 where
    pub source : S.Self
    pub current_wait : Option W.Fut

module _ (S : Source) (W : Wait) where
  unfoldable pub new : S.Self → InterruptStream S W
  new source = record { source = source; current_wait = none }

  abbrev pub set_wait :
      Option W.Fut → InterruptStream S W → Outcome (StreamPoll S.Event × InterruptStream S W)
  set_wait wait self = ok (pending_item, record self { current_wait = wait })

  -- What follows the poll of the source; `again` is the call of `poll_next` itself, and `now` the instant
  -- at which the wait is polled.
  abbrev pub after_events :
      ℕ
      → (InterruptStream S W → Outcome (StreamPoll S.Event × InterruptStream S W))
      → (SourcePollErr S.Error ⊎ SourcePoll S.Event (Unit {0}))
      → InterruptStream S W
      → Outcome (StreamPoll S.Event × InterruptStream S W)
  after_events now again (inl _) this = panic
  after_events now again (inr (interrupt time i)) this = ok (item time i, this)
  after_events now again (inr pending) this = ok (pending_item, this)
  after_events now again (inr (ready _ none)) this = set_wait none this
  after_events now again (inr (ready _ (some next))) this = elim (W.is_ready now (W.wait_fn next)) [
    | true ↦ again (record this { current_wait = none })
    | false ↦ set_wait (some (W.wait_fn next)) this
  ]

  -- The call with `n` calls to come reads the instant `clock n`, and polls its wait at `polled n`.
  unfoldable pub poll_next :
      ℕ
      → (ℕ → ℕ)
      → (ℕ → ℕ)
      → InterruptStream S W
      → Outcome (StreamPoll S.Event × InterruptStream S W)
  poll_next zero clock polled self = out_of_fuel
  poll_next (suc n) clock polled self = do
    advanced ← S.advance (clock n) self.source
    (poll, source) ← S.poll_events (clock n) advanced
    after_events (polled n) (λ this. poll_next n clock polled this) poll
        (record self { source = source })
