-- ===== src/Source/Adapters/Duplicate.antt =====
-- source/src/adapters/duplicate/original.rs, and `DuplicateInner` of
-- source/src/adapters/duplicate/duplicate_inner.rs: duplicates of one source, which send each other the
-- events that one of them has polled. Wakers are left out, and calls are one after the other.
pub mod Shares
pub mod Fresh
use cozal.Prelude.{
  ℕ, ◌+◌, Option, none, some, List, [], ◌∷◌, ◌++◌, map, last?, ltb, ◌==◌, if◌then◌else◌, Outcome,
  ok, panic, ◌>>=◌, unwrap,
}
use cozal.Transposer.Time.{nat_ord}
use cozal.Transposer.Storage.{lookup}
use cozal.Source.Adapters.ChannelMap
use cozal.Source.Adapters.Advanced
use cozal.Source.Adapters.Advanced.{Advanced}
use cozal.Source.Adapters.Rollback
use cozal.Source.Adapters.Rollback.{RollbackEvent, event, rollback, finalize, search}
use cozal.Util.Entry.BTree

-- What a poll gives: `Poll::Pending`, an error, or what the names of `SourcePollOk` say.
pub data SourcePoll (Event State Error : Type 0) : Type 0 where
  pending : SourcePoll Event State Error
  failed : Error → SourcePoll Event State Error
  rolled_back : ℕ → SourcePoll Event State Error
  emitted : Event → ℕ → SourcePoll Event State Error
  finalized : ℕ → SourcePoll Event State Error
  scheduled : State → ℕ → SourcePoll Event State Error
  ready : State → SourcePoll Event State Error

-- The source that is shared, of which the adapter calls these. A method on `Pin<&mut Self>` gives the new
-- value too.
pub record Src : Type 1 where
  pub Self : Type 0
  pub Event : Type 0
  pub State : Type 0
  pub Error : Type 0
  pub advance : ℕ → Self → Self
  pub max_channel : Self → ℕ

-- `PollFn`, from a time and a channel.
abbrev pub PollFn : Src → Type 0
PollFn S = S.Self → ℕ → ℕ → SourcePoll S.Event S.State S.Error × S.Self

-- A child, under its index: the events that it has still to send, or `none` when it has been dropped,
-- and its `Weak` reference finds nothing.
abbrev pub Children : Type 0 → Type 0
Children Event = List (ℕ × Option (List (RollbackEvent Event)))

module _ (S : Src) where
  pub record Original : Type 0 where
    pub source : S.Self
    pub children : Children S.Event
    pub advanced : Advanced

-- `From<RollbackEvent> for SourcePollOk`
abbrev pub into :
    {Event State Error : Type 0} → RollbackEvent Event → Outcome (SourcePoll Event State Error)
into (event t e) = ok (emitted e t)
into (rollback t) = ok (rolled_back t)
into (finalize t) = ok (finalized t)
into (search _) = panic

module _ {Event : Type 0} where
  abbrev pub index_after : Option (ℕ × Option (List (RollbackEvent Event))) → ℕ
  index_after none = 0
  index_after (some (i, _)) = i + 1

  unfoldable pub get_next_index : Children Event → ℕ
  get_next_index children = index_after (last? children)

  abbrev pub roll_child :
      ℕ → Option (List (RollbackEvent Event)) → Option (List (RollbackEvent Event))
  roll_child t none = none
  roll_child t (some events) = some (Rollback.handle_rollback t events)

  -- `handle_rollback` of every child that is left.
  unfoldable pub roll_children : ℕ → Children Event → Children Event
  roll_children t [] = []
  roll_children t ((i, child) ∷ rest) = (i, roll_child t child) ∷ roll_children t rest

  abbrev pub insert_child :
      RollbackEvent Event
      → Option (List (RollbackEvent Event))
      → Option (List (RollbackEvent Event))
  insert_child e none = none
  insert_child e (some events) = some (Rollback.insert e events).1

  unfoldable pub distribute_event : RollbackEvent Event → ℕ → Children Event → Children Event
  distribute_event e from_index [] = []
  distribute_event e from_index ((i, child) ∷ rest) =
      let others = distribute_event e from_index rest in
      if i == from_index then (i, child) ∷ others else (i, insert_child e child) ∷ others

  -- What a poll of the source does to the children.
  abbrev pub told :
      {State Error : Type 0} → SourcePoll Event State Error → ℕ → Children Event → Children Event
  told (rolled_back t) from_index children =
      distribute_event (rollback t) from_index (roll_children t children)
  told (emitted e t) from_index children = distribute_event (event t e) from_index children
  told (finalized t) from_index children = distribute_event (finalize t) from_index children
  told _ from_index children = children

module _ (S : Src) where
  abbrev pub Poll : Type 0
  Poll = SourcePoll S.Event S.State S.Error

  unfoldable pub new : S.Self → Original S
  new source = record { source = source; children = []; advanced = Advanced.new }

  unfoldable pub register_child : ℕ → Original S → Original S
  register_child index self = record self {
    children = BTree.insert ⦃o = nat_ord⦄ index (some []) self.children;
    advanced = (Advanced.register_new_duplicate index self.advanced).1;
  }

  -- `DuplicateInner::from_original`: the index of the new duplicate, which has no events.
  unfoldable pub from_original : Original S → ℕ × Original S
  unfolding get_next_index register_child
  from_original original =
      let index = get_next_index original.children in (index, register_child index original)

  abbrev pub tell_source : Option ℕ → Original S → Original S
  tell_source none self = self
  tell_source (some t) self = record self { source = S.advance t self.source }

  unfoldable pub advance : ℕ → ℕ → Original S → Outcome (Original S)
  advance time index self = do
    (t, advanced) ← Advanced.advance time index self.advanced
    ok (tell_source t (record self { advanced = advanced }))

  -- `Original::poll`
  unfoldable pub poll_original : PollFn S → ℕ → ℕ → ℕ → Original S → Poll × Original S
  unfolding roll_children distribute_event
  poll_original poll_fn poll_time channel from_index self =
      let (p, source) = poll_fn self.source poll_time channel in
      (p, record self { source = source; children = told p from_index self.children })

  abbrev pub least_time : ℕ → Option ℕ → ℕ
  least_time t none = t
  least_time t (some u) = if ltb u t then u else t

  -- The answer of the source, with the events that the duplicate has still to send.
  unfoldable pub adjust : Poll → List (RollbackEvent S.Event) → Poll
  adjust (ready s) events = elim (Rollback.first_event_time none events) [
    | some t ↦ scheduled s t
    | none ↦ ready s
  ]
  adjust (scheduled s t) events =
      scheduled s (least_time t (Rollback.first_event_time (some t) events))
  adjust p events = p

  -- The events of a duplicate, which is left as long as it is polled.
  unfoldable pub events_of : ℕ → Children S.Event → Outcome (List (RollbackEvent S.Event))
  unfolding lookup
  events_of index children = do child ← unwrap (lookup ⦃o = nat_ord⦄ index children); unwrap child

  abbrev pub poll_shared : PollFn S → ℕ → ℕ → ℕ → Original S → Outcome (Poll × Original S)
  poll_shared poll_fn poll_time channel index self =
      let (p, self') = poll_original poll_fn poll_time channel index self in
      do events ← events_of index self'.children; ok (adjust p events, self')

  -- `DuplicateInner::poll`
  unfoldable pub poll : PollFn S → ℕ → ℕ → ℕ → Original S → Outcome (Poll × Original S)
  unfolding events_of
  poll poll_fn poll_time channel index self = do
    channel' ← ChannelMap.map index channel
    events ← events_of index self.children
    let (first, rest) = Rollback.poll_previously_emitted poll_time events
    elim first [
      | some e ↦ do
        p ← into e
        ok (
          p,
          record self { children = BTree.insert ⦃o = nat_ord⦄ index (some rest) self.children },
        )
      | none ↦ poll_shared poll_fn poll_time channel' index self
    ]

  -- `Duplicate::new`
  unfoldable pub new_duplicate : S.Self → ℕ × Original S
  unfolding new from_original
  new_duplicate source = from_original (new source)

  -- `todo!()`
  unfoldable pub release_channel : ℕ → ℕ → Original S → Outcome (Original S)
  release_channel channel index self = panic

  unfoldable pub max_channel : ℕ → Original S → Outcome ℕ
  max_channel index self = ChannelMap.max_channel (S.max_channel self.source) index
