-- ===== src/Source/Adapters/Multiplex.antt =====
-- source/src/adapters/multiplex: a source with few channels, polled on any number of channels. Wakers
-- are not modelled.
pub mod Idle
use cozal.Prelude.{
  ℕ, zero, suc, ◌+◌, ◌-◌, ◌==◌, ◌&&◌, Bool, true, false, Option, none, some, List, [], ◌∷◌, ◌++◌,
  ltb, if◌then◌else◌, ◌⊎◌, inl, inr, Outcome, ok, panic, ◌>>=◌,
}
use cozal.Transposer.Time.{nat_ord}
use cozal.Transposer.Storage.{lookup, insert_entry, without}
use cozal.Source.NoInput.{SourcePoll, ready, interrupt, pending}
use cozal.Source.Trait.{Source, SourcePollErr}

pub data PollType : Type 0 where
  normal : PollType
  forget : PollType
  events : PollType

abbrev pub same_type : PollType → PollType → Bool
same_type normal normal = true
same_type forget forget = true
same_type events events = true
same_type _ _ = false

pub record Assignment : Type 0 where
  pub poll_type : PollType
  pub time : ℕ
  pub source_channel : ℕ

pub record AssignmentMap : Type 0 where
  pub max_src_channels : ℕ
  pub source_channels : List (ℕ × ℕ)
  pub output_channels : List (ℕ × Assignment)

abbrev pub new_assignments : ℕ → AssignmentMap
new_assignments max_channels = record {
  max_src_channels = max_channels;
  source_channels = [];
  output_channels = [];
}

unfoldable pub get_assigned_source_channel : ℕ → AssignmentMap → Option Assignment
get_assigned_source_channel channel self = lookup ⦃o = nat_ord⦄ channel self.output_channels

-- A channel that is not assigned is given back itself.
unfoldable pub get_assigned_output_channel : ℕ → AssignmentMap → Option ℕ
get_assigned_output_channel channel self =
    elim (lookup ⦃o = nat_ord⦄ channel self.source_channels) [
      | some out_channel ↦ some out_channel
      | none ↦ some channel
    ]

-- The loop from `channel` on, while that many channels are left below the maximum.
unfoldable pub unassigned_from : ℕ → ℕ → AssignmentMap → Option ℕ
unfolding get_assigned_output_channel
unassigned_from zero channel self = none
unassigned_from (suc left) channel self =
    let next = unassigned_from left (channel + 1) self in
    elim (get_assigned_output_channel channel self) [ some _ ↦ next | none ↦ some channel ]

abbrev pub get_unassigned_source_channel : AssignmentMap → Option ℕ
get_unassigned_source_channel self = unassigned_from self.max_src_channels 0 self

unfoldable pub assign : ℕ → Assignment → AssignmentMap → AssignmentMap
assign out_channel assignment self = record self {
  source_channels =
      insert_entry ⦃o = nat_ord⦄ assignment.source_channel out_channel self.source_channels;
  output_channels = insert_entry ⦃o = nat_ord⦄ out_channel assignment self.output_channels;
}

unfoldable pub unassign : ℕ → AssignmentMap → AssignmentMap
unassign src_channel self = elim (lookup ⦃o = nat_ord⦄ src_channel self.source_channels) [
  | some out_channel ↦ record self {
    source_channels = without ⦃o = nat_ord⦄ src_channel self.source_channels;
    output_channels = without ⦃o = nat_ord⦄ out_channel self.output_channels;
  }
  | none ↦ self
]

pub record AffinityMap : Type 0 where
  pub max_src_channels : ℕ
  pub output_channels : List (ℕ × ℕ)

unfoldable pub get_affiliated_source_channel : ℕ → AffinityMap → Option ℕ
get_affiliated_source_channel channel self =
    elim (lookup ⦃o = nat_ord⦄ channel self.output_channels) [
      | some src_channel ↦ some src_channel
      | none ↦ if ltb channel self.max_src_channels then some channel else none
    ]

unfoldable pub set_affiliation : ℕ → ℕ → AffinityMap → AffinityMap
set_affiliation src_channel out_channel self = record self {
  output_channels =
      if src_channel == out_channel
      then without ⦃o = nat_ord⦄ out_channel self.output_channels
      else insert_entry ⦃o = nat_ord⦄ out_channel src_channel self.output_channels;
}

pub record PendingPoll : Type 0 where
  pub poll_type : PollType
  pub out_channel : ℕ
  pub time : ℕ

-- A pending poll of a channel that is queued already is replaced.
abbrev pub enqueue : PendingPoll → List PendingPoll → List PendingPoll
enqueue new_pending [] = new_pending ∷ []
enqueue new_pending (p ∷ ps) =
    let rest = enqueue new_pending ps in
    if p.out_channel == new_pending.out_channel then new_pending ∷ ps else p ∷ rest

module _ (S : Source) where
  pub record Multiplex : Type 0 where
    pub source : S.Self
    pub assigned_channels : AssignmentMap
    pub channel_affinity : AffinityMap
    pub pending_channels : List PendingPoll

  abbrev pub Answer : Type 0
  Answer = SourcePollErr S.Error ⊎ SourcePoll S.Event S.State

module _ (S : Source) where
  unfoldable pub new : S.Self → Multiplex S
  new source = record {
    source = source;
    assigned_channels = new_assignments S.max_channel;
    channel_affinity = record { max_src_channels = S.max_channel; output_channels = [] };
    pending_channels = [];
  }

  abbrev pub is_pending : Answer S → Bool
  is_pending (inr pending) = true
  is_pending _ = false

  abbrev pub assign_pending : PendingPoll → ℕ → AssignmentMap → AssignmentMap
  assign_pending p source_channel self =
      assign p.out_channel
        (record { poll_type = p.poll_type; time = p.time; source_channel = source_channel }) self

  -- A channel that is done with goes to the first poll that is queued.
  abbrev pub hand_on : ℕ → List PendingPoll → Multiplex S → Multiplex S
  hand_on source_channel [] self = record self {
    assigned_channels = unassign source_channel self.assigned_channels;
  }
  hand_on source_channel (p ∷ ps) self = record self {
    assigned_channels = assign_pending p source_channel self.assigned_channels;
    pending_channels = ps;
  }

  -- What the map of assignments keeps of a poll on a source channel that is pending.
  abbrev pub keep_assignment : PendingPoll → ℕ → Answer S → Multiplex S → Multiplex S
  keep_assignment p source_channel result self =
      if is_pending result
      then record self {
        assigned_channels = assign_pending p source_channel self.assigned_channels;
      }
      else self

  -- The assignment is for another poll: it is used if none is queued.
  abbrev pub poll_partial :
      (ℕ → ℕ → S.Self → Outcome (Answer S × S.Self))
      → PendingPoll
      → ℕ
      → List PendingPoll
      → Multiplex S
      → Outcome (Answer S × Multiplex S)
  poll_partial poll_fn p source_channel (q ∷ qs) self = ok (
    inr pending,
    record self {
      assigned_channels = assign_pending q source_channel self.assigned_channels;
      pending_channels = qs ++ p ∷ [];
    },
  )
  poll_partial poll_fn p source_channel [] self = do
    (result, source) ← poll_fn p.time source_channel self.source
    ok (result, keep_assignment p source_channel result (record self { source = source }))

  -- The channel to poll on, and whether it is affiliated already.
  abbrev pub free_affiliated : AssignmentMap → Option ℕ → Option ℕ
  free_affiliated assigned none = none
  free_affiliated assigned (some affinity) = elim (get_assigned_output_channel affinity assigned) [
    | none ↦ some affinity
    | some _ ↦ none
  ]

  abbrev pub choose_channel : ℕ → Multiplex S → Option (ℕ × Bool)
  choose_channel out_channel self =
      elim (free_affiliated self.assigned_channels
        (get_affiliated_source_channel out_channel self.channel_affinity)) [
          | some channel ↦ some (channel, true)
          | none ↦ elim (get_unassigned_source_channel self.assigned_channels) [
            | some channel ↦ some (channel, false)
            | none ↦ none
          ]
        ]

  abbrev pub affiliate : ℕ × Bool → ℕ → Multiplex S → Multiplex S
  affiliate (source_channel, already) out_channel self = if already then self else record self {
    channel_affinity = set_affiliation source_channel out_channel self.channel_affinity;
  }

  abbrev pub poll_chosen :
      (ℕ → ℕ → S.Self → Outcome (Answer S × S.Self))
      → PendingPoll
      → Option (ℕ × Bool)
      → Multiplex S
      → Outcome (Answer S × Multiplex S)
  poll_chosen poll_fn p none self =
      ok (inr pending, record self { pending_channels = enqueue p self.pending_channels })
  poll_chosen poll_fn p (some c) self = do
    (result, source) ← poll_fn p.time c.0 self.source
    ok (
      result,
      keep_assignment p c.0 result (record (affiliate c p.out_channel self) { source = source }),
    )

  abbrev pub poll_assigned :
      (ℕ → ℕ → S.Self → Outcome (Answer S × S.Self))
      → PendingPoll
      → Option Assignment
      → Multiplex S
      → Outcome (Answer S × Multiplex S)
  poll_assigned poll_fn p none self = poll_chosen poll_fn p (choose_channel p.out_channel self) self
  poll_assigned poll_fn p (some a) self =
      if same_type a.poll_type p.poll_type && (a.time == p.time)
      then (do
        (result, source) ← poll_fn p.time a.source_channel self.source
        let polled = record self { source = source }
        ok (
          result,
          if is_pending result
              then polled
              else hand_on a.source_channel polled.pending_channels polled,
        ))
      else poll_partial poll_fn p a.source_channel self.pending_channels self

  unfoldable pub poll_internal :
      (ℕ → ℕ → S.Self → Outcome (Answer S × S.Self))
      → PendingPoll
      → Multiplex S
      → Outcome (Answer S × Multiplex S)
  poll_internal poll_fn p self =
      poll_assigned poll_fn p (get_assigned_source_channel p.out_channel self.assigned_channels)
        self

  unfoldable pub poll : ℕ → ℕ → Multiplex S → Outcome (Answer S × Multiplex S)
  poll time channel self =
      poll_internal S.poll (record { poll_type = normal; out_channel = channel; time = time }) self

  unfoldable pub poll_forget : ℕ → ℕ → Multiplex S → Outcome (Answer S × Multiplex S)
  poll_forget time channel self =
      poll_internal S.poll_forget
        (record { poll_type = forget; out_channel = channel; time = time }) self

  unfoldable pub poll_events :
      ℕ
      → Multiplex S
      → Outcome ((SourcePollErr S.Error ⊎ SourcePoll S.Event (Unit {0})) × Multiplex S)
  poll_events time self = do
    (result, source) ← S.poll_events time self.source
    ok (result, record self { source = source })

  unfoldable pub advance : ℕ → Multiplex S → Outcome (Multiplex S)
  advance time self = do source ← S.advance time self.source; ok (record self { source = source })

  -- `todo!()`
  unfoldable pub release_channel : ℕ → Multiplex S → Outcome (Multiplex S)
  release_channel channel self = panic
