-- ===== src/Source/Adapters/Multiplex/Idle.antt =====
-- source/src/adapters/multiplex: no poll for a state reaches the source.
use cozal.Prelude.{
  ℕ, zero, suc, ◌+◌, ◌≡◌, refl, ap, Bool, ◌∙◌, Option, none, some, Option-cases, List, [], ◌∷◌, inl,
  inr, Outcome, ok, err, panic, out_of_fuel, ◌>>=◌, ◌⊎◌,
}
use cozal.Transposer.Time.{nat_ord}
use cozal.Transposer.Storage.{lookup}
use cozal.Source.NoInput.{SourcePoll, pending}
use cozal.Source.Trait.{Source, SourcePollErr}
use cozal.Source.Adapters.Multiplex
use cozal.Source.Adapters.Multiplex.{
  AssignmentMap, get_assigned_source_channel, get_assigned_output_channel, unassigned_from,
  Multiplex, Answer, PendingPoll, Assignment, enqueue, normal, forget,
}

never_free :
    (channel : ℕ) (self : AssignmentMap)
    → (out : ℕ) × (get_assigned_output_channel channel self ≡ some out)
unfolding get_assigned_output_channel
never_free channel self = elim (Option-cases (lookup ⦃o = nat_ord⦄ channel self.source_channels)) [
  | inl e ↦ (channel, rw (get_assigned_output_channel, e) refl)
  | inr (out, e) ↦ (out, rw (get_assigned_output_channel, e) refl)
]

unassigned_from-none :
    (left channel : ℕ) (self : AssignmentMap) → unassigned_from left channel self ≡ none
unfolding unassigned_from
unassigned_from-none zero channel self = refl
unassigned_from-none (suc left) channel self =
    let (out, e) = never_free channel self in
    rw (unassigned_from, e) (unassigned_from-none left (channel + 1) self)

module _ (S : Source) where
  free_affiliated-none :
      (assigned : AssignmentMap) (o : Option ℕ) → Multiplex.free_affiliated S assigned o ≡ none
  free_affiliated-none assigned none = refl
  free_affiliated-none assigned (some affinity) =
      let (out, e) = never_free affinity assigned in rw (Multiplex.free_affiliated, e) refl

  choose_channel-none :
      (out_channel : ℕ) (self : Multiplex S) → Multiplex.choose_channel S out_channel self ≡ none
  choose_channel-none out_channel self =
      rw
        (
          Multiplex.choose_channel,
          free_affiliated-none self.assigned_channels
              (Multiplex.get_affiliated_source_channel out_channel self.channel_affinity),
          unassigned_from-none self.assigned_channels.max_src_channels 0 self.assigned_channels,
        )
        refl

  -- The calls of a source, but for `release_channel`, which is a `todo!()` here.
  pub data Call : Type 0 where
    at_normal : ℕ → ℕ → Call
    at_forget : ℕ → ℕ → Call
    at_events : ℕ → Call
    at_advance : ℕ → Call

  -- What a call gives back.
  pub data Reply : Type 0 where
    of_state : Answer S → Reply
    of_events : SourcePollErr S.Error ⊎ SourcePoll S.Event (Unit {0}) → Reply
    advanced : Reply

module _ (S : Source) where
  abbrev pub call : Call S → Multiplex S → Outcome (Reply S × Multiplex S)
  call (at_normal time channel) self = do
    (result, self') ← Multiplex.poll S time channel self
    ok (of_state result, self')
  call (at_forget time channel) self = do
    (result, self') ← Multiplex.poll_forget S time channel self
    ok (of_state result, self')
  call (at_events time) self = do
    (result, self') ← Multiplex.poll_events S time self
    ok (of_events result, self')
  call (at_advance time) self = do self' ← Multiplex.advance S time self; ok (advanced, self')

  -- What the source sees of a call: polls of events and advances alone.
  abbrev pub call_source : Call S → S.Self → Outcome (Reply S × S.Self)
  call_source (at_normal time channel) source = ok (of_state (inr pending), source)
  call_source (at_forget time channel) source = ok (of_state (inr pending), source)
  call_source (at_events time) source = do
    (result, source') ← S.poll_events time source
    ok (of_events result, source')
  call_source (at_advance time) source = do source' ← S.advance time source; ok (advanced, source')

  abbrev pub cons :
      {M : Type 0} → Reply S → Outcome (List (Reply S) × M) → Outcome (List (Reply S) × M)
  cons result x = do (results, self) ← x; ok (result ∷ results, self)

  -- The calls in their order, with their results.
  abbrev pub run : List (Call S) → Multiplex S → Outcome (List (Reply S) × Multiplex S)
  run [] self = ok ([], self)
  run (c ∷ cs) self = do (result, self') ← call c self; cons result (run cs self')

  abbrev pub run_source : List (Call S) → S.Self → Outcome (List (Reply S) × S.Self)
  run_source [] source = ok ([], source)
  run_source (c ∷ cs) source = do
    (result, source') ← call_source c source
    cons result (run_source cs source')

  -- The results, and the source that is left.
  abbrev pub with_source :
      Outcome (List (Reply S) × Multiplex S) → Outcome (List (Reply S) × S.Self)
  with_source x = do (results, self) ← x; ok (results, self.source)

  with_source-cons :
      (result : Reply S) (x : Outcome (List (Reply S) × Multiplex S))
      → with_source (cons result x) ≡ cons result (with_source x)
  with_source-cons result (ok (results, self)) = refl
  with_source-cons result err = refl
  with_source-cons result panic = refl
  with_source-cons result out_of_fuel = refl

  not_assigned :
      (channel : ℕ) (assigned : AssignmentMap)
      → assigned.output_channels ≡ []
      → get_assigned_source_channel channel assigned ≡ none
  unfolding get_assigned_source_channel lookup
  not_assigned channel assigned e = ap (lookup ⦃o = nat_ord⦄ channel) e

  poll_internal_pending :
      (poll_fn : ℕ → ℕ → S.Self → Outcome (Answer S × S.Self)) (p : PendingPoll)
      (self : Multiplex S)
      → self.assigned_channels.output_channels ≡ []
      → (Multiplex.poll_internal S poll_fn p self
          ≡ ok (inr pending, record self { pending_channels = enqueue p self.pending_channels }))
  unfolding Multiplex.poll_internal
  poll_internal_pending poll_fn p self e =
      ap (λ (a : Option Assignment). Multiplex.poll_assigned S poll_fn p a self)
        (not_assigned p.out_channel self.assigned_channels e)
      ∙ ap (λ (c : Option (ℕ × Bool)). Multiplex.poll_chosen S poll_fn p c self)
          (choose_channel-none S p.out_channel self)

  -- A call that is done, and the calls that follow.
  continued :
      (result : Reply S) (self : Multiplex S) (cs : List (Call S))
      → with_source (run cs self) ≡ run_source cs self.source
      → with_source (cons result (run cs self)) ≡ cons result (run_source cs self.source)
  continued result self cs rest = with_source-cons result (run cs self) ∙ ap (cons result) rest

  events_seen :
      (time : ℕ) (cs : List (Call S)) (self : Multiplex S)
      (x : Outcome ((SourcePollErr S.Error ⊎ SourcePoll S.Event (Unit {0})) × S.Self))
      → S.poll_events time self.source ≡ x
      → ((source : S.Self)
          → with_source (run cs (record self { source = source })) ≡ run_source cs source)
      → with_source (run (at_events time ∷ cs) self) ≡ run_source (at_events time ∷ cs) self.source
  unfolding Multiplex.poll_events
  events_seen time cs self (ok (result, source)) polled rest =
      rw polled (continued (of_events result) (record self { source = source }) cs (rest source))
  events_seen time cs self err polled rest = rw polled refl
  events_seen time cs self panic polled rest = rw polled refl
  events_seen time cs self out_of_fuel polled rest = rw polled refl

  advance_seen :
      (time : ℕ) (cs : List (Call S)) (self : Multiplex S) (x : Outcome S.Self)
      → S.advance time self.source ≡ x
      → ((source : S.Self)
          → with_source (run cs (record self { source = source })) ≡ run_source cs source)
      → with_source (run (at_advance time ∷ cs) self)
        ≡ run_source (at_advance time ∷ cs) self.source
  unfolding Multiplex.advance
  advance_seen time cs self (ok source) moved rest =
      rw moved (continued advanced (record self { source = source }) cs (rest source))
  advance_seen time cs self err moved rest = rw moved refl
  advance_seen time cs self panic moved rest = rw moved refl
  advance_seen time cs self out_of_fuel moved rest = rw moved refl

  run_seen :
      (cs : List (Call S)) (self : Multiplex S)
      → self.assigned_channels.output_channels ≡ []
      → with_source (run cs self) ≡ run_source cs self.source
  unfolding Multiplex.poll Multiplex.poll_forget Multiplex.poll_events Multiplex.advance
  run_seen [] self e = refl
  run_seen (at_normal time channel ∷ cs) self e =
      let p : PendingPoll = record { poll_type = normal; out_channel = channel; time = time } in
      let next = record self { pending_channels = enqueue p self.pending_channels } in
      rw (poll_internal_pending S.poll p self e)
        (continued (of_state (inr pending)) next cs (run_seen cs next e))
  run_seen (at_forget time channel ∷ cs) self e =
      let p : PendingPoll = record { poll_type = forget; out_channel = channel; time = time } in
      let next = record self { pending_channels = enqueue p self.pending_channels } in
      rw (poll_internal_pending S.poll_forget p self e)
        (continued (of_state (inr pending)) next cs (run_seen cs next e))
  run_seen (at_events time ∷ cs) self e =
      events_seen time cs self (S.poll_events time self.source) refl
        λ source. run_seen cs (record self { source = source }) e
  run_seen (at_advance time ∷ cs) self e =
      advance_seen time cs self (S.advance time self.source) refl
        λ source. run_seen cs (record self { source = source }) e

  -- A new multiplexer, and any polls for states with `poll` and `poll_forget`, polls of events and
  -- advances: the source sees the polls of events and the advances alone, as if the polls for states had
  -- not been made. These are all pending.
  pub run-new :
      (cs : List (Call S)) (source : S.Self)
      → with_source (run cs (Multiplex.new S source)) ≡ run_source cs source
  unfolding Multiplex.new
  run-new cs source = run_seen cs (Multiplex.new S source) refl
