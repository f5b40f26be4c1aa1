-- ===== src/Source/Adapters/Duplicate/Shares.antt =====
-- source/src/adapters/duplicate: an event that one duplicate polls reaches the others.
use cozal.Prelude.{
  ℕ, ◌≡◌, ◌≢◌, refl, ap, ◌∙◌, subst, false, Option, none, some, List, [], ◌∷◌, arith, ok, ok_inj,
  ◌>>=◌,
}
use cozal.Transposer.Time.{nat_ord}
use cozal.Transposer.Storage.{lookup}
use cozal.Source.Adapters.ChannelMap
use cozal.Source.Adapters.Rollback
use cozal.Source.Adapters.Rollback.{RollbackEvent, event, rollback, finalize, search, is_later}
use cozal.Source.Adapters.Duplicate
use cozal.Source.Adapters.Duplicate.{
  Src, PollFn, Original, Children, into, roll_children, roll_child, distribute_event, insert_child,
  told, SourcePoll, emitted, rolled_back, finalized,
}
use cozal.Util.Entry.BTree
use cozal.Util.Entry.Trips.{lookup-insert}

abbrev child_map :
    {Event : Type 0}
    → (Option (List (RollbackEvent Event)) → Option (List (RollbackEvent Event)))
    → Option (Option (List (RollbackEvent Event)))
    → Option (Option (List (RollbackEvent Event)))
child_map f none = none
child_map f (some c) = some (f c)

module _ {Event : Type 0} where
  lookup-roll_children :
      (t j : ℕ) (children : Children Event)
      → lookup ⦃o = nat_ord⦄ j (roll_children t children)
        ≡ child_map (roll_child t) (lookup ⦃o = nat_ord⦄ j children)
  unfolding lookup roll_children
  lookup-roll_children t j [] = refl
  lookup-roll_children t j ((i, c) ∷ rest) = ground (arith, lookup-roll_children t j rest)

  lookup-distribute_event_self :
      (e : RollbackEvent Event) (i : ℕ) (children : Children Event)
      → lookup ⦃o = nat_ord⦄ i (distribute_event e i children) ≡ lookup ⦃o = nat_ord⦄ i children
  unfolding lookup distribute_event
  lookup-distribute_event_self e i [] = refl
  lookup-distribute_event_self e i ((k, c) ∷ rest) =
      ground (arith, lookup-distribute_event_self e i rest)

  lookup-distribute_event_other :
      (e : RollbackEvent Event) (i j : ℕ) (children : Children Event)
      → i ≢ j
      → lookup ⦃o = nat_ord⦄ j (distribute_event e i children)
        ≡ child_map (insert_child e) (lookup ⦃o = nat_ord⦄ j children)
  unfolding lookup distribute_event
  lookup-distribute_event_other e i j [] apart = refl
  lookup-distribute_event_other e i j ((k, c) ∷ rest) apart =
      ground (arith, apart, lookup-distribute_event_other e i j rest apart)

  -- After the source has sent `r` to a duplicate, another one that had nothing to send has `r`.
  abbrev HasJust : RollbackEvent Event → ℕ → Children Event → Type 0
  HasJust r j children = lookup ⦃o = nat_ord⦄ j children ≡ some (some (r ∷ []))

  HasJust-told :
      {State Error : Type 0} (r : RollbackEvent Event) (p : SourcePoll Event State Error) (i j : ℕ)
      (children : Children Event)
      → into r ≡ ok p
      → i ≢ j
      → lookup ⦃o = nat_ord⦄ j children ≡ some (some [])
      → HasJust r j (told p i children)
  unfolding Rollback.insert Rollback.handle_rollback
  HasJust-told (event t e) p i j children sent apart empty =
      subst (λ q. HasJust (event t e) j (told q i children)) (ok_inj (emitted e t) p sent)
        (lookup-distribute_event_other (event t e) i j children apart
          ∙ ap (child_map (insert_child (event t e))) empty)
  HasJust-told (rollback t) p i j children sent apart empty =
      subst (λ q. HasJust (rollback t) j (told q i children)) (ok_inj (rolled_back t) p sent)
        (lookup-distribute_event_other (rollback t) i j (roll_children t children) apart
          ∙ ap (child_map (insert_child (rollback t)))
              (lookup-roll_children t j children ∙ ap (child_map (roll_child t)) empty))
  HasJust-told (finalize t) p i j children sent apart empty =
      subst (λ q. HasJust (finalize t) j (told q i children)) (ok_inj (finalized t) p sent)
        (lookup-distribute_event_other (finalize t) i j children apart
          ∙ ap (child_map (insert_child (finalize t))) empty)
  HasJust-told (search t) p i j children sent apart empty = absurd (cc)

module _ (S : Src) where
  -- The duplicate that polled the source is left, and the answer is not adjusted.
  abbrev IsLeft : SourcePoll S.Event S.State S.Error → ℕ → Children S.Event → Type 0
  IsLeft p i children =
      (events : List (RollbackEvent S.Event)) × (Duplicate.events_of S i children ≡ ok events)
      × (Duplicate.adjust S p events ≡ p)

  IsLeft-told :
      (r : RollbackEvent S.Event) (p : SourcePoll S.Event S.State S.Error) (i : ℕ)
      (children : Children S.Event) (events : List (RollbackEvent S.Event))
      → into r ≡ ok p
      → lookup ⦃o = nat_ord⦄ i children ≡ some (some events)
      → IsLeft p i (told p i children)
  unfolding Duplicate.events_of Duplicate.adjust
  IsLeft-told (event t e) p i children events sent held =
      subst (λ q. IsLeft q i (told q i children)) (ok_inj (emitted e t) p sent)
        (events, rw (lookup-distribute_event_self (event t e) i children, held) refl, refl)
  IsLeft-told (rollback t) p i children events sent held =
      subst (λ q. IsLeft q i (told q i children)) (ok_inj (rolled_back t) p sent)
        (
          Rollback.handle_rollback t events,
          rw
              (
                lookup-distribute_event_self (rollback t) i (roll_children t children),
                lookup-roll_children t i children,
                held,
              )
              refl,
          refl,
        )
  IsLeft-told (finalize t) p i children events sent held =
      subst (λ q. IsLeft q i (told q i children)) (ok_inj (finalized t) p sent)
        (events, rw (lookup-distribute_event_self (finalize t) i children, held) refl, refl)
  IsLeft-told (search t) p i children events sent held = absurd (cc)

  sent_alone :
      (time : ℕ) (r : RollbackEvent S.Event)
      → is_later time r ≡ false
      → Rollback.poll_previously_emitted time (r ∷ []) ≡ (some r, [])
  unfolding Rollback.poll_previously_emitted
  sent_alone time r due = rw due refl

  -- What a duplicate has to send it sends, and the source is not polled.
  poll_stored :
      (poll_fn : PollFn S) (time channel c j : ℕ) (self : Original S)
      (events rest : List (RollbackEvent S.Event)) (r : RollbackEvent S.Event)
      (p : SourcePoll S.Event S.State S.Error)
      → ChannelMap.map j channel ≡ ok c
      → lookup ⦃o = nat_ord⦄ j self.children ≡ some (some events)
      → Rollback.poll_previously_emitted time events ≡ (some r, rest)
      → into r ≡ ok p
      → Duplicate.poll S poll_fn time channel j self
        ≡ ok (p, record self { children = BTree.insert ⦃o = nat_ord⦄ j (some rest) self.children })
  unfolding Duplicate.poll Duplicate.events_of
  poll_stored poll_fn time channel c j self events rest r p at_j held first sent =
      let left : (Rollback.poll_previously_emitted time events).1 ≡ rest = rw first refl in
      rw (at_j, ◌>>=◌, held, first, sent, left) refl

  -- Two duplicates `i` and `j`: `i` has nothing to send at the time of its poll, so it polls the source,
  -- which sends an event, a rollback or a finalize, `r`; `j` has nothing to send at all. Then the poll of
  -- `i` returns `r`. A poll of `j` after it, not before the time of `r` if that is an event, returns `r`
  -- too, and `j` has nothing to send again: the source has been polled once.
  pub poll-shares :
      (poll_fn : PollFn S) (time time' channel channel' c c' i j : ℕ) (self : Original S)
      (events : List (RollbackEvent S.Event)) (r : RollbackEvent S.Event)
      (p : SourcePoll S.Event S.State S.Error) (source : S.Self)
      → i ≢ j
      → ChannelMap.map i channel ≡ ok c
      → ChannelMap.map j channel' ≡ ok c'
      → lookup ⦃o = nat_ord⦄ i self.children ≡ some (some events)
      → lookup ⦃o = nat_ord⦄ j self.children ≡ some (some [])
      → (Rollback.poll_previously_emitted time events).0 ≡ none
      → poll_fn self.source time c ≡ (p, source)
      → into r ≡ ok p
      → is_later time' r ≡ false
      → (self' self'' : Original S) × (Duplicate.poll S poll_fn time channel i self ≡ ok (p, self'))
        × (Duplicate.poll S poll_fn time' channel' j self' ≡ ok (p, self''))
        × (self''.source ≡ source)
        × (lookup ⦃o = nat_ord⦄ j self''.children ≡ some (some []))
  unfolding Duplicate.poll Duplicate.events_of Duplicate.poll_original
  poll-shares poll_fn time time' channel channel' c c' i j self events r p source apart at_i at_j
        held empty nothing polled sent due =
      let children = told p i self.children in
      let self' = record self { source = source; children = children } in
      let (events', left, same) = IsLeft-told r p i self.children events sent held in
      let just = HasJust-told r p i j self.children sent apart empty in
      (
        self',
        record self' { children = BTree.insert ⦃o = nat_ord⦄ j (some []) children },
        rw (at_i, ◌>>=◌, held, nothing, polled, left, same) refl,
        poll_stored poll_fn time' channel' c' j self' (r ∷ []) [] r p at_j just
            (sent_alone time' r due) sent,
        refl,
        lookup-insert ⦃o = nat_ord⦄ j (some []) children,
      )
