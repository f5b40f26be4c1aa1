-- ===== src/Source/Channels/Counts.antt =====
-- source/src/sources/transposer/channels: the number that the map of the wakers keeps for a step is
-- the number of the channels that wait for it.
use cozal.Prelude.{
  ℕ, ◌+◌, ◌-◌, ◌≡◌, ◌≢◌, refl, ◌≤◌, Option, none, some, Option-cases, inl, inr, List, [], ◌∷◌, ◌==◌,
  if◌then◌else◌, arith,
}
use cozal.Transposer.Time.{nat_ord, same}
use cozal.Transposer.Storage.{lookup, without, insert_entry}
use cozal.Transposer.Storage.Std.{lookup-without, lookup-insert_entry}
use cozal.Source.Channels
use cozal.Source.Channels.{
  ChannelStatuses, BlockedReason, Inner, original_step, repeat_step, interpolation_future, free,
  interpolation, original, repeat,
}

module _ {A : Type 0} where
  abbrev pub entries : ℕ → List (ℕ × A) → ℕ
  entries k [] = 0
  entries k ((j, _) ∷ m) = (if same ⦃o = nat_ord⦄ j k then 1 else 0) + entries k m

  without_absent : (k : ℕ) (m : List (ℕ × A)) → entries k m ≡ 0 → without ⦃o = nat_ord⦄ k m ≡ m
  unfolding without
  without_absent k [] h = refl
  without_absent k ((j, a) ∷ m) h = ground (arith, without_absent k m)

  entries-without :
      (k j : ℕ) (m : List (ℕ × A)) → entries j (without ⦃o = nat_ord⦄ k m) ≤ entries j m
  unfolding without
  entries-without k j [] = omega arith
  entries-without k j ((i, a) ∷ m) = ground (arith, entries-without k j m)

  entries_removed : (k : ℕ) (m : List (ℕ × A)) → entries k (without ⦃o = nat_ord⦄ k m) ≡ 0
  unfolding without
  entries_removed k [] = refl
  entries_removed k ((i, a) ∷ m) = ground (arith, entries_removed k m)

  entries_of_none : (k : ℕ) (m : List (ℕ × A)) → lookup ⦃o = nat_ord⦄ k m ≡ none → entries k m ≡ 0
  unfolding lookup
  entries_of_none k [] h = refl
  entries_of_none k ((i, a) ∷ m) h = ground (arith, entries_of_none k m)

-- The number that the map of the wakers has for a step.
abbrev pub counted? : Option (ℕ × List ℕ) → ℕ
counted? none = 0
counted? (some (n, _)) = n

module _ {I : Type 0} where
  -- Whether a channel waits for the step `s`, as a number.
  abbrev pub waits : ℕ → BlockedReason I → ℕ
  waits s r = elim (r.inner) [ repeat_step i ↦ (if i == s then 1 else 0) | _ ↦ 0 ]

  abbrev pub waits? : ℕ → Option (BlockedReason I) → ℕ
  waits? s none = 0
  waits? s (some r) = waits s r

  -- How many channels wait for the step `s`.
  abbrev pub blocked_on : ℕ → List (ℕ × BlockedReason I) → ℕ
  blocked_on s [] = 0
  blocked_on s ((_, r) ∷ m) = waits s r + blocked_on s m

  blocked_on-without :
      (s k : ℕ) (m : List (ℕ × BlockedReason I))
      → entries k m ≤ 1
      → blocked_on s m
        ≡ waits? s (lookup ⦃o = nat_ord⦄ k m) + blocked_on s (without ⦃o = nat_ord⦄ k m)
  unfolding lookup without
  blocked_on-without s k [] h = refl
  blocked_on-without s k ((j, r) ∷ m) h =
      ground (arith, blocked_on-without s k m, without_absent k m)

  blocked_on_least :
      (s k : ℕ) (m : List (ℕ × BlockedReason I)) (r : BlockedReason I)
      → entries k m ≤ 1
      → lookup ⦃o = nat_ord⦄ k m ≡ some r
      → blocked_on s m ≡ waits s r + blocked_on s (without ⦃o = nat_ord⦄ k m)
  blocked_on_least s k m r h found = rw (blocked_on-without s k m h, found) refl

  -- A channel has one entry, and a step has an entry of wakers just if a channel waits for it, with
  -- the number of those channels.
  pub record Counted (self : ChannelStatuses I) : Type 0 where
    pub unique : (k : ℕ) → entries k self.blocked_caller_channels ≤ 1
    pub counted :
        (s : ℕ)
        → counted? (lookup ⦃o = nat_ord⦄ s self.blocked_repeat_step_wakers)
          ≡ blocked_on s self.blocked_caller_channels
    pub positive :
        (s : ℕ) (keys : List ℕ)
        → lookup ⦃o = nat_ord⦄ s self.blocked_repeat_step_wakers ≢ some (0, keys)

  pub new-Counted : Counted (Channels.new {I = I})
  unfolding Channels.new lookup
  new-Counted = record { unique = λ k. omega arith; counted = λ s. refl; positive = λ s keys h. cc }

  pub unique_insert :
      (k : ℕ) (r : BlockedReason I) (m : List (ℕ × BlockedReason I))
      → ((j : ℕ) → entries j m ≤ 1)
      → (j : ℕ) → entries j (insert_entry ⦃o = nat_ord⦄ k r m) ≤ 1
  unfolding insert_entry
  unique_insert k r m h j = ground (arith, entries_removed k m, entries-without k j m, h j)

  pub blocked_on-insert :
      (s k : ℕ) (r : BlockedReason I) (m : List (ℕ × BlockedReason I))
      → lookup ⦃o = nat_ord⦄ k m ≡ none
      → blocked_on s (insert_entry ⦃o = nat_ord⦄ k r m) ≡ waits s r + blocked_on s m
  unfolding insert_entry
  blocked_on-insert s k r m h = rw (without_absent k m (entries_of_none k m h)) refl

  -- When a channel that is free starts to wait for a step to be saturated again, the numbers of blocked
  -- channels stay right.
  pub start_repeat_step-Counted :
      (self : ChannelStatuses I) (channel step_id time : ℕ)
      → Counted self
      → lookup ⦃o = nat_ord⦄ channel self.blocked_caller_channels ≡ none
      → Counted (Channels.start_repeat_step channel step_id time self)
  unfolding Channels.start_repeat_step Channels.occupy
  start_repeat_step-Counted self channel step_id time inv is_free = record {
    unique =
        unique_insert channel (record { poll_time = time; inner = repeat_step step_id })
          self.blocked_caller_channels inv.unique;
    counted = λ s. ground (
      arith,
      blocked_on-insert s channel (record { poll_time = time; inner = repeat_step step_id })
          self.blocked_caller_channels is_free,
      lookup-insert_entry ⦃o = nat_ord⦄ step_id
          (Channels.one_more (lookup ⦃o = nat_ord⦄ step_id self.blocked_repeat_step_wakers))
          self.blocked_repeat_step_wakers s,
      inv.counted s,
    );
    positive = λ s keys h. ground (
      arith,
      lookup-insert_entry ⦃o = nat_ord⦄ step_id
          (Channels.one_more (lookup ⦃o = nat_ord⦄ step_id self.blocked_repeat_step_wakers))
          self.blocked_repeat_step_wakers s,
      inv.positive s keys,
    );
  }

  -- A channel is abandoned that waits for no step to be saturated again.
  pub vacate-Counted :
      (self : ChannelStatuses I) (channel : ℕ) (r : BlockedReason I)
      → Counted self
      → lookup ⦃o = nat_ord⦄ channel self.blocked_caller_channels ≡ some r
      → ((s : ℕ) → waits s r ≡ 0)
      → Counted (Channels.vacate channel self)
  unfolding Channels.vacate
  vacate-Counted self channel r inv found idle =
      let m = self.blocked_caller_channels in
      record {
        unique = λ k. omega (arith, entries-without channel k m, inv.unique k);
        counted = λ s. omega (
          arith,
          blocked_on_least s channel m r (inv.unique channel) found,
          idle s,
          inv.counted s,
        );
        positive = inv.positive;
      }

  -- A channel is abandoned that waits for a step.
  pub abandon_repeat-Counted :
      (self : ChannelStatuses I) (channel step_id time n : ℕ) (keys left : List ℕ)
      → Counted self
      → (lookup ⦃o = nat_ord⦄ channel self.blocked_caller_channels
          ≡ some (record { poll_time = time; inner = repeat_step step_id }))
      → lookup ⦃o = nat_ord⦄ step_id self.blocked_repeat_step_wakers ≡ some (n, keys)
      → Counted (Channels.abandon_repeat channel step_id (n, left) self)
  unfolding Channels.abandon_repeat Channels.vacate
  abandon_repeat-Counted self channel step_id time n keys left inv found wakers =
      let m = self.blocked_caller_channels in
      let w = self.blocked_repeat_step_wakers in
      let r : BlockedReason I = record { poll_time = time; inner = repeat_step step_id } in
      record {
        unique = λ k. omega (arith, entries-without channel k m, inv.unique k);
        counted = λ s. ground (
          arith,
          blocked_on_least s channel m r (inv.unique channel) found,
          lookup-without ⦃o = nat_ord⦄ step_id w s,
          lookup-insert_entry ⦃o = nat_ord⦄ step_id (n - 1, left) w s,
          inv.counted s,
        );
        positive = λ s ks h. ground (
          arith,
          lookup-without ⦃o = nat_ord⦄ step_id w s,
          lookup-insert_entry ⦃o = nat_ord⦄ step_id (n - 1, left) w s,
          inv.positive s ks,
          inv.positive s keys,
          inv.positive s left,
        );
      }

  -- The wakers of the step that a channel waits for are there.
  pub wakers_of :
      (self : ChannelStatuses I) (channel step_id time : ℕ)
      → Counted self
      → (lookup ⦃o = nat_ord⦄ channel self.blocked_caller_channels
          ≡ some (record { poll_time = time; inner = repeat_step step_id }))
      → (n : ℕ) × (keys : List ℕ) × (lookup ⦃o = nat_ord⦄ step_id self.blocked_repeat_step_wakers
          ≡ some (n, keys))
  wakers_of self channel step_id time inv found =
      elim (Option-cases (lookup ⦃o = nat_ord⦄ step_id self.blocked_repeat_step_wakers)) [
        | inl lost ↦ absurd (
            ground (
              arith,
              lost,
              inv.counted step_id,
              blocked_on_least step_id channel self.blocked_caller_channels
                  (record { poll_time = time; inner = repeat_step step_id }) (inv.unique channel)
                  found,
            ))
        | inr ((n, keys), e) ↦ (n, keys, e)
      ]
