-- ===== src/Source/Channels/Started.antt =====
-- source/src/sources/transposer/channels: what a poll of a channel leaves keeps the numbers of blocked
-- channels right.
use cozal.Prelude.{
  ℕ, ◌≡◌, refl, sym, subst, ok_inj, ◌∙◌, none, some, Option-cases, inl, inr, List, [], ◌∷◌, arith,
  ok,
}
use cozal.Transposer.Time.{nat_ord}
use cozal.Transposer.Storage.{lookup}
use cozal.Transposer.Storage.Std.{lookup-insert_entry}
use cozal.Source.Channels
use cozal.Source.Channels.{
  ChannelStatuses, BlockedReason, Inner, original_step, repeat_step, interpolation_future,
  CallerChannelStatus, free, interpolation, original, repeat,
}
use cozal.Source.Channels.Counts.{
  Counted, waits, entries, blocked_on, unique_insert, blocked_on-insert,
}

module _ {I : Type 0} where
  -- A channel that is free starts to wait for no repeated step.
  pub occupy-Counted :
      (self : ChannelStatuses I) (channel time : ℕ) (inner : Inner I)
      → Counted self
      → lookup ⦃o = nat_ord⦄ channel self.blocked_caller_channels ≡ none
      → ((s : ℕ) → waits s (record { poll_time = time; inner = inner }) ≡ 0)
      → Counted (Channels.occupy channel time inner self)
  unfolding Channels.occupy
  occupy-Counted self channel time inner inv is_free idle =
      let r : BlockedReason I = record { poll_time = time; inner = inner } in
      record {
        unique = unique_insert channel r self.blocked_caller_channels inv.unique;
        counted = λ s. omega (
          arith,
          blocked_on-insert s channel r self.blocked_caller_channels is_free,
          idle s,
          inv.counted s,
        );
        positive = inv.positive;
      }

  -- Other channels are registered for the wakers of a step.
  pub set_wakers-Counted :
      (self : ChannelStatuses I) (step_id n : ℕ) (keys left : List ℕ)
      → Counted self
      → lookup ⦃o = nat_ord⦄ step_id self.blocked_repeat_step_wakers ≡ some (n, keys)
      → Counted (Channels.set_wakers step_id (n, left) self)
  unfolding Channels.set_wakers
  set_wakers-Counted self step_id n keys left inv found =
      let w = self.blocked_repeat_step_wakers in
      record {
        unique = inv.unique;
        counted = λ s.
            ground (
              arith,
              found,
              lookup-insert_entry ⦃o = nat_ord⦄ step_id (n, left) w s,
              inv.counted s,
            );
        positive = λ s ks h. ground (
          arith,
          found,
          lookup-insert_entry ⦃o = nat_ord⦄ step_id (n, left) w s,
          inv.positive s ks,
          inv.positive s keys,
        );
      }

  update-entries :
      (channel k : ℕ) (i : I) (m : List (ℕ × BlockedReason I))
      → entries k (Channels.update_interpolation channel i m) ≡ entries k m
  unfolding Channels.update_interpolation
  update-entries channel k i [] = refl
  update-entries channel k i ((j, r) ∷ m) = ground (arith, update-entries channel k i m)

  update-blocked_on :
      (channel s time : ℕ) (i j : I) (m : List (ℕ × BlockedReason I))
      → (lookup ⦃o = nat_ord⦄ channel m
          ≡ some (record { poll_time = time; inner = interpolation_future j }))
      → blocked_on s (Channels.update_interpolation channel i m) ≡ blocked_on s m
  unfolding Channels.update_interpolation lookup
  update-blocked_on channel s time i j [] found = refl
  update-blocked_on channel s time i j ((k, r) ∷ m) found =
      ground (arith, found, update-blocked_on channel s time i j m)

  -- An interpolation is polled, and still pending.
  pub update_interpolation-Counted :
      (self : ChannelStatuses I) (channel time : ℕ) (i j : I)
      → Counted self
      → (lookup ⦃o = nat_ord⦄ channel self.blocked_caller_channels
          ≡ some (record { poll_time = time; inner = interpolation_future j }))
      → Counted (record self {
        blocked_caller_channels =
            Channels.update_interpolation channel i self.blocked_caller_channels;
      })
  update_interpolation-Counted self channel time i j inv found =
      let m = self.blocked_caller_channels in
      record {
        unique = λ k. omega (arith, update-entries channel k i m, inv.unique k);
        counted = λ s. inv.counted s ∙ sym (update-blocked_on channel s time i j m found);
        positive = inv.positive;
      }

  -- What the maps hold for a status.
  abbrev pub Holds : ℕ → ChannelStatuses I → CallerChannelStatus I → Type 0
  Holds channel self free = lookup ⦃o = nat_ord⦄ channel self.blocked_caller_channels ≡ none
  Holds channel self (interpolation t i) =
      lookup ⦃o = nat_ord⦄ channel self.blocked_caller_channels
      ≡ some (record { poll_time = t; inner = interpolation_future i })
  Holds channel self (original t) =
      lookup ⦃o = nat_ord⦄ channel self.blocked_caller_channels
      ≡ some (record { poll_time = t; inner = original_step })
  Holds channel self (repeat t step_id w) =
      (lookup ⦃o = nat_ord⦄ channel self.blocked_caller_channels
        ≡ some (record { poll_time = t; inner = repeat_step step_id }))
      × (lookup ⦃o = nat_ord⦄ step_id self.blocked_repeat_step_wakers ≡ some w)

  blocked_status :
      (self : ChannelStatuses I) (channel time : ℕ) (inner : Inner I)
      (status : CallerChannelStatus I)
      → (lookup ⦃o = nat_ord⦄ channel self.blocked_caller_channels
          ≡ some (record { poll_time = time; inner = inner }))
      → (Channels.status_of self.blocked_repeat_step_wakers
            (record { poll_time = time; inner = inner })
          ≡ ok status)
      → Holds channel self status
  blocked_status self channel time original_step status found h =
      subst (Holds channel self) (ok_inj (original time) status h) found
  blocked_status self channel time (interpolation_future i) status found h =
      subst (Holds channel self) (ok_inj (interpolation time i) status h) found
  blocked_status self channel time (repeat_step step_id) status found h =
      elim (Option-cases (lookup ⦃o = nat_ord⦄ step_id self.blocked_repeat_step_wakers)) [
        | inl lost ↦ absurd (ground (arith, rw (Channels.status_of, lost) at h))
        | inr (w, at_w) ↦
            subst (Holds channel self)
              (ok_inj (repeat time step_id w) status (rw (Channels.status_of, at_w) at h))
              (found, at_w)
      ]

  pub get_channel_status-Holds :
      (self : ChannelStatuses I) (channel : ℕ) (status : CallerChannelStatus I)
      → Channels.get_channel_status channel self ≡ ok status
      → Holds channel self status
  unfolding Channels.get_channel_status
  get_channel_status-Holds self channel status h =
      elim (Option-cases (lookup ⦃o = nat_ord⦄ channel self.blocked_caller_channels)) [
        | inl is_free ↦
            subst (Holds channel self)
              (ok_inj free status (rw (Channels.get_channel_status, is_free) at h)) is_free
        | inr (r, found) ↦
            blocked_status self channel r.poll_time r.inner status found
              (rw (Channels.get_channel_status, found) at h)
      ]
