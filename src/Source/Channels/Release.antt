-- ===== src/Source/Channels/Release.antt =====
-- source/src/sources/transposer/channels: a channel that is released is free, whatever it waited for.
use cozal.Prelude.{ℕ, ◌≡◌, ◌≢◌, refl, none, some, Option-cases, inl, inr, ok, arith}
use cozal.Transposer.Time.{nat_ord}
use cozal.Transposer.Storage.{lookup, without}
use cozal.Transposer.Storage.Std.{lookup-without}
use cozal.Source.Channels
use cozal.Source.Channels.{
  ChannelStatuses, BlockedReason, Inner, original_step, repeat_step, interpolation_future, free,
  interpolation, original, repeat, release_channel,
}
use cozal.Source.Channels.Counts.{Counted, vacate-Counted, abandon_repeat-Counted, wakers_of}

module _ {I : Type 0} where
  -- What a release leaves.
  record Released (self : ChannelStatuses I) (channel : ℕ) (self' : ChannelStatuses I)
      : Type 0 where
    counts : Counted self'
    is_free : lookup ⦃o = nat_ord⦄ channel self'.blocked_caller_channels ≡ none
    others :
        (j : ℕ)
        → j ≢ channel
        → lookup ⦃o = nat_ord⦄ j self'.blocked_caller_channels
          ≡ lookup ⦃o = nat_ord⦄ j self.blocked_caller_channels

  vacated :
      (self self' : ChannelStatuses I) (channel : ℕ)
      → Counted self'
      → (self'.blocked_caller_channels ≡ without ⦃o = nat_ord⦄ channel self.blocked_caller_channels)
      → Released self channel self'
  vacated self self' channel inv e =
      let m = self.blocked_caller_channels in
      record {
        counts = inv;
        is_free = rw e (ground (arith, lookup-without ⦃o = nat_ord⦄ channel m channel));
        others = λ j apart. rw e (ground (arith, lookup-without ⦃o = nat_ord⦄ channel m j, apart));
      }

  release_blocked :
      (self : ChannelStatuses I) (channel time : ℕ) (inner : Inner I)
      → Counted self
      → (lookup ⦃o = nat_ord⦄ channel self.blocked_caller_channels
          ≡ some (record { poll_time = time; inner = inner }))
      → (self' : ChannelStatuses I) × (release_channel channel self ≡ ok self')
        × Released self channel self'
  unfolding release_channel Channels.get_channel_status Channels.vacate Channels.abandon_repeat
  release_blocked self channel time original_step inv found = (
    Channels.vacate channel self,
    rw (release_channel, Channels.get_channel_status, found) refl,
    vacated self (Channels.vacate channel self) channel
        (vacate-Counted self channel (record { poll_time = time; inner = original_step }) inv found
          (λ s. refl))
        refl,
  )
  release_blocked self channel time (interpolation_future i) inv found = (
    Channels.vacate channel self,
    rw (release_channel, Channels.get_channel_status, found) refl,
    vacated self (Channels.vacate channel self) channel
        (vacate-Counted self channel (record { poll_time = time; inner = interpolation_future i })
          inv found (λ s. refl))
        refl,
  )
  release_blocked self channel time (repeat_step step_id) inv found =
      let (n, keys, wakers) = wakers_of self channel step_id time inv found in
      (
        Channels.abandon_repeat channel step_id (n, keys) self,
        rw (release_channel, Channels.get_channel_status, found, Channels.status_of, wakers) refl,
        vacated self (Channels.abandon_repeat channel step_id (n, keys) self) channel
            (abandon_repeat-Counted self channel step_id time n keys keys inv found wakers) refl,
      )

  release_free :
      (self : ChannelStatuses I) (channel : ℕ)
      → Counted self
      → lookup ⦃o = nat_ord⦄ channel self.blocked_caller_channels ≡ none
      → (self' : ChannelStatuses I) × (release_channel channel self ≡ ok self')
        × Released self channel self'
  unfolding release_channel Channels.get_channel_status
  release_free self channel inv found = (
    self,
    rw (release_channel, Channels.get_channel_status, found) refl,
    record { counts = inv; is_free = found; others = λ j apart. refl },
  )

  -- Where the numbers of blocked channels are right, `release_channel` returns: they are right again,
  -- the channel is free, and the other channels wait for what they waited for.
  pub release_channel_total :
      (self : ChannelStatuses I) (channel : ℕ)
      → Counted self
      → (self' : ChannelStatuses I) × (release_channel channel self ≡ ok self')
        × Counted self'
        × (lookup ⦃o = nat_ord⦄ channel self'.blocked_caller_channels ≡ none)
        × ((j : ℕ)
            → j ≢ channel
            → lookup ⦃o = nat_ord⦄ j self'.blocked_caller_channels
              ≡ lookup ⦃o = nat_ord⦄ j self.blocked_caller_channels)
  release_channel_total self channel inv =
      let released : (self' : ChannelStatuses I) × (release_channel channel self ≡ ok self')
          × Released self channel self' =
        elim (Option-cases (lookup ⦃o = nat_ord⦄ channel self.blocked_caller_channels)) [
          | inl found ↦ release_free self channel inv found
          | inr (r, found) ↦ release_blocked self channel r.poll_time r.inner inv found
        ] in
      let (self', e, left) = released in (self', e, left.counts, left.is_free, left.others)
