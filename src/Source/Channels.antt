-- ===== src/Source/Channels.antt =====
-- source/src/sources/transposer/channels: what each channel of the caller waits for, and how many
-- channels wait for each step that is saturated again.
pub mod Started
pub mod Counts
pub mod Release
use cozal.Prelude.{
  ℕ, zero, suc, ◌+◌, ◌-◌, Option, none, some, List, [], ◌∷◌, ◌==◌, if◌then◌else◌, Outcome, ok,
  panic, ◌>>=◌,
}
use cozal.Transposer.Time.{nat_ord}
use cozal.Transposer.Storage.{lookup, without, insert_entry}

-- `CallerChannelBlockedReasonInner`, for the futures `I` of interpolations.
pub data Inner (I : Type 0) : Type 0 where
  original_step : Inner I
  repeat_step : ℕ → Inner I
  interpolation_future : I → Inner I

pub record BlockedReason (I : Type 0) : Type 0 where
  pub poll_time : ℕ
  pub inner : Inner I

-- A `Weak<StackWaker>` is the list of the channels registered with it; it is empty when the waker was
-- dropped or has just woken them.
pub record ChannelStatuses (I : Type 0) : Type 0 where
  pub blocked_caller_channels : List (ℕ × BlockedReason I)
  pub blocked_repeat_step_wakers : List (ℕ × (ℕ × List ℕ))

-- `CallerChannelStatus`. The entries of the maps that it borrows are found again by the channel; the
-- wakers of a repeated step are given.
pub data CallerChannelStatus (I : Type 0) : Type 0 where
  free : CallerChannelStatus I
  interpolation : ℕ → I → CallerChannelStatus I
  original : ℕ → CallerChannelStatus I
  repeat : ℕ → ℕ → ℕ × List ℕ → CallerChannelStatus I

abbrev pub one_more : Option (ℕ × List ℕ) → ℕ × List ℕ
one_more none = (1, [])
one_more (some (n, keys)) = (n + 1, keys)

module _ {I : Type 0} where
  unfoldable pub new : ChannelStatuses I
  new = record { blocked_caller_channels = []; blocked_repeat_step_wakers = [] }

  abbrev pub get_pinned_time : BlockedReason I → Option ℕ
  get_pinned_time r = elim (r.inner) [ interpolation_future _ ↦ none | _ ↦ some r.poll_time ]

  unfoldable pub get_pinned_times : List (ℕ × BlockedReason I) → List ℕ
  get_pinned_times [] = []
  get_pinned_times ((_, r) ∷ rest) = elim (get_pinned_time r) [
    | none ↦ get_pinned_times rest
    | some t ↦ t ∷ get_pinned_times rest
  ]

  -- The status of a channel with an entry; `wakers` is what the map of the wakers holds for a step.
  abbrev pub status_of : List (ℕ × (ℕ × List ℕ)) → BlockedReason I → Outcome (CallerChannelStatus I)
  status_of wakers r = elim (r.inner) [
    | original_step ↦ ok (original r.poll_time)
    | repeat_step step_id ↦ elim (lookup ⦃o = nat_ord⦄ step_id wakers) [
      | none ↦ panic
      | some w ↦ ok (repeat r.poll_time step_id w)
    ]
    | interpolation_future i ↦ ok (interpolation r.poll_time i)
  ]

  unfoldable pub get_channel_status : ℕ → ChannelStatuses I → Outcome (CallerChannelStatus I)
  unfolding lookup
  get_channel_status caller_channel self =
      elim (lookup ⦃o = nat_ord⦄ caller_channel self.blocked_caller_channels) [
        | none ↦ ok free
        | some r ↦ status_of self.blocked_repeat_step_wakers r
      ]

  -- `Free`: the entry is `occupy`ed.
  unfoldable pub occupy : ℕ → ℕ → Inner I → ChannelStatuses I → ChannelStatuses I
  unfolding insert_entry
  occupy channel poll_time inner self = record self {
    blocked_caller_channels =
        insert_entry ⦃o = nat_ord⦄ channel (record { poll_time = poll_time; inner = inner })
          self.blocked_caller_channels;
  }

  unfoldable pub start_interpolation : ℕ → I → ℕ → ChannelStatuses I → ChannelStatuses I
  unfolding occupy
  start_interpolation channel i poll_time self =
      occupy channel poll_time (interpolation_future i) self

  unfoldable pub start_original_step : ℕ → ℕ → ChannelStatuses I → ChannelStatuses I
  unfolding occupy
  start_original_step channel poll_time self = occupy channel poll_time original_step self

  unfoldable pub start_repeat_step : ℕ → ℕ → ℕ → ChannelStatuses I → ChannelStatuses I
  unfolding occupy insert_entry lookup
  start_repeat_step channel step_id poll_time self =
      let occupied = occupy channel poll_time (repeat_step step_id) self in
      record occupied {
        blocked_repeat_step_wakers =
            insert_entry ⦃o = nat_ord⦄ step_id
              (one_more (lookup ⦃o = nat_ord⦄ step_id self.blocked_repeat_step_wakers))
              self.blocked_repeat_step_wakers;
      }

  -- The entry of the channel is `vacate`d: `abandon` of an interpolation and of an original step.
  unfoldable pub vacate : ℕ → ChannelStatuses I → ChannelStatuses I
  unfolding without
  vacate channel self = record self {
    blocked_caller_channels = without ⦃o = nat_ord⦄ channel self.blocked_caller_channels;
  }

  -- `RepeatStepFuture::abandon`, which the end of its poll repeats: one channel less waits for the step.
  -- The channel that is abandoned is one of the `n`, so `n` is not 0.
  unfoldable pub abandon_repeat : ℕ → ℕ → ℕ × List ℕ → ChannelStatuses I → ChannelStatuses I
  unfolding without insert_entry vacate
  abandon_repeat channel step_id (n, keys) self =
      let vacated = vacate channel self in
      record vacated {
        blocked_repeat_step_wakers =
            if n == 1
            then without ⦃o = nat_ord⦄ step_id self.blocked_repeat_step_wakers
            else insert_entry ⦃o = nat_ord⦄ step_id (n - 1, keys) self.blocked_repeat_step_wakers;
      }

  -- The wakers of a step after a registration.
  unfoldable pub set_wakers : ℕ → ℕ × List ℕ → ChannelStatuses I → ChannelStatuses I
  unfolding insert_entry
  set_wakers step_id wakers self = record self {
    blocked_repeat_step_wakers =
        insert_entry ⦃o = nat_ord⦄ step_id wakers self.blocked_repeat_step_wakers;
  }

  -- The future of an interpolation after a poll of it, which `get_value_mut` gave.
  unfoldable pub update_interpolation :
      ℕ → I → List (ℕ × BlockedReason I) → List (ℕ × BlockedReason I)
  update_interpolation channel i [] = []
  update_interpolation channel i ((k, r) ∷ rest) =
      if k == channel
      then (k, record r { inner = interpolation_future i }) ∷ rest
      else (k, r) ∷ update_interpolation channel i rest

  -- `release_channel` of the source: whatever the channel waits for is abandoned.
  abbrev pub abandon : ℕ → CallerChannelStatus I → ChannelStatuses I → ChannelStatuses I
  abandon channel free self = self
  abandon channel (interpolation _ _) self = vacate channel self
  abandon channel (original _) self = vacate channel self
  abandon channel (repeat _ step_id wakers) self = abandon_repeat channel step_id wakers self

  unfoldable pub release_channel : ℕ → ChannelStatuses I → Outcome (ChannelStatuses I)
  release_channel channel self = do
    status ← get_channel_status channel self
    ok (abandon channel status self)
