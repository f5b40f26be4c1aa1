-- ===== src/Tests/Metadata.antt =====
-- transposer/src/step/transposer_metadata.rs on two events, one of which can be expired.
use cozal.Prelude.{◌≡◌, refl, none, some, ◌≢◌, if◌then◌else◌, Ordering}
use cozal.Transposer.Time.{ScheduledTime, ExpireHandle, same, scheduled_ord, cmp_scheduled}
use cozal.Transposer.Storage.Std.{btree_map, hash_map}
use cozal.Transposer.Metadata
use cozal.Transposer.Metadata.{TransposerMetaData, ExpireResult, expired, invalid_or_used_handle}
use cozal.Transposer.Metadata.Sync.{
  Sync, new-Sync, schedule_event-Sync, schedule_event_expireable-Sync,
}
use cozal.Transposer.Metadata.Expire.{
  expire_event_total, expire-schedule_event_expireable, pop_first_event-some,
}
use cozal.Tests.Collatz.{maps}

abbrev early : ScheduledTime
early = record { time = 5; parent_index = 0; emission_index = 0 }

abbrev late : ScheduledTime
late = record { time = 7; parent_index = 0; emission_index = 1 }

abbrev start : TransposerMetaData maps
start = Metadata.schedule_event maps late tt (Metadata.new maps 0 0)

abbrev both : TransposerMetaData maps
both = (Metadata.schedule_event_expireable maps early tt start).1

start-Sync : Sync maps start
start-Sync = schedule_event-Sync maps (Metadata.new maps 0 0) (new-Sync maps 0 0) late tt

free : maps.schedules.get early start.schedule ≡ none
unfolding Metadata.schedule_event Metadata.new btree_map
free = refl

both-Sync : Sync maps both
both-Sync = schedule_event_expireable-Sync maps start start-Sync early tt free

popped : (Metadata.pop_first_event maps both).0 ≡ some (early, tt)
unfolding Metadata.schedule_event Metadata.new Metadata.schedule_event_expireable
    Metadata.pop_first_event btree_map hash_map
popped = refl

expire_event_total_example :
    (r : ExpireResult (Unit {0})) × (m' : TransposerMetaData maps) × (Metadata.expire_event maps 0
        both
      ≡ some (r, m'))
    × Sync maps m'
    × (Metadata.expire_event maps 0 m' ≡ some (invalid_or_used_handle, m'))
expire_event_total_example = expire_event_total maps both both-Sync 0

expire-schedule_event_expireable_example :
    let (h, m₁) = Metadata.schedule_event_expireable maps early tt start in
    (m₂ : TransposerMetaData maps) × (Metadata.expire_event maps h m₁ ≡ some (expired 5 tt, m₂))
    × ((u : ScheduledTime) → maps.schedules.get u m₂.schedule ≡ maps.schedules.get u start.schedule)
expire-schedule_event_expireable_example =
    expire-schedule_event_expireable maps start start-Sync early tt free

pop_first_event-some_example :
    let m' = (Metadata.pop_first_event maps both).1 in
    (maps.schedules.get early both.schedule ≡ some tt)
    × ((j : ScheduledTime) (w : Unit {0})
        → maps.schedules.get j both.schedule ≡ some w
        → cmp_scheduled j early ≢ Ordering.lt)
    × ((j : ScheduledTime)
        → maps.schedules.get j m'.schedule
          ≡ (if same early j then none else maps.schedules.get j both.schedule))
    × ((h : ExpireHandle)
        → maps.forwards.get h both.expire_handles_forward ≡ some early
        → Metadata.expire_event maps h m' ≡ some (invalid_or_used_handle, m'))
pop_first_event-some_example = pop_first_event-some maps both both-Sync early tt popped
