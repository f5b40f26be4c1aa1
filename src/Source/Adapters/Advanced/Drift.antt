-- ===== src/Source/Adapters/Advanced/Drift.antt =====
-- source/src/adapters/duplicate/advanced.rs: the count of the times drifts from the duplicates.
use cozal.Prelude.{ℕ, ◌≡◌, ◌<◌, none, some, [], ◌∷◌, ok, arith}
use cozal.Transposer.Time.{nat_ord, nat_cmp_refl}
use cozal.Transposer.Storage.{lookup, insert_entry, without, least}
use cozal.Source.Adapters.Advanced
use cozal.Source.Adapters.Advanced.{
  Advanced, option_ord, register_new_duplicate, advance, increment_time, decrement_time,
  current_aggregate_advancement,
}

-- The only duplicate advances to a time and then to a later one. The first time is told, and stays what
-- is told: the second is not.
pub advance-advance :
    (index time later : ℕ)
    → time < later
    → (a b : Advanced) × (advance time index (register_new_duplicate index Advanced.new).1
        ≡ ok (some time, a))
      × (advance later index a ≡ ok (none, b))
      × (current_aggregate_advancement b ≡ some time)
unfolding register_new_duplicate advance increment_time decrement_time current_aggregate_advancement
    lookup insert_entry least without
advance-advance index time later h = (
  record { time_count = (some time, 1) ∷ []; index_map = (index, none) ∷ [] },
  record { time_count = (some later, 1) ∷ (some time, 1) ∷ []; index_map = (index, none) ∷ [] },
  ground (arith, nat_cmp_refl index, nat_cmp_refl time, h),
  ground (arith, nat_cmp_refl index, nat_cmp_refl time, h),
  ground (arith, nat_cmp_refl index, nat_cmp_refl time, h),
)
