-- ===== src/Transposer/Backend.antt =====
-- What the metadata of a transposer is built on: the maps of its `StorageFamily`, and the random
-- number generator of the crate `rand_chacha`.
use cozal.Prelude.{ℕ}
use cozal.Transposer.Time.{ScheduledTime, ExpireHandle, scheduled_ord, nat_ord}
use cozal.Transposer.Storage.{OrdMapStorage, HashMapStorage}

pub record Backend (Scheduled : Type 0) : Type 1 where
  pub schedules : OrdMapStorage ScheduledTime scheduled_ord Scheduled
  pub backwards : OrdMapStorage ScheduledTime scheduled_ord ExpireHandle
  pub forwards : HashMapStorage ExpireHandle nat_ord ScheduledTime
  pub Rng : Type 0
  pub Seed : Type 0
  pub from_seed : Seed → Rng
  pub next_u64 : Rng → ℕ × Rng
