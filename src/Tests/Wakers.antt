-- ===== src/Tests/Wakers.antt =====
-- util/src/stack_waker.rs with three keys, two of which have the same waker.
use cozal.Prelude.{ℕ, ◌≡◌, List, [], ◌∷◌}
use cozal.Util.StackWaker.{Waker, drained, wake}
use cozal.Util.StackWaker.Wakes.{contains, Ascends, wake_lem}

abbrev first : Waker
first = record { data_address = 40; vtable_address = 8 }

abbrev second : Waker
second = record { data_address = 16; vtable_address = 8 }

abbrev registered : List (ℕ × Waker)
registered = (0, first) ∷ (1, second) ∷ (2, first) ∷ []

wake_lem_example :
    ((w : Waker) → contains w (wake registered).0 ≡ contains w (drained registered))
    × Ascends (wake registered).0
    × ((wake registered).1 ≡ [])
wake_lem_example = wake_lem registered
