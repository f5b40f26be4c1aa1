-- ===== src/Tests/Inquiries.antt =====
-- transposer/src/single_input_state.rs on small values.
use cozal.Prelude.{ℕ, ◌≡◌, [], ◌∷◌}
use cozal.Transposer.InputState.{get, put, run, new}
use cozal.Transposer.InputState.Sends.{run-sends}

-- Two handlers wait for the state 7, and a third asks when the state 8 has been refused.
run-sends_example :
    (run {State = ℕ} (get 1 ∷ get 2 ∷ put 7 ∷ put 8 ∷ get 3 ∷ []) new).0
    ≡ (1, 7) ∷ (2, 7) ∷ (3, 7) ∷ []
run-sends_example = run-sends {State = ℕ} (get 1 ∷ get 2 ∷ put 7 ∷ put 8 ∷ get 3 ∷ [])
