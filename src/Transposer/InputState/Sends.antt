-- ===== src/Transposer/InputState/Sends.antt =====
-- transposer/src/single_input_state.rs: who is sent the state.
use cozal.Prelude.{ℕ, ◌≡◌, refl, sym, ◌∙◌, ap, Option, some, none, List, [], ◌∷◌, ◌++◌}
use mathlib.Core.List.{append_assoc}
use cozal.Transposer.InputState.{requested, full, Call, get, put, send_all, new, run}

module _ {State : Type 0} where
  -- The senders of the calls, and the first state that is set.
  abbrev pub senders_of : List (Call State) → List ℕ
  senders_of [] = []
  senders_of (get send ∷ calls) = send ∷ senders_of calls
  senders_of (put _ ∷ calls) = senders_of calls

  abbrev pub first_state : List (Call State) → Option State
  first_state [] = none
  first_state (get _ ∷ calls) = first_state calls
  first_state (put state ∷ calls) = some state

  abbrev pub send_first : Option State → List ℕ → List (ℕ × State)
  send_first none senders = []
  send_first (some state) senders = send_all state senders

  send_all-append :
      (state : State) (xs ys : List ℕ)
      → send_all state (xs ++ ys) ≡ send_all state xs ++ send_all state ys
  send_all-append state [] ys = refl
  send_all-append state (x ∷ xs) ys = ap (λ zs. (x, state) ∷ zs) (send_all-append state xs ys)

  run-full :
      (calls : List (Call State)) (s : State)
      → (run calls (full s)).0 ≡ send_all s (senders_of calls)
  unfolding run
  run-full [] s = refl
  run-full (get send ∷ calls) s = ap (λ ws. (send, s) ∷ ws) (run-full calls s)
  run-full (put state ∷ calls) s = run-full calls s

  run-requested :
      (calls : List (Call State)) (waiting : List ℕ)
      → (run calls (requested waiting)).0
        ≡ send_first (first_state calls) (waiting ++ senders_of calls)
  unfolding run
  run-requested [] waiting = refl
  run-requested (get send ∷ calls) waiting =
      run-requested calls (waiting ++ send ∷ [])
      ∙ ap (send_first (first_state calls)) (append_assoc waiting (send ∷ []) (senders_of calls))
  run-requested (put state ∷ calls) waiting =
      ap (λ ws. send_all state waiting ++ ws) (run-full calls state)
      ∙ sym (send_all-append state waiting (senders_of calls))

  -- Whatever the order of the calls, each sender is sent the first state that is set, once, and in the
  -- order of the requests; while none is set nothing is sent.
  pub run-sends :
      (calls : List (Call State))
      → (run calls new).0 ≡ send_first (first_state calls) (senders_of calls)
  unfolding run new
  run-sends [] = refl
  run-sends (get send ∷ calls) = run-requested calls (send ∷ [])
  run-sends (put state ∷ calls) = run-full calls state
