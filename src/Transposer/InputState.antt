-- ===== src/Transposer/InputState.antt =====
-- transposer/src/single_input_state.rs: the state of an input, which handlers wait for and which is set
-- once.
pub mod Sends
use cozal.Prelude.{
  ℕ, ◌≡◌, refl, sym, ◌∙◌, ap, Option, some, none, ◌⊎◌, inl, inr, List, [], ◌∷◌, ◌++◌, map,
}

-- `SingleInputStateInner`; a `Sender` is its number.
pub data SingleInputState (State : Type 0) : Type 0 where
  empty : SingleInputState State
  requested : List ℕ → SingleInputState State
  full : State → SingleInputState State

-- The calls of its two methods.
pub data Call (State : Type 0) : Type 0 where
  get : ℕ → Call State
  put : State → Call State

module _ {State : Type 0} where
  unfoldable pub new : SingleInputState State
  new = empty

  -- A state that is sent, with its sender.
  abbrev pub send_all : State → List ℕ → List (ℕ × State)
  send_all state [] = []
  send_all state (send ∷ senders) = (send, state) ∷ send_all state senders

  -- `get_input_state`, with the sender that it makes: what is sent at once.
  unfoldable pub get_input_state :
      ℕ → SingleInputState State → List (ℕ × State) × SingleInputState State
  get_input_state send empty = ([], requested (send ∷ []))
  get_input_state send (requested senders) = ([], requested (senders ++ send ∷ []))
  get_input_state send (full input_state) = ((send, input_state) ∷ [], full input_state)

  -- `Err` gives the state back.
  unfoldable pub set_state :
      State
      → SingleInputState State
      → (State ⊎ Unit {0}) × List (ℕ × State) × SingleInputState State
  set_state state empty = (inr tt, [], full state)
  set_state state (requested senders) = (inr tt, send_all state senders, full state)
  set_state state (full s) = (inl state, [], full s)

  -- The calls in their order, and what they send.
  unfoldable pub run :
      List (Call State) → SingleInputState State → List (ℕ × State) × SingleInputState State
  unfolding get_input_state set_state
  run [] self = ([], self)
  run (get send ∷ calls) self =
      let now = get_input_state send self in
      let later = run calls now.1 in (now.0 ++ later.0, later.1)
  run (put state ∷ calls) self =
      let now = set_state state self in let later = run calls now.2 in (now.1 ++ later.0, later.1)
