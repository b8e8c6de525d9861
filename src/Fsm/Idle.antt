-- ===== src/Fsm/Idle.antt =====
-- What a signal does to the state machine.
use dread.Base.{ℕ, ◌≡◌, Bool, arith}
use dread.Fsm.{Machine, State, Transition, get_state, dispatch, no_state}

get_state-id : (m : Machine) (s : ℕ) → (get_state m s).id ≡ no_state
unfolding get_state
get_state-id m s = ground arith

-- For every chart, guards, actions and values left in an unassigned transition, no signal changes the
-- machine or runs an action: `get_state` never finds a state.
pub dispatch_idle :
    (run_guard : ℕ → Machine → State → Bool) (run_action : ℕ → Machine → Machine)
    (garbage : Transition) (signal : ℕ) (m : Machine)
    → dispatch run_guard run_action garbage signal m ≡ m
unfolding dispatch
dispatch_idle run_guard run_action garbage signal m = rw get_state-id
