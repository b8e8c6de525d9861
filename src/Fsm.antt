-- ===== src/Fsm.antt =====
-- Support/FSM: FSM.h, FSM.cpp, FSMState.h and FSMState.cpp. What a `Transition` variable holds before
-- it is assigned is not determined by the code: it is the argument `garbage`.
pub mod Idle
mod Tests
use dread.Base.{
  ℕ, zero, suc, Bool, true, false, Option, none, some, List, [], ◌∷◌, ◌==◌, ◌!=◌, leb,
  if◌then◌else◌,
}

-- `NO_STATE`
abbrev pub no_state : ℕ
no_state = 255

-- Guards and actions by number; `NULL` is `none`.
pub record Transition : Type 0 where
  pub signal : ℕ
  pub stid : ℕ
  pub guard : Option ℕ
  pub action : Option ℕ

pub record State : Type 0 where
  pub id : ℕ
  pub transition : List Transition

-- A row of the chart, and the rows behind the pointer `chart`.
pub record Chart : Type 0 where
  pub state : ℕ
  pub transition : List Transition

pub record Machine : Type 0 where
  pub initial_state : ℕ
  pub nstates : ℕ
  pub current_state : ℕ
  pub chart : List Chart

-- The constructor.
unfoldable pub new : ℕ → List Chart → ℕ → Machine
new initial_state chart nstates = record {
  initial_state = initial_state;
  nstates = nstates;
  current_state = no_state;
  chart = chart;
}

-- `next_state`: the transition that the signal selects, and its target; the local `next` is unused.
next_state : ℕ → List Transition → Transition → Transition × ℕ
next_state signal [] out = (out, out.stid)
next_state signal (t ∷ ts) out =
    let rest = next_state signal ts out in if signal == t.signal then (t, t.stid) else rest

-- `chart->transition`, of the first row; with no row there the code reads through a bad pointer.
first_row : List Chart → List Transition
first_row [] = []
first_row (c ∷ cs) = c.transition

-- The loop looks at the first row only and changes nothing, and the state that is returned is always
-- `NO_STATE`.
get_state : Machine → ℕ → State
unfolding first_row
get_state m state =
    if leb m.nstates state
    then record { id = no_state; transition = [] }
    else record { id = no_state; transition = first_row m.chart }

-- The guards and the actions are functions outside of the class.
module _ (run_guard : ℕ → Machine → State → Bool) (run_action : ℕ → Machine → Machine) where
  acted : Option ℕ → Machine → Machine
  acted none m = m
  acted (some a) m = run_action a m

  -- A missing guard, and one that answers true, end the function.
  guarded : Option ℕ → Machine → State → Bool
  guarded none m s = true
  guarded (some g) m s = run_guard g m s

  take_transition : Transition → State → Machine → Machine
  unfolding acted guarded
  take_transition t next_st m =
      if guarded t.guard m next_st
      then m
      else acted t.action (record m { current_state = next_st.id })

  pub dispatch : Transition → ℕ → Machine → Machine
  dispatch garbage signal m =
      let (t, next) =
        if m.current_state != no_state
        then next_state signal (get_state m m.current_state).transition garbage
        else (garbage, m.initial_state) in
      let to_state = get_state m next in
      if to_state.id != no_state then take_transition t to_state m else m
