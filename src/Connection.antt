-- ===== src/Connection.antt =====
-- Application/ConnectionHandler: a queue of four signals in front of a state machine.
pub mod Queue
mod Tests
use dread.Base.{
  ℕ, ◌+◌, ◌-◌, ◌%◌, Bool, true, false, Option, none, some, List, [], ◌∷◌, ◌==◌, ◌!=◌, ltb, ◌||◌, u8,
  if◌then◌else◌, get_elem?, set,
}
use dread.Fsm.{Machine, State, Transition, dispatch, new}

-- `SIGNAL_END`
abbrev pub signal_end : ℕ
signal_end = 2

pub record ConnectionHandler : Type 0 where
  pub machine : Machine
  pub buff : List ℕ
  pub hd : ℕ
  pub tl : ℕ

-- The constructor: a machine with no states.
unfoldable pub new_handler : ConnectionHandler
unfolding new
new_handler = record { machine = new 0 [] 0; buff = 0 ∷ 0 ∷ 0 ∷ 0 ∷ []; hd = 0; tl = 0 }

-- `(tl + 1) == hd` compares as an `int`, so that it does not wrap.
unfoldable pub send_signal : ConnectionHandler → ℕ → ConnectionHandler × Bool
send_signal c signal =
    if (c.tl + 1 == c.hd) || ltb signal_end signal
    then (c, false)
    else (let tl' = (c.tl + 1) % 4 in (record c { tl = tl'; buff = set c.buff tl' signal }, true))

-- `(--hd) ? hd : sizeof(buff) - 1` in `uint8_t`.
abbrev pub step_back : ℕ → ℕ
step_back hd = let d = u8 (hd + 255) in if d != 0 then d else 3

module _ (run_guard : ℕ → Machine → State → Bool) (run_action : ℕ → Machine → Machine) where
  abbrev handle : Transition → ConnectionHandler → Option ℕ → Option ConnectionHandler
  handle garbage c none = none
  handle garbage c (some signal) = some (record c {
    machine = dispatch run_guard run_action garbage signal c.machine;
    hd = step_back c.hd;
  })

  -- `none` is a read outside of `buff`.
  unfoldable pub handle_connection_status :
      Transition → ConnectionHandler → Option ConnectionHandler
  handle_connection_status garbage c =
      if c.tl == c.hd then some c else handle garbage c (get_elem? c.buff c.hd)

-- The body of `listenToModem` is empty.
abbrev pub listen_to_modem : ConnectionHandler → ConnectionHandler
listen_to_modem c = c
