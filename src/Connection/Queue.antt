-- ===== src/Connection/Queue.antt =====
-- The signal queue of the connection handler.
use dread.Base.{
  ℕ, zero, suc, ◌+◌, ◌%◌, ◌<◌, ◌≤◌, ◌≡◌, ◌≢◌, ◌↔◌, refl, Bool, true, false, none, some, List, [],
  ◌∷◌, get_elem?, get_or, length, arith, ==_false, length-set, get_or-set_self, get_or-set_ne,
}
use dread.Fsm.{Machine, State, Transition}
use dread.Fsm.Idle.{dispatch_idle}
use dread.Connection.{ConnectionHandler, new_handler, send_signal, handle_connection_status}

-- The cursors stand in the buffer.
pub record InBuffer (c : ConnectionHandler) : Type 0 where
  pub size : length c.buff ≡ 4
  pub head_in : c.hd < 4
  pub tail_in : c.tl < 4

-- `sendSignal` accepts a signal exactly when it is known and the next place is not the head, by the
-- numbers of the places; then the signal stands at the new tail, no other place changes, and the
-- cursors stay in the buffer.
pub send_signal_lem :
    (c : ConnectionHandler) (signal : ℕ)
    → InBuffer c
    → (((send_signal c signal).1 ≡ true) ↔ ((signal ≤ 2) × (c.tl + 1 ≢ c.hd)))
      × ((send_signal c signal).1 ≡ true
          → let c' = (send_signal c signal).0 in
            (get_or c'.buff c'.tl 0 ≡ signal)
            × ((i : ℕ) → i ≢ c'.tl → get_or c'.buff i 0 ≡ get_or c.buff i 0)
            × (c'.hd ≡ c.hd)
            × InBuffer c')
      × ((send_signal c signal).1 ≡ false → (send_signal c signal).0 ≡ c)
unfolding send_signal
send_signal_lem c signal v = (
  ((λ h. (ground arith, ground arith)), λ (l, n). ground arith),
  λ h. (
    ground (arith, get_or-set_self c.buff ((c.tl + 1) % 4) signal 0),
    (λ i n. ground (arith, get_or-set_ne c.buff ((c.tl + 1) % 4) i signal 0)),
    ground arith,
    ground (arith, length-set c.buff ((c.tl + 1) % 4) signal),
  ),
  λ h. ground arith,
)

get_elem?-in : (xs : List ℕ) → length xs ≡ 4 → get_elem? xs 0 ≡ some (get_or xs 0 0)
get_elem?-in [] h = absurd (omega arith)
get_elem?-in (x ∷ xs) h = refl

get_elem?-out : (xs : List ℕ) (i : ℕ) → length xs ≤ i → get_elem? xs i ≡ none
get_elem?-out [] i h = refl
get_elem?-out (x ∷ xs) zero h = absurd (omega arith)
get_elem?-out (x ∷ xs) (suc i) h = get_elem?-out xs i (omega arith)

-- Once a signal waits behind the first place, the next call reads that place and steps its cursor back
-- to 255, and the call after that reads outside of the buffer.
pub handle_connection_status-outside :
    (run_guard : ℕ → Machine → State → Bool) (run_action : ℕ → Machine → Machine)
    (garbage : Transition) (c : ConnectionHandler)
    → InBuffer c
    → c.hd ≡ 0
    → c.tl ≢ 0
    → (handle_connection_status run_guard run_action garbage c ≡ some (record c { hd = 255 }))
      × (handle_connection_status run_guard run_action garbage (record c { hd = 255 }) ≡ none)
unfolding handle_connection_status
handle_connection_status-outside run_guard run_action garbage c v h t = (
  rw (h, ==_false t, get_elem?-in c.buff v.size, dispatch_idle),
  rw (
    ==_false (λ (e : c.tl ≡ 255). omega (arith, v.tail_in)),
    get_elem?-out c.buff 255 (omega (arith, v.size)),
  ),
)

-- A handler as it is constructed has no signal to handle.
pub handle_connection_status-new :
    (run_guard : ℕ → Machine → State → Bool) (run_action : ℕ → Machine → Machine)
    (garbage : Transition)
    → handle_connection_status run_guard run_action garbage new_handler ≡ some new_handler
unfolding handle_connection_status new_handler
handle_connection_status-new run_guard run_action garbage = refl
