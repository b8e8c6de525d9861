-- ===== src/Connection/Tests.antt =====
-- The signal queue at concrete states.
use dread.Base.{◌≡◌, refl, true, none, some, [], ◌∷◌, arith}
use dread.Fsm.{Transition, new}
use dread.Connection.{ConnectionHandler, new_handler, send_signal, handle_connection_status}
use dread.Connection.Queue.{handle_connection_status-outside}

abbrev one_waiting : ConnectionHandler
one_waiting = record { machine = new 0 [] 0; buff = 0 ∷ 1 ∷ 0 ∷ 0 ∷ []; hd = 0; tl = 1 }

one_waiting_lem : send_signal new_handler 1 ≡ (one_waiting, true)
unfolding send_signal new_handler
one_waiting_lem = refl

abbrev unset : Transition
unset = record { signal = 0; stid = 0; guard = none; action = none }

handle_connection_status-outside_example :
    (handle_connection_status (λ g m s. true) (λ a m. m) unset one_waiting
      ≡ some (record one_waiting { hd = 255 }))
    × (handle_connection_status (λ g m s. true) (λ a m. m) unset (record one_waiting { hd = 255 })
        ≡ none)
handle_connection_status-outside_example =
    handle_connection_status-outside (λ g m s. true) (λ a m. m) unset one_waiting
      (record { size = refl; head_in = omega arith; tail_in = omega arith }) refl (omega arith)
