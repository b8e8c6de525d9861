-- ===== src/Fsm/Tests.antt =====
-- A chart of one row.
use dread.Base.{◌≡◌, false, none, some, [], ◌∷◌}
use dread.Fsm.{Chart, dispatch, new}
use dread.Fsm.Idle.{dispatch_idle}

abbrev blink_row : Chart
blink_row = record {
  state = 0;
  transition = record { signal = 1; stid = 1; guard = none; action = some 0 } ∷ [];
}

dispatch_idle_example :
    dispatch
      (λ g m s. false)
      (λ a m. m)
      (record { signal = 0; stid = 0; guard = none; action = none })
      1
      (new 0 (blink_row ∷ []) 1)
    ≡ new 0 (blink_row ∷ []) 1
dispatch_idle_example =
    dispatch_idle (λ g m s. false) (λ a m. m)
      (record { signal = 0; stid = 0; guard = none; action = none }) 1 (new 0 (blink_row ∷ []) 1)
