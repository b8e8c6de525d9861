-- ===== src/Bus/Tests.antt =====
-- Runs of the two bus drivers.
use dread.Base.{◌*◌, ◌≡◌, some, [], ◌∷◌, ◌++◌, arith}
use dread.Hardware.{World, pin_set}
use dread.Hardware.Output.{bytes_to}
use dread.Bus.{Rs485, write_buffer}
use dread.Bus.Order.{write_buffer-trace}

abbrev bus : Rs485
bus = record { write_pin = 4; port = 1 }

abbrev idle : World
idle = record {
  clock = λ n. n;
  arrivals = λ n p. [];
  replies = λ n. 0x20;
  ticks = 0;
  polls = 0;
  transfers = 0;
  rx = λ p. [];
  trace = [];
}

-- The last byte is out at the third reading of the status.
write_buffer-trace_example :
    (w' : World) × (write_buffer bus 5 (λ n. n * 32) (7 ∷ 300 ∷ []) idle ≡ some w')
    × (w'.trace ≡ ([] ++ (pin_set 4 1 ∷ bytes_to 1 (7 ∷ 300 ∷ []))) ++ (pin_set 4 0 ∷ []))
write_buffer-trace_example =
    write_buffer-trace bus 5 2 (λ n. n * 32) (7 ∷ 300 ∷ []) idle (omega arith) (λ e. omega arith)
