-- ===== src/Bus/Order.antt =====
-- What the bus drivers do to the pins and the port, in order.
use dread.Base.{
  ℕ, zero, suc, ◌+◌, ◌/◌, ◌%◌, ◌<◌, ◌≡◌, ◌≢◌, refl, sym, ap, ◌∙◌, true, none, some, List, [], ◌∷◌,
  ◌++◌, append_assoc, bit_and, u8, arith, ==_true, ==_false,
}
use native.Mathlib.Nat.{zero-add}
use dread.Hardware.{World, pin_set, digital_write}
use dread.Hardware.Output.{write_each, bytes_to, trace-write_each}
use dread.Bus.{Rs485, wait_sent, write_buffer, wait_full, read_sc16is}

wait_sent-ends :
    (b : Rs485) (k fuel n : ℕ) (ucsr0a : ℕ → ℕ)
    → k < fuel
    → ucsr0a (n + k) / 64 % 2 ≢ 0
    → wait_sent b fuel ucsr0a n ≡ true
unfolding wait_sent
wait_sent-ends b k zero n ucsr0a l h = absurd (omega arith)
wait_sent-ends b zero (suc fuel) n ucsr0a l h =
    let e : n + 0 ≡ n = omega arith in rw (==_false (rw e at h))
wait_sent-ends b (suc k) (suc fuel) n ucsr0a l h =
    let e : n + suc k ≡ n + 1 + k = omega arith in
    ground (arith, wait_sent-ends b k fuel (n + 1) ucsr0a (omega arith) (rw e at h))

-- If the serial driver reports its last byte sent within the fuel, the buffer's `write` returns, and
-- what it did is: the pin to sending, the bytes in order, the pin back to receiving.
pub write_buffer-trace :
    (b : Rs485) (fuel k : ℕ) (ucsr0a : ℕ → ℕ) (bytes : List ℕ) (w : World)
    → k < fuel
    → ucsr0a k / 64 % 2 ≢ 0
    → (w' : World) × (write_buffer b fuel ucsr0a bytes w ≡ some w')
      × (w'.trace
          ≡ (w.trace ++ (pin_set b.write_pin 1 ∷ bytes_to b.port bytes))
            ++ (pin_set b.write_pin 0 ∷ []))
unfolding write_buffer
write_buffer-trace b fuel k ucsr0a bytes w l h = (
  digital_write b.write_pin 0 (write_each b.port bytes (digital_write b.write_pin 1 w)),
  rw (wait_sent-ends b k fuel 0 ucsr0a l (rw zero-add h)),
  ap (λ l. l ++ (pin_set b.write_pin 0 ∷ []))
      (trace-write_each b.port bytes (digital_write b.write_pin 1 w) ∙ append_assoc w.trace _ _),
)

-- The `write` of one byte to the SC16IS740 waits while the transmitter is empty: as long as the device
-- reports that, no fuel is enough, and the call does not return.
pub wait_full-stuck :
    (ss_pin fuel : ℕ) (w : World)
    → ((n : ℕ) → bit_and (u8 (w.replies n)) 0x20 ≡ 0x20)
    → wait_full ss_pin fuel w ≡ none
unfolding wait_full read_sc16is
wait_full-stuck ss_pin zero w h = refl
wait_full-stuck ss_pin (suc fuel) w h =
    rw (==_true (sym (h (w.transfers + 1)))) (wait_full-stuck ss_pin fuel _ h)
