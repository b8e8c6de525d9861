-- ===== src/Bus.antt =====
-- Modules/RS485: the two drivers of the bus, RS485.cpp over a serial port and SC16IS740.cpp over SPI.
-- Readings of the serial status register `UCSR0A` are an argument; waiting takes fuel, and `none` is
-- fuel that ran out.
pub mod Order
mod Tests
use dread.Base.{
  ℕ, zero, suc, ◌+◌, ◌*◌, ◌/◌, ◌%◌, Bool, true, false, Option, none, some, List, [], ◌∷◌, ◌==◌,
  ◌!=◌, if◌then◌else◌, bit_and, bit_or,
}
use dread.Hardware.{
  World, Port, read, available, write, digital_write, pin_mode, delay, delay_us, transfer,
}
use dread.Hardware.Output.{write_each}

pub record Rs485 : Type 0 where
  pub write_pin : ℕ
  pub port : Port

module _ (b : Rs485) where
  unfoldable pub init : World → World
  init w = digital_write b.write_pin 0 (pin_mode b.write_pin 1 w)

  -- `while (!(UCSR0A & (1 << TXC0)))`: the readings from the n-th on; TXC0 is bit 6.
  unfoldable pub wait_sent : ℕ → (ℕ → ℕ) → ℕ → Bool
  wait_sent zero ucsr0a n = false
  wait_sent (suc fuel) ucsr0a n =
      let again = wait_sent fuel ucsr0a (n + 1) in if ucsr0a n / 64 % 2 == 0 then again else true

  unfoldable pub write_buffer : ℕ → (ℕ → ℕ) → List ℕ → World → Option World
  write_buffer fuel ucsr0a bytes w =
      let w1 = write_each b.port bytes (digital_write b.write_pin 1 w) in
      if wait_sent fuel ucsr0a 0 then some (digital_write b.write_pin 0 w1) else none

  unfoldable pub read_byte : World → ℕ × World
  read_byte w = read b.port (digital_write b.write_pin 0 w)

  unfoldable pub write_byte : ℕ → World → World
  write_byte c w = write b.port c (digital_write b.write_pin 1 w)

  unfoldable pub bus_available : World → ℕ × World
  bus_available w = available b.port w

abbrev pub rhr : ℕ
rhr = 0x00

abbrev pub thr : ℕ
thr = 0x00

abbrev pub fcr : ℕ
fcr = 0x10

abbrev pub lcr : ℕ
lcr = 0x18

abbrev pub mcr : ℕ
mcr = 0x20

abbrev pub lsr : ℕ
lsr = 0x28

abbrev pub rxlvl : ℕ
rxlvl = 0x48

abbrev pub dll : ℕ
dll = 0x00

abbrev pub dlh : ℕ
dlh = 0x08

abbrev pub efr : ℕ
efr = 0x10

-- `SC16IS740`, by its select pin.
module _ (ss_pin : ℕ) where
  unfoldable pub write_sc16is : ℕ → ℕ → World → World
  write_sc16is add val w =
      let w1 = digital_write ss_pin 0 w in
      digital_write ss_pin 1 (transfer val (transfer add w1).1).1

  unfoldable pub read_sc16is : ℕ → World → ℕ × World
  read_sc16is add w =
      let w1 = (transfer (bit_or add 0x80) (digital_write ss_pin 0 w)).1 in
      let (byte, w2) = transfer 0 w1 in (byte, digital_write ss_pin 1 w2)

  unfoldable pub sc_init : ℕ → World → World
  sc_init xtal_freq w =
      let w1 = write_sc16is lcr 0x80 (pin_mode ss_pin 1 w) in
      let w2 = write_sc16is dlh 0x00 (write_sc16is dll xtal_freq w1) in
      let w3 = write_sc16is efr 0x10 (write_sc16is lcr 0xBF w2) in
      let w4 = write_sc16is fcr 0x06 (write_sc16is lcr 0x03 w3) in
      write_sc16is mcr 0x02 (write_sc16is fcr 0x01 (delay 500 w4))

  unfoldable pub sc_flush : World → World
  sc_flush w = write_sc16is fcr 0x01 (write_sc16is fcr 0x06 w)

  -- `none` is the -1 of the source.
  unfoldable pub sc_read : World → Option ℕ × World
  sc_read w =
      let (status, w1) = read_sc16is lsr w in
      let (byte, w2) = read_sc16is rhr w1 in
      if bit_and status 0x01 == 1 then (some byte, w2) else (none, w1)

  unfoldable pub transfer_each : List ℕ → World → World
  transfer_each [] w = w
  transfer_each (b ∷ bs) w = transfer_each bs (transfer b w).1

  -- `do … while (length != 0x20)`: until bit 5 of the line status is set.
  unfoldable pub wait_empty : ℕ → World → Option World
  wait_empty zero w = none
  wait_empty (suc fuel) w =
      let (status, w1) = read_sc16is lsr w in
      let again = wait_empty fuel w1 in if bit_and status 0x20 != 0x20 then again else some w1

  abbrev pub receive_again : Option World → Option World
  receive_again none = none
  receive_again (some w) = some (write_sc16is mcr 0x02 (delay_us 400 w))

  unfoldable pub sc_write_buffer : ℕ → List ℕ → World → Option World
  sc_write_buffer fuel bytes w =
      let w1 = (transfer thr (digital_write ss_pin 0 (write_sc16is mcr 0x00 w))).1 in
      receive_again (wait_empty fuel (digital_write ss_pin 1 (transfer_each bytes w1)))

  -- `while (0x20 == …)`: this loop waits while bit 5 is set.
  unfoldable pub wait_full : ℕ → World → Option World
  wait_full zero w = none
  wait_full (suc fuel) w =
      let (status, w1) = read_sc16is lsr w in
      let again = wait_full fuel w1 in if 0x20 == bit_and status 0x20 then again else some w1

  unfoldable pub sc_write_byte : ℕ → ℕ → World → Option World
  sc_write_byte fuel c w =
      let w1 = (transfer thr (digital_write ss_pin 0 (write_sc16is mcr 0x00 w))).1 in
      receive_again (wait_full fuel (digital_write ss_pin 1 (transfer c w1).1))

  unfoldable pub sc_available : World → ℕ × World
  sc_available w = read_sc16is rxlvl w
