-- ===== src/Hardware.antt =====
-- What the program's parts do to the outside, through Utilities/DreadSystem.h (pins, delays, the
-- clock), Drivers/SPI/SPI.h and the abstract class of Utilities/Print.h. The outside itself is not
-- code of the program: its behaviour is a `World`, which every function takes and returns, and a
-- statement is about every world. Only `Print` has code here.
pub mod Output
pub mod Monad
pub mod Returns
pub mod Grown
use dread.Base.{
  ℕ, zero, suc, ◌+◌, ◌-◌, ◌/◌, ◌*◌, Bool, true, false, List, [], ◌∷◌, ◌++◌, ◌==◌, ◌!=◌, u8, u16,
  u32, if◌then◌else◌, length, take, bit_and, bit_or,
}

-- The object behind a `Print &`, by number.
abbrev pub Port : Type 0
Port = ℕ

-- What happens at the pins and the ports, in order.
pub data Effect : Type 0 where
  wrote : Port → ℕ → Effect
  wrote_block : Port → List ℕ → Effect
  got : Port → ℕ → Effect
  flushed : Port → Effect
  pin_set : ℕ → ℕ → Effect
  pin_moded : ℕ → ℕ → Effect
  waited : ℕ → Effect
  waited_us : ℕ → Effect
  transferred : ℕ → Effect
  serial_began : Port → ℕ → Effect
  spi_began : Effect
  spi_ended : Effect
  timer_set : ℕ → Effect
  timer_started : Effect

-- `clock n` is what the n-th call of `millis` reads, `arrivals n p` are the bytes that reach port
-- `p` before the n-th call of an `available`, and `replies n` is what the n-th SPI transfer brings.
pub record World : Type 0 where
  pub clock : ℕ → ℕ
  pub arrivals : ℕ → Port → List ℕ
  pub replies : ℕ → ℕ
  pub ticks : ℕ
  pub polls : ℕ
  pub transfers : ℕ
  pub rx : Port → List ℕ
  pub trace : List Effect

abbrev pub update {ℓ} : {A : Type ℓ} → (ℕ → A) → ℕ → A → ℕ → A
update f p v q = if q == p then v else f q

abbrev pub emit : Effect → World → World
emit e w = record w { trace = w.trace ++ (e ∷ []) }

abbrev pub millis : World → ℕ × World
millis w = (u32 (w.clock w.ticks), record w { ticks = w.ticks + 1 })

abbrev pub available : Port → World → ℕ × World
available p w = (
  length (w.rx p ++ w.arrivals w.polls p),
  record w { polls = w.polls + 1; rx = λ q. w.rx q ++ w.arrivals w.polls q },
)

-- `read`, converted to `uint8_t` as by all its callers: -1 becomes 255.
abbrev pub pop_byte : Port → World → List ℕ → ℕ × World
pop_byte p w [] = (255, w)
pop_byte p w (b ∷ bs) =
    (u8 b, record w { rx = update w.rx p bs; trace = w.trace ++ (got p (u8 b) ∷ []) })

abbrev pub read : Port → World → ℕ × World
read p w = pop_byte p w (w.rx p)

abbrev pub write : Port → ℕ → World → World
write p b w = emit (wrote p (u8 b)) w

-- The virtual `write(buffer, size)`.
abbrev pub write_block : Port → List ℕ → World → World
write_block p bs w = emit (wrote_block p bs) w

abbrev pub flush : Port → World → World
flush p w = emit (flushed p) w

abbrev pub digital_write : ℕ → ℕ → World → World
digital_write pin v w = emit (pin_set pin v) w

abbrev pub pin_mode : ℕ → ℕ → World → World
pin_mode pin m w = emit (pin_moded pin m) w

abbrev pub delay : ℕ → World → World
delay ms w = emit (waited ms) w

abbrev pub delay_us : ℕ → World → World
delay_us us w = emit (waited_us us) w

-- `SPI.transfer`
abbrev pub transfer : ℕ → World → ℕ × World
transfer b w = (
  u8 (w.replies w.transfers),
  record w { transfers = w.transfers + 1; trace = w.trace ++ (transferred (u8 b) ∷ []) },
)
