-- ===== src/Hid.antt =====
-- Modules/HID/HID.cpp and HID.h: the leds and the buzzer. `HID::get` makes one object of the class at
-- its first call, so that the state is passed on from call to call.
pub mod Register
mod Tests
use dread.Base.{
  ℕ, zero, suc, ◌+◌, ◌-◌, ◌*◌, ◌/◌, ◌%◌, ◌^◌, Bool, true, false, List, [], ◌∷◌, ◌==◌, ◌!=◌, u8,
  if◌then◌else◌, bit_and, bit_or, bit_xor, not,
}
use dread.Hardware.{World, digital_write, pin_mode, delay}

abbrev pub low : ℕ
low = 0

abbrev pub high : ℕ
high = 1

abbrev pub output : ℕ
output = 1

abbrev pub led_state_mask : ℕ
led_state_mask = 0x0F

abbrev pub acquire_mask : ℕ
acquire_mask = 0x80

-- The values of `LedState` that the program uses.
abbrev pub lo_all : ℕ
lo_all = 0x00

abbrev pub blk_red : ℕ
blk_red = 0x05

abbrev pub org_grn : ℕ
org_grn = 0x07

abbrev pub red_grn : ℕ
red_grn = 0x0D

abbrev pub blk_org : ℕ
blk_org = 0x0F

pub record Hid : Type 0 where
  pub buzz_pin : ℕ
  pub red_led_pin : ℕ
  pub greenblue_led_pin : ℕ
  pub led_register : ℕ

-- The bit macros on a `uint8_t`: a read shifts by `bit`, the other two by one more.
abbrev pub read_bit : ℕ → ℕ → ℕ
read_bit word bit = bit_and (word / 2 ^ bit) 1

abbrev pub clear_bit : ℕ → ℕ → ℕ
clear_bit word bit = u8 (bit_and word (65535 - 2 * 2 ^ bit))

abbrev pub set_bit : ℕ → ℕ → ℕ
set_bit word bit = u8 (bit_or word (2 * 2 ^ bit))

-- What `setLed` and `onCheckTime` make of the register.
unfoldable pub register_set : ℕ → ℕ → ℕ
register_set setup r =
    let acquired = clear_bit r 7 in
    let cleared = u8 (bit_and acquired (65535 - led_state_mask)) in
    set_bit (bit_or cleared (bit_and setup led_state_mask)) 7

abbrev pub red_of : ℕ → ℕ
red_of r = bit_xor (read_bit r 0) (read_bit r 2)

abbrev pub green_blue_of : ℕ → ℕ
green_blue_of r = bit_xor (read_bit r 1) (read_bit r 3)

unfoldable pub register_blink : ℕ → ℕ
register_blink r =
    u8 (bit_or (clear_bit (clear_bit r 0) 1) (bit_or (red_of r) (green_blue_of r * 2)))

pub acquire : Hid → Hid
acquire h = record h { led_register = clear_bit h.led_register 7 }

pub release : Hid → Hid
release h = record h { led_register = set_bit h.led_register 7 }

unfoldable pub set_led : ℕ → Hid → Hid
unfolding register_set
set_led setup h = record h { led_register = register_set setup h.led_register }

-- `static_cast<bool>(ReadBit(led_register, 7))`
unfoldable pub is_locked : Hid → Bool
is_locked h = read_bit h.led_register 7 != 0

-- The constructor.
unfoldable pub new : ℕ → ℕ → ℕ → World → Hid × World
unfolding set_led
new buzz red greenblue w =
    let w1 = pin_mode buzz output (pin_mode greenblue output (pin_mode red output w)) in
    let h : Hid = record {
      buzz_pin = buzz;
      red_led_pin = red;
      greenblue_led_pin = greenblue;
      led_register = acquire_mask;
    } in
    (set_led lo_all h, digital_write buzz low w1)

unfoldable pub on_check_time : Hid → World → Hid × World
unfolding register_blink
on_check_time h w =
    let w1 = digital_write h.red_led_pin (red_of h.led_register) w in
    (
      record h { led_register = register_blink h.led_register },
      digital_write h.greenblue_led_pin (green_blue_of h.led_register) w1,
    )

-- The rest of the function assigns to local variables only.
unfoldable pub check_time : Hid → World → Hid × World
check_time h w = if not (is_locked h) then on_check_time h w else (h, w)

unfoldable pub beep : Hid → World → World
beep h w =
    let on = digital_write h.buzz_pin high in
    let off = digital_write h.buzz_pin low in off (delay 10 (on (delay 10 (off (delay 10 (on w))))))

-- `release()`, then `setLed(led_register)`.
unfoldable pub unlock : Hid → Hid
unfolding acquire release set_led
unlock h = let h' = release (acquire h) in set_led h'.led_register h'

unfoldable pub successful_chime : Hid → World → Hid × World
unfolding unlock
successful_chime h w =
    let w1 = digital_write h.greenblue_led_pin high (digital_write h.red_led_pin low w) in
    let w2 = delay 800 (digital_write h.buzz_pin high w1) in
    (unlock h, digital_write h.greenblue_led_pin low (digital_write h.buzz_pin low w2))

-- The red led and the buzzer on or off together, then a pause.
abbrev pub blare : ℕ → Hid → World → World
blare v h w = digital_write h.buzz_pin v (digital_write h.red_led_pin v w)

unfoldable pub failure_chime : Hid → World → Hid × World
unfolding unlock
failure_chime h w =
    let w1 = digital_write h.greenblue_led_pin low w in
    let w2 = delay 200 (blare low h (delay 200 (blare high h w1))) in
    let w3 = delay 200 (blare low h (delay 200 (blare high h w2))) in
    (unlock h, blare low h (delay 200 (blare high h w3)))
