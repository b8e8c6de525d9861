-- ===== src/Devices/Tests.antt =====
-- The outside for runs of the devices, where nobody answers at the ports, and a card answers the
-- request and then no more; the set-up and the timer.
use dread.Base.{
  ℕ, zero, suc, ◌+◌, ◌*◌, ◌<◌, ◌≡◌, refl, Bool, true, false, none, some, [], ◌∷◌, ltb, leb, arith,
  if◌then◌else◌, u16,
}
use dread.Hardware.{World, write, digital_write}
use dread.Hid.{Hid, set_led, blk_red, blk_org}
use dread.Locale.{Locale}
use dread.Scheduler.{Scheduler, Store, call_subscriptions}
use dread.Scheduler.Chain.{Chain}
use dread.Persistence.File.Memory.{Card, Open}
use dread.Persistence.File.{FileStore}
use dread.Persistence.File.Library.{SdLibrary}
use dread.Fsm.{Machine, State, Transition}
use dread.Devices.{config_sd, soft_serial, mfr_ss}
use dread.Devices.Setup.{times, tried, found, config_sd-first}
use dread.Devices.Timer.{IsTimed, calls_at, ticked, ticks_lem}

-- The card is the number of attempts so far; the third one finds it.
abbrev pub sd : SdLibrary ℕ Bool
sd = record {
  file_read = 1;
  file_write = 19;
  begin = λ pin card. (leb 2 card, suc card);
  open_file = λ n mode card. (true, card);
  is_open = λ h. h;
  exists_file = λ n card. (true, card);
  remove = λ n card. (true, card);
  write = λ b h card. (h, card);
  close = λ h card. (false, card);
  size = λ h card. 0;
  available = λ h card. 0;
  read = λ h card. (none, h, card);
}

abbrev pub silent : World
silent = record {
  clock = λ n. n * 500;
  arrivals = λ n p. [];
  replies = λ n. if ltb n 30 then 0x20 else (if ltb n 32 then 2 else 0);
  ticks = 0;
  polls = 0;
  transfers = 0;
  rx = λ p. [];
  trace = [];
}

abbrev pub clock : Locale
clock = record { secs = 0; mins = 0; hrs = 0; days = 1; months = 1; year = 4 }

abbrev pub leds : Hid
leds = record { buzz_pin = 16; red_led_pin = 6; greenblue_led_pin = 7; led_register = 0 }

found_late :
    (i : ℕ)
    → i < 2
    → found sd (write soft_serial b'.') (times (tried sd (write soft_serial b'.')) i 0) ≡ false
unfolding times
found_late zero l = refl
found_late (suc zero) l = refl
found_late (suc (suc i)) l = absurd (omega arith)

found_third :
    found sd (write soft_serial b'.') (times (tried sd (write soft_serial b'.')) 2 0) ≡ true
unfolding times
found_third = refl

config_sd-first_example :
    config_sd sd (write soft_serial b'.') 5 mfr_ss 0 leds silent
    ≡ some (
      (
        tried sd (write soft_serial b'.') (times (tried sd (write soft_serial b'.')) 2 0),
        set_led blk_org (times (set_led blk_red) 2 leds),
      ),
      times (write soft_serial b'.') 2 (digital_write mfr_ss 1 silent),
    )
config_sd-first_example =
    config_sd-first sd (write soft_serial b'.') 2 5 mfr_ss 0 leds silent (omega arith) found_late
      found_third

abbrev linked : Store
linked zero = record { subscription = 0; timeout = 5; next = some 1 }
linked (suc n) = record { subscription = 1; timeout = 1500; next = none }

-- 65 more ticks reach the end of the 16 bits.
abbrev timed : Scheduler
timed = record { subscriptions = some 0; tick = 65500; store = linked }

timed-IsTimed : IsTimed timed
unfolding Chain
timed-IsTimed = record {
  listed = (refl, (refl, refl));
  hid_function = refl;
  hid_timeout = refl;
  client_function = refl;
  client_timeout = refl;
}

ticks_lem_example :
    let s' = times ticked 35 timed in
    IsTimed s'
    × (u16 s'.tick ≡ u16 (65500 + 35))
    × ((call_subscriptions 2 s').0 ≡ some (calls_at (u16 (65500 + 36))))
ticks_lem_example = ticks_lem 35 timed timed-IsTimed

abbrev pub no_guard : ℕ → Machine → State → Bool
no_guard g m s = false

abbrev pub no_action : ℕ → Machine → Machine
no_action a m = m

abbrev pub unset : Transition
unset = record { signal = 0; stid = 0; guard = none; action = none }

abbrev pub disk : FileStore Card Open
disk = record { card = ((λ n. b'x' ∷ []), 100); file = none; file_name = b'I' ∷ b'1' ∷ b'Z' ∷ [] }
