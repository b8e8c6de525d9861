-- ===== src/Hid/Tests.antt =====
-- The leds at concrete states.
use dread.Base.{◌≡◌, refl, true, [], ◌∷◌}
use dread.Hardware.{World}
use dread.Hid.{Hid, set_led, register_set, is_locked, check_time, new, blk_red}
use dread.Hid.Register.{set, success, failure, tick, beeps, run, check_time_idle}

abbrev still : World
still = record {
  clock = λ n. n;
  arrivals = λ n p. [];
  replies = λ n. 0;
  ticks = 0;
  polls = 0;
  transfers = 0;
  rx = λ p. [];
  trace = [];
}

abbrev leds : Hid
leds = record { buzz_pin = 16; red_led_pin = 6; greenblue_led_pin = 7; led_register = 0x80 }

blinking_red : (set_led blk_red leds).led_register ≡ 0x85
unfolding set_led register_set
blinking_red = refl

check_time_idle_example :
    let (h, w') = run (set 5 ∷ tick ∷ success ∷ failure ∷ beeps ∷ []) (new 16 6 7 still) in
    (is_locked h ≡ true) × (check_time h w' ≡ (h, w'))
check_time_idle_example =
    check_time_idle (set 5 ∷ tick ∷ success ∷ failure ∷ beeps ∷ []) 16 6 7 still
