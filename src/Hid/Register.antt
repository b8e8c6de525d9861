-- ===== src/Hid/Register.antt =====
-- The led register after a setting and after a tick.
use dread.Base.{
  ℕ, ◌+◌, ◌*◌, ◌/◌, ◌%◌, ◌<◌, ◌≤◌, ◌≡◌, refl, arith, true, List, [], ◌∷◌, ◌==◌, ◌!=◌, if◌then◌else◌,
  ◌&&◌, leb, ltb, ==_iff, ◌∙◌, le→leb, bit_and,
}
use dread.Base.Bits.{for_all_below, for_all_below_lem, mask_more, mask_three}
use dread.Hardware.{World}
use dread.Hid.{
  Hid, register_set, register_blink, set_led, is_locked, on_check_time, check_time, beep, unlock,
  successful_chime, failure_chime, new, read_bit, clear_bit, set_bit,
}

set_table :
    for_all_below 256 (λ r. for_all_below 16 (λ s. register_set s r == r / 16 * 16 + s)) ≡ true
unfolding for_all_below register_set
set_table = refl

-- `register_set` depends on the low four bits of its setup only.
register_set-mod : (s r : ℕ) → register_set s r ≡ register_set (s % 16) r
unfolding register_set
register_set-mod s r =
    rw (low4 s, low4 (s % 16)) (let e : s % 16 % 16 ≡ s % 16 = omega arith in rw e)
  where
    low4 : (a : ℕ) → bit_and a 15 ≡ a % 16
    low4 a = omega (arith, mask_more a 7, mask_three (a / 2))

register_set_lem : (s r : ℕ) → r < 256 → register_set s r ≡ r / 16 * 16 + s % 16
register_set_lem s r h =
    register_set-mod s r ∙ (==_iff _ _).0 (for_all_below_lem 16 _ (s % 16) row (omega arith))
  where
    row : for_all_below 16 (λ s. register_set s r == r / 16 * 16 + s) ≡ true
    row =
        for_all_below_lem 256 (λ r. for_all_below 16 (λ s. register_set s r == r / 16 * 16 + s)) r
          set_table h

blink_table :
    for_all_below 256 (λ r. ltb (register_blink r) 256 && (register_blink r / 16 == r / 16)) ≡ true
unfolding for_all_below register_blink
blink_table = refl

lock_table : for_all_below 256 (λ r. if leb 128 r then read_bit r 7 != 0 else true) ≡ true
unfolding for_all_below
lock_table = refl

free_table : for_all_below 256 (λ r. set_bit (clear_bit r 7) 7 == r) ≡ true
unfolding for_all_below
free_table = refl

-- `setLed` puts the low four bits of its argument into the low four bits of the register, and leaves
-- the high four as they were.
pub set_led_lem :
    (setup : ℕ) (h : Hid)
    → h.led_register < 256
    → (set_led setup h).led_register ≡ h.led_register / 16 * 16 + setup % 16
unfolding set_led
set_led_lem setup h l = register_set_lem setup h.led_register l

-- What the program does with the leds.
pub data HidOp : Type 0 where
  set : ℕ → HidOp
  success : HidOp
  failure : HidOp
  tick : HidOp
  beeps : HidOp

pub step : HidOp → Hid × World → Hid × World
step (set s) (h, w) = (set_led s h, w)
step success (h, w) = successful_chime h w
step failure (h, w) = failure_chime h w
step tick (h, w) = check_time h w
step beeps (h, w) = (h, beep h w)

pub run : List HidOp → Hid × World → Hid × World
run [] s = s
run (o ∷ os) s = run os (step o s)

-- The register is a byte with its highest bit set.
abbrev pub IsLocked : Hid → Type 0
IsLocked h = (128 ≤ h.led_register) × (h.led_register < 256)

is_locked-IsLocked : (h : Hid) → IsLocked h → is_locked h ≡ true
unfolding is_locked
is_locked-IsLocked h (l, u) =
    let t : (if leb 128 h.led_register then read_bit h.led_register 7 != 0 else true) ≡ true =
      for_all_below_lem 256 (λ r. if leb 128 r then read_bit r 7 != 0 else true) h.led_register
        lock_table u in
    rw (le→leb 128 h.led_register l) at t

set_led-IsLocked : (s : ℕ) (h : Hid) → IsLocked h → IsLocked (set_led s h)
set_led-IsLocked s h (l, u) = omega (arith, set_led_lem s h u)

unlock-IsLocked : (h : Hid) → IsLocked h → IsLocked (unlock h)
unfolding unlock set_led
unlock-IsLocked h (l, u) =
    let same : set_bit (clear_bit h.led_register 7) 7 ≡ h.led_register =
      (==_iff _ _).0
        (for_all_below_lem 256 (λ r. set_bit (clear_bit r 7) 7 == r) h.led_register free_table u) in
    rw same (rw (register_set_lem h.led_register h.led_register u) (omega arith))

check_time_locked : (h : Hid) (w : World) → IsLocked h → check_time h w ≡ (h, w)
unfolding check_time
check_time_locked h w k = rw (is_locked-IsLocked h k)

step-IsLocked : (o : HidOp) (h : Hid) (w : World) → IsLocked h → IsLocked (step o (h, w)).0
unfolding step successful_chime failure_chime
step-IsLocked (set s) h w k = set_led-IsLocked s h k
step-IsLocked success h w k = unlock-IsLocked h k
step-IsLocked failure h w k = unlock-IsLocked h k
step-IsLocked tick h w k = rw (check_time_locked h w k) k
step-IsLocked beeps h w k = k

run-IsLocked : (os : List HidOp) (h : Hid) (w : World) → IsLocked h → IsLocked (run os (h, w)).0
unfolding run
run-IsLocked [] h w k = k
run-IsLocked (o ∷ os) h w k =
    run-IsLocked os (step o (h, w)).0 (step o (h, w)).1 (step-IsLocked o h w k)

new-IsLocked : (buzz red greenblue : ℕ) (w : World) → IsLocked (new buzz red greenblue w).0
unfolding new
new-IsLocked buzz red greenblue w = omega arith

-- Whatever the program does with the leds from the constructor on, the register stays locked, and the
-- timer's `CheckTime` changes neither the register nor a pin: the leds never blink.
pub check_time_idle :
    (os : List HidOp) (buzz red greenblue : ℕ) (w : World)
    → let (h, w') = run os (new buzz red greenblue w) in
      (is_locked h ≡ true) × (check_time h w' ≡ (h, w'))
check_time_idle os buzz red greenblue w =
    (is_locked-IsLocked (state.0) locked, check_time_locked state.0 state.1 locked)
  where
    state : Hid × World
    state = run os (new buzz red greenblue w)

    locked : IsLocked state.0
    locked =
        run-IsLocked os (new buzz red greenblue w).0 (new buzz red greenblue w).1
          (new-IsLocked buzz red greenblue w)

-- Were the lock open, the blink would keep the register a byte and leave its high four bits.
pub on_check_time-upper :
    (h : Hid) (w : World)
    → h.led_register < 256
    → let h' = (on_check_time h w).0 in
      (h'.led_register < 256) × (h'.led_register / 16 ≡ h.led_register / 16)
unfolding on_check_time
on_check_time-upper h w l = ground (
  arith,
  for_all_below_lem 256 (λ r. ltb (register_blink r) 256 && (register_blink r / 16 == r / 16))
      h.led_register blink_table l,
)
