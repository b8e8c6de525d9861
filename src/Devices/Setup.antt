-- ===== src/Devices/Setup.antt =====
-- How long a device waits for its SD card, and what it shows meanwhile.
use dread.Base.{ℕ, zero, suc, ◌<◌, ◌≡◌, ap, refl, Bool, true, false, some, arith}
use dread.Hardware.{World, digital_write}
use dread.Hid.{Hid, set_led, blk_red, blk_org}
use dread.Persistence.File.Library.{SdLibrary}
use dread.Devices.{await_card, card_there, config_sd, card_ss}

-- A step taken a number of times.
unfoldable pub times : {A : Type 0} → (A → A) → ℕ → A → A
times f zero x = x
times f (suc n) x = times f n (f x)

module _ {F H : Type 0} (sd : SdLibrary F H) (mark : World → World) where
  -- The card after an attempt, and whether the attempt finds it.
  abbrev pub tried : F → F
  tried card = (sd.begin card_ss card).1

  abbrev pub found : F → Bool
  found card = (sd.begin card_ss card).0

  await_card-first :
      (n fuel : ℕ) (card : F) (leds : Hid) (w : World)
      → n < fuel
      → ((i : ℕ) → i < n → found (times tried i card) ≡ false)
      → found (times tried n card) ≡ true
      → await_card sd mark fuel card leds w
        ≡ some (tried (times tried n card), times (set_led blk_red) n leds, times mark n w)
  unfolding await_card times
  await_card-first n zero card leds w l fails ok = absurd (omega arith)
  await_card-first zero (suc fuel) card leds w l fails ok = rw ok refl
  await_card-first (suc n) (suc fuel) card leds w l fails ok =
      let first : found card ≡ false = fails 0 (omega arith) in
      rw first (
        await_card-first n fuel (tried card) (set_led blk_red leds) (mark w) (omega arith)
          (λ i li. fails (suc i) (omega arith)) ok)

  -- If the attempt number `n` is the first that finds the card, the set-up ends, with any fuel above `n`:
  -- the mark is written and the leds are set to blink red once for each failed attempt, and the leds
  -- are then set to blink orange.
  pub config_sd-first :
      (n fuel ss_pin : ℕ) (card : F) (leds : Hid) (w : World)
      → n < fuel
      → ((i : ℕ) → i < n → found (times tried i card) ≡ false)
      → found (times tried n card) ≡ true
      → config_sd sd mark fuel ss_pin card leds w
        ≡ some (
          (tried (times tried n card), set_led blk_org (times (set_led blk_red) n leds)),
          times mark n (digital_write ss_pin 1 w),
        )
  unfolding config_sd
  config_sd-first n fuel ss_pin card leds w l fails ok =
      ap (card_there sd mark)
        (await_card-first n fuel card leds (digital_write ss_pin 1 w) l fails ok)
