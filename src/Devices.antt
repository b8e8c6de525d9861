-- ===== src/Devices.antt =====
-- Launcher/Dread.h and what the three launchers of Launcher share: pins, ports, the subscriptions to the
-- timer, the configuration of the leds and of the SD card. The timer's interrupt is a step of its own.
pub mod Setup
pub mod Timer
pub mod Slave
pub mod Master
pub mod Standalone
mod Tests
use dread.Base.{
  ℕ, zero, suc, ◌+◌, ◌*◌, Bool, true, false, Option, none, some, List, [], ◌∷◌, ◌==◌, if◌then◌else◌,
}
use dread.Hardware.{World, Port, digital_write}
use dread.Hardware.Monad.{M, bind_run, ◌>>=◌}
use dread.Hid.{Hid, set_led, check_time, blk_red, blk_org, red_grn}
use dread.Modem.{Sim900, Modem}
use dread.Persistence.File.Library.{SdLibrary}
use dread.Scheduler
use dread.Scheduler.{Store, Scheduler, Subscription, call_subscriptions, subscribe}

abbrev pub int_sec : ℕ
int_sec = 5

abbrev pub int_minutes : ℕ
int_minutes = 300

-- `SD_SS`
abbrev pub card_ss : ℕ
card_ss = 8

abbrev pub gsm_npwd : ℕ
gsm_npwd = 5

abbrev pub gsm_rst : ℕ
gsm_rst = 4

abbrev pub mfr_ss : ℕ
mfr_ss = 10

abbrev pub mfr_nrst : ℕ
mfr_nrst = 9

-- `A1` and `A2` are 15 and 16.
abbrev pub sc_ss : ℕ
sc_ss = 15

abbrev pub hid_buzz : ℕ
hid_buzz = 16

abbrev pub hid_bld : ℕ
hid_bld = 7

abbrev pub hid_rld : ℕ
hid_rld = 6

-- `Serial`, `SoftSerial` and `bus`.
abbrev pub serial : Port
serial = 1

abbrev pub soft_serial : Port
soft_serial = 2

abbrev pub bus : Port
bus = 3

-- "I1Z", with the end mark.
abbrev pub upload_prefix : List ℕ
upload_prefix = b'I' ∷ b'1' ∷ b'Z' ∷ 0 ∷ []

abbrev pub modem : Modem
modem = record {
  sim900 = record { hard_port = serial; soft_port = soft_serial };
  logger = soft_serial;
}

abbrev pub mfr_key : List ℕ
mfr_key = 0x00 ∷ 0x00 ∷ 0x0B ∷ 0xAC ∷ 0xAF ∷ 0xEA ∷ []

-- The functions `HID::CheckTime` and `DreadClient::CheckTime`.
abbrev pub hid_check : ℕ
hid_check = 0

abbrev pub client_check : ℕ
client_check = 1

-- The nodes `hid_subscription` and `connection_subscription`, at the addresses 0 and 1.
abbrev pub nodes : Store
nodes zero = record { subscription = hid_check; timeout = int_sec; next = none }
nodes (suc n) = record { subscription = client_check; timeout = 5 * int_minutes; next = none }

abbrev pub lift : {A : Type 0} → Option A → M A
lift none w = none
lift (some a) w = some (a, w)

-- The two calls of `subscribe` at the start of `setup`.
unfoldable pub subscriptions : M Scheduler
subscriptions = do first ← lift (subscribe 2 (Scheduler.new nodes) 0); lift (subscribe 2 first 1)

abbrev pub config_hid : Hid → Hid
config_hid leds = set_led red_grn leds

-- What the called functions do, in their order: to the flag `send_packet`, to the leds and to the pins.
unfoldable pub call_all : List ℕ → Bool × Hid × World → Bool × Hid × World
call_all [] s = s
call_all (f ∷ fs) (flag, leds, w) =
    let (leds1, w1) = check_time leds w in
    call_all fs (if f == hid_check then (flag, leds1, w1) else (true, leds, w))

module _ {F H : Type 0} (sd : SdLibrary F H) (mark : World → World) where
  -- `while (!SD.begin(SD_SS))`, where `mark` is what is written before the next attempt.
  unfoldable pub await_card : ℕ → F → Hid → World → Option (F × Hid × World)
  await_card zero card leds w = none
  await_card (suc fuel) card leds w =
      let (begun, card1) = sd.begin card_ss card in
      let again = await_card fuel card1 (set_led blk_red leds) (mark w) in
      if begun then some (card1, leds, w) else again

  abbrev pub card_there : Option (F × Hid × World) → Option ((F × Hid) × World)
  card_there none = none
  card_there (some (card, leds, w)) = some ((card, set_led blk_org leds), w)

  -- `ss_pin` is the select pin of the other chip on the SPI bus.
  unfoldable pub config_sd : ℕ → ℕ → F → Hid → M (F × Hid)
  unfolding await_card
  config_sd fuel ss_pin card leds w =
      card_there (await_card fuel card leds (digital_write ss_pin 1 w))
