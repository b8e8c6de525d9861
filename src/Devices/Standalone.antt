-- ===== src/Devices/Standalone.antt =====
-- Launcher/std-dread-launcher.cpp: a device that reads cards and uploads its records itself. Its timer
-- runs: the interrupt may come between any two calls of `loop`, so that the loop is given call by
-- call. An interrupt inside of a call is not modelled.
pub mod Running
pub mod Naming
pub mod Recording
pub mod Returning
pub mod Filing
mod Tests
use dread.Base.{ℕ, Bool, true, false, Option, none, some, List, [], ◌∷◌, ◌++◌, replicate}
use dread.Hardware.{
  World, Port, emit, spi_began, spi_ended, timer_set, timer_started, pin_mode, delay, write,
}
use dread.Hardware.Output.{println}
use dread.Hardware.Monad.{M, bind_run, ◌>>=◌, ◌>>◌, pure, run, ask}
use dread.Hid
use dread.Hid.{Hid}
use dread.Locale.{Locale}
use dread.Fsm.{Machine, State, Transition}
use dread.Connection.{ConnectionHandler, new_handler, handle_connection_status, listen_to_modem}
use dread.Mifare
use dread.Mifare.{MifareLite}
use dread.Modem.{Sim900, Modem, begin}
use dread.Scheduler.{Scheduler, call_subscriptions}
use dread.Persistence.File.{FileStore, new_store, file_persistence}
use dread.Persistence.File.Library.{SdLibrary}
use dread.CardReader.{Reading, read_and_store}
use dread.DreadClient.{Uploading, upload_from_persistence}
use dread.Devices.{
  modem, soft_serial, sc_ss, mfr_ss, mfr_nrst, gsm_rst, gsm_npwd, hid_buzz, hid_rld, hid_bld,
  mfr_key, upload_prefix, subscriptions, lift, config_hid, config_sd, call_all,
}

abbrev pub int_period : ℕ
int_period = 200

abbrev pub rfid : MifareLite
rfid = record { pin_slave_select = mfr_ss; pin_reset = mfr_nrst }

-- The fields of the objects of the launcher and of the scheduler, and the static objects of the functions.
pub record Standalone (F H : Type 0) : Type 0 where
  pub serial_number : List ℕ
  pub last_serial : List ℕ
  pub buffer : List ℕ
  pub handler : ConnectionHandler
  pub send_packet : Bool
  pub upload_datetime : List ℕ
  pub persistence : FileStore F H
  pub leds : Hid
  pub scheduler : Scheduler

unfoldable pub constructed : {F H : Type 0} → Scheduler → FileStore F H → Hid → Standalone F H
constructed scheduler persistence leds = record {
  serial_number = replicate 5 0;
  last_serial = replicate 5 0;
  buffer = replicate 16 0;
  handler = new_handler;
  send_packet = false;
  upload_datetime = replicate 13 0;
  persistence = persistence;
  leds = leds;
  scheduler = scheduler;
}

abbrev pub reading : {F H : Type 0} → Standalone F H → Reading (FileStore F H)
reading s = record {
  serial = s.serial_number;
  last_serial = s.last_serial;
  buffer = s.buffer;
  store = s.persistence;
  leds = s.leds;
}

abbrev pub after_reading :
    {F H : Type 0} → Standalone F H → Reading (FileStore F H) → Standalone F H
after_reading s r = record s {
  serial_number = r.serial;
  last_serial = r.last_serial;
  buffer = r.buffer;
  persistence = r.store;
  leds = r.leds;
}

abbrev pub uploading : {F H : Type 0} → Standalone F H → Uploading F H
uploading s = record {
  send_packet = s.send_packet;
  persistence = s.persistence;
  leds = s.leds;
  datetime = s.upload_datetime;
}

abbrev pub after_upload : {F H : Type 0} → Standalone F H → Uploading F H → Standalone F H
after_upload s r = record s {
  send_packet = r.send_packet;
  persistence = r.persistence;
  leds = r.leds;
  upload_datetime = r.datetime;
}

abbrev pub config_timer : World → World
config_timer w = emit timer_started (emit (timer_set int_period) w)

-- Which call of `loop` is next.
pub data Place : Type 0 where
  at_card : Place
  at_status : Place
  at_modem : Place
  at_upload : Place

-- The interrupt: `Scheduler::CheckTime`.
abbrev pub answer :
    {F H : Type 0} → Standalone F H → Option (List ℕ) × Scheduler → M (Standalone F H)
answer s (none, scheduler) w = none
answer s (some fs, scheduler) w =
    let (flag, leds, w1) = call_all fs (s.send_packet, s.leds, w) in
    some (record s { send_packet = flag; leds = leds; scheduler = scheduler }, w1)

unfoldable pub interrupt : {F H : Type 0} → Standalone F H → M (Standalone F H)
interrupt s = answer s (call_subscriptions 2 s.scheduler)

module _ {F H : Type 0} (sd : SdLibrary F H) where
  -- The construction of the persistence, then `setup`; the body of `ConfigGPRS` is empty.
  unfoldable pub setup : ℕ → F → H → List ℕ → M (Standalone F H)
  unfolding constructed subscriptions
  setup fuel card file memory = do
    leds ← ask (Hid.new hid_buzz hid_rld hid_bld)
    (store, leds1) ← pure (new_store card file (upload_prefix ++ memory) leds)
    scheduler ← subscriptions
    run (begin modem.sim900 gsm_rst gsm_npwd)
    run config_timer
    run (pin_mode sc_ss 1)
    (card1, leds2) ← config_sd sd (write soft_serial b'.') fuel mfr_ss store.card (config_hid leds1)
    run (λ w. emit spi_began (delay 1000 (emit spi_ended w)))
    run (Mifare.init rfid)
    run (λ w. write soft_serial b'F' (write soft_serial b'R' w))
    run (λ w. println soft_serial (write soft_serial b'D' (write soft_serial b'I' w)))
    pure (constructed scheduler (record store { card = card1 }) leds2)

  module _ (locale : Locale) (run_guard : ℕ → Machine → State → Bool)
      (run_action : ℕ → Machine → Machine) where
    abbrev pub carded : ℕ → List ℕ → Standalone F H → M (Standalone F H)
    carded garbage stack s = do
      r ←
          read_and_store rfid (file_persistence sd soft_serial) locale soft_serial garbage stack
            mfr_key (reading s)
      pure (after_reading s r)

    abbrev pub handled : Transition → Standalone F H → M (Standalone F H)
    handled unset s = do
      h ← lift (handle_connection_status run_guard run_action unset s.handler)
      pure (record s { handler = h })

    abbrev pub uploaded : ℕ → Bool → Standalone F H → M (Standalone F H)
    uploaded fuel closed s = do
      u ← upload_from_persistence sd soft_serial modem locale fuel fuel closed (uploading s)
      pure (after_upload s u)

    -- One call of `loop`; the arguments are what uninitialised variables hold.
    unfoldable pub step :
        ℕ → ℕ → List ℕ → Transition → Bool → Place → Standalone F H → M (Place × Standalone F H)
    step fuel garbage stack unset closed at_card s = do
      s1 ← carded garbage stack s
      pure (at_status, s1)
    step fuel garbage stack unset closed at_status s = do s1 ← handled unset s; pure (at_modem, s1)
    step fuel garbage stack unset closed at_modem s =
        pure (at_upload, record s { handler = listen_to_modem s.handler })
    step fuel garbage stack unset closed at_upload s = do
      s1 ← uploaded fuel closed s
      pure (at_card, s1)
