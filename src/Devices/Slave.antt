-- ===== src/Devices/Slave.antt =====
-- Launcher/slv-dread-launcher.cpp: a slave reads cards into the record book and answers the master. Its
-- parts share the book and the leds, so that the state of the device holds each once.
pub mod Running
mod Tests
use dread.Base.{ℕ, List, [], ◌∷◌, replicate}
use dread.Hardware.{World, Port, emit, serial_began, spi_began, digital_write, pin_mode, delay}
use dread.Hardware.Output.{write_text}
use dread.Hardware.Monad.{M, bind_run, ◌>>=◌, ◌>>◌, pure, run, ask}
use dread.Hid
use dread.Hid.{Hid}
use dread.Locale.{Locale}
use dread.Net.Types.{Message}
use dread.Net.Socket.{Socket}
use dread.Mifare.{MifareLite}
use dread.Mifare
use dread.Bus
use dread.Scheduler
use dread.Scheduler.{Scheduler, subscribe}
use dread.Persistence.Stream.{Stream}
use dread.Persistence.Book.{non_persistence, book}
use dread.CardReader.{Reading, read_and_store}
use dread.Gateway.Server.{Server, Listening, listen}
use dread.Devices.{
  serial, soft_serial, bus, mfr_ss, mfr_nrst, sc_ss, hid_buzz, hid_rld, hid_bld, mfr_key, nodes,
  lift, config_hid,
}

abbrev pub reg_limit : ℕ
reg_limit = 512

abbrev pub server_name : List ℕ
server_name = b'S' ∷ b'9' ∷ b'X' ∷ 0 ∷ []

abbrev pub rfid : MifareLite
rfid = record { pin_slave_select = mfr_ss; pin_reset = mfr_nrst }

-- The fields of `card_reader`, of `ngserver`, and the static objects of their functions.
pub record Slave : Type 0 where
  pub serial_number : List ℕ
  pub last_serial : List ℕ
  pub buffer : List ℕ
  pub address : ℕ
  pub request : Message
  pub response : Message
  pub store : Stream
  pub leds : Hid

-- The objects as they are constructed; `NO_ADDRESS` is 255 in the 8 bits of the address.
unfoldable pub constructed : Hid → Slave
constructed leds = record {
  serial_number = replicate 5 0;
  last_serial = replicate 5 0;
  buffer = replicate 16 0;
  address = 255;
  request = replicate 20 0;
  response = replicate 20 0;
  store = non_persistence (replicate 512 0) reg_limit;
  leds = leds;
}

abbrev pub reading : Slave → Reading Stream
reading s = record {
  serial = s.serial_number;
  last_serial = s.last_serial;
  buffer = s.buffer;
  store = s.store;
  leds = s.leds;
}

abbrev pub after_reading : Slave → Reading Stream → Slave
after_reading s r = record s {
  serial_number = r.serial;
  last_serial = r.last_serial;
  buffer = r.buffer;
  store = r.store;
  leds = r.leds;
}

abbrev pub listening : Slave → Listening Stream
listening s = record {
  address = s.address;
  store = s.store;
  leds = s.leds;
  request = s.request;
  response = s.response;
}

abbrev pub after_listening : Slave → Listening Stream → Slave
after_listening s r = record s {
  address = r.address;
  store = r.store;
  leds = r.leds;
  request = r.request;
  response = r.response;
}

-- The timer is not started here.
unfoldable pub setup : M (Scheduler × Slave)
unfolding constructed
setup = do
  scheduler ← lift (subscribe 2 (Scheduler.new nodes) 0)
  run (λ w. emit (serial_began soft_serial 19200) (emit (serial_began serial 19200) w))
  run (λ w. digital_write mfr_ss 1 (pin_mode mfr_ss 1 w))
  leds ← ask (Hid.new hid_buzz hid_rld hid_bld)
  run (λ w. delay 500 (emit spi_began w))
  run (Bus.init (record { write_pin = sc_ss; port = serial }))
  run (λ w. delay 1000 (write_text soft_serial (b'I' ∷ b'\n' ∷ 0 ∷ []) w))
  run (Mifare.init rfid)
  pure (scheduler, constructed (config_hid leds))

-- `before` is the byte in front of a message of the socket.
module _ (locale : Locale) (before : ℕ) where
  abbrev pub server : Server
  server = record {
    socket = record { port = bus; logger = soft_serial; before = before };
    logger = soft_serial;
    name = server_name;
  }

  -- The body of `loop`; the arguments are what uninitialised variables hold, call by call.
  unfoldable pub loop : ℕ → ℕ → List ℕ → Message → Slave → M Slave
  loop fuel garbage stack res s = do
    r ← read_and_store rfid book locale soft_serial garbage stack mfr_key (reading s)
    l ← listen server book fuel res (listening (after_reading s r))
    pure (after_listening (after_reading s r) l)
