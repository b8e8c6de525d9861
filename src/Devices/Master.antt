-- ===== src/Devices/Master.antt =====
-- Launcher/mst-dread-launcher.cpp: the master polls the slaves, and calls the connection handler and the
-- upload. The polls and the upload share the persistence.
pub mod Running
pub mod Recording
mod Tests
use dread.Base.{ℕ, Bool, true, false, List, [], ◌∷◌, ◌++◌, replicate}
use dread.Hardware.{World, Port, emit, spi_began, pin_mode}
use dread.Hardware.Output.{write_text}
use dread.Hardware.Monad.{M, bind_run, ◌>>=◌, ◌>>◌, pure, run, ask}
use dread.Hid
use dread.Hid.{Hid}
use dread.Locale.{Locale}
use dread.Net.Types.{Message}
use dread.Net.Manager
use dread.Net.Manager.{NetManager}
use dread.Fsm.{Machine, State, Transition}
use dread.Connection.{ConnectionHandler, new_handler, handle_connection_status, listen_to_modem}
use dread.Bus.{sc_init}
use dread.Modem.{Sim900, Modem, begin}
use dread.Scheduler.{Scheduler}
use dread.Persistence.File.{FileStore, new_store, file_persistence}
use dread.Persistence.File.Library.{SdLibrary}
use dread.Gateway.Client.{Client, Poll, poll_records}
use dread.DreadClient.{Uploading, upload_from_persistence}
use dread.Devices.{
  modem, soft_serial, bus, sc_ss, gsm_rst, gsm_npwd, hid_buzz, hid_rld, hid_bld, upload_prefix,
  subscriptions, lift, config_hid, config_sd,
}

abbrev pub client_name : List ℕ
client_name = b'M' ∷ b'9' ∷ b'X' ∷ 0 ∷ []

-- `SC_1_8432MHz`
abbrev pub crystal : ℕ
crystal = 0x06

-- The fields of `net_manager`, `persistence`, `connection_handler` and `dread_client`, and the static
-- objects of their functions.
pub record Master (F H : Type 0) : Type 0 where
  pub manager : NetManager
  pub req : Message
  pub res : Message
  pub poll_datetime : List ℕ
  pub handler : ConnectionHandler
  pub send_packet : Bool
  pub upload_datetime : List ℕ
  pub persistence : FileStore F H
  pub leds : Hid

-- The objects as they are constructed, with the persistence and the leds.
unfoldable pub constructed : {F H : Type 0} → FileStore F H → Hid → Master F H
constructed persistence leds = record {
  manager = Manager.new;
  req = replicate 20 0;
  res = replicate 20 0;
  poll_datetime = replicate 14 0;
  handler = new_handler;
  send_packet = false;
  upload_datetime = replicate 13 0;
  persistence = persistence;
  leds = leds;
}

abbrev pub polling : {F H : Type 0} → Master F H → Poll (FileStore F H)
polling s = record {
  manager = s.manager;
  store = s.persistence;
  req = s.req;
  res = s.res;
  datetime = s.poll_datetime;
}

abbrev pub after_poll : {F H : Type 0} → Master F H → Poll (FileStore F H) → Master F H
after_poll s r = record s {
  manager = r.manager;
  persistence = r.store;
  req = r.req;
  res = r.res;
  poll_datetime = r.datetime;
}

abbrev pub uploading : {F H : Type 0} → Master F H → Uploading F H
uploading s = record {
  send_packet = s.send_packet;
  persistence = s.persistence;
  leds = s.leds;
  datetime = s.upload_datetime;
}

abbrev pub after_upload : {F H : Type 0} → Master F H → Uploading F H → Master F H
after_upload s r = record s {
  send_packet = r.send_packet;
  persistence = r.persistence;
  leds = r.leds;
  upload_datetime = r.datetime;
}

-- `before` is the byte in front of a message of the socket.
abbrev pub client : ℕ → Client
client before = record {
  socket = record { port = bus; logger = soft_serial; before = before };
  logger = soft_serial;
}

module _ {F H : Type 0} (sd : SdLibrary F H) where
  -- The construction of the persistence, then `setup`. `memory` is what follows the four bytes of the
  -- prefix; the timer is not started here.
  unfoldable pub setup : ℕ → F → H → List ℕ → M (Scheduler × Master F H)
  unfolding constructed subscriptions
  setup fuel card file memory = do
    leds ← ask (Hid.new hid_buzz hid_rld hid_bld)
    (store, leds1) ← pure (new_store card file (upload_prefix ++ memory) leds)
    scheduler ← subscriptions
    run (begin modem.sim900 gsm_rst gsm_npwd)
    run (write_text soft_serial client_name)
    run (pin_mode sc_ss 1)
    (card1, leds2) ←
        config_sd sd (write_text soft_serial (b'.' ∷ 0 ∷ [])) fuel sc_ss store.card
          (config_hid leds1)
    run (emit spi_began)
    run (sc_init sc_ss crystal)
    run (write_text soft_serial (b'I' ∷ b'n' ∷ b'i' ∷ b't' ∷ b'N' ∷ b'E' ∷ b'T' ∷ 0 ∷ []))
    pure (scheduler, constructed (record store { card = card1 }) leds2)

  module _ (locale : Locale) (before : ℕ) (run_guard : ℕ → Machine → State → Bool)
      (run_action : ℕ → Machine → Machine) where
    abbrev pub polled : ℕ → Master F H → M (Master F H)
    polled fuel s = do
      r ← poll_records (client before) (file_persistence sd soft_serial) locale fuel (polling s)
      pure (after_poll s r)

    -- What follows the poll.
    unfoldable pub then_upload : ℕ → Transition → Bool → Master F H → M (Master F H)
    then_upload fuel garbage closed s = do
      h ← lift (handle_connection_status run_guard run_action garbage s.handler)
      s1 ← pure (record s { handler = listen_to_modem h })
      u ← upload_from_persistence sd soft_serial modem locale fuel fuel closed (uploading s1)
      pure (after_upload s1 u)

    -- The body of `loop`.
    unfoldable pub loop : ℕ → Transition → Bool → Master F H → M (Master F H)
    unfolding then_upload
    loop fuel garbage closed s = polled fuel s >>= then_upload fuel garbage closed
