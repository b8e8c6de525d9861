-- ===== src/Devices/Master/Tests.antt =====
-- A master calls its loop once.
use dread.Base.{
  ℕ, ◌≡◌, refl, true, Option, none, some, List, [], ◌∷◌, ◌++◌, ◌==◌, replicate, if◌then◌else◌,
}
use dread.Hardware.{World}
use dread.Hardware.Monad.{◌>>=◌}
use dread.Hid.{set_led, register_set}
use dread.Net.Manager
use dread.Net.Manager.{
  available_addresses, first_nonzero, next_address, scan, get_free_address, get_address,
}
use dread.Net.Socket.{process, listen_msg, await_header, collect, listen_code, int_elapsed, send}
use dread.Connection.{new_handler, handle_connection_status}
use dread.Modem.{is_connected}
use dread.Gateway.Client.{
  handle_response, handle_put_address, handle_get_record, send_ack, poll_records, scan_net,
  request_record, after_response, with_next,
}
use dread.DreadClient.{upload_from_persistence}
use dread.Devices.Master
use dread.Devices.Master.Running as MasterRunning
use dread.Persistence.Interface.{Entry}
use dread.Persistence.File.Logging.{Logs}
use dread.Persistence.File.Memory.{Card, Open, sd, sd-Appends}
use dread.Devices.Master.Recording.{Runs-Logged, RunStores}
use dread.Devices.Tests.{silent, clock, leds, no_guard, no_action, unset, disk}

abbrev master : Master.Master Card Open
master = Master.constructed disk leds

abbrev master_of : Option (Master.Master Card Open × World) → Master.Master Card Open × World
master_of none = (master, silent)
master_of (some r) = r

master_handler : master.handler ≡ new_handler
unfolding Master.constructed
master_handler = refl

loop-polls_example :
    Master.loop sd clock 0 no_guard no_action 8 unset true master silent
    ≡ (Master.polled sd clock 0 no_guard no_action 8 master
          >>= MasterRunning.idle sd clock 0 no_guard no_action)
        silent
loop-polls_example =
    MasterRunning.loop-polls sd clock 0 no_guard no_action 8 unset true master silent master_handler

-- A slave with the address 7 answers the offer of an address.
abbrev put_message : List ℕ
put_message = 64 ∷ 7 ∷ 1 ∷ 0 ∷ (replicate 16 0 ++ (33 ∷ []))

abbrev answering : World
answering = record silent { clock = λ n. n; arrivals = λ n p. if n == 0 then put_message else [] }

abbrev met : Master.Master Card Open × World
met = master_of (Master.loop sd clock 0 no_guard no_action 22 unset true master answering)

met_lem : Master.loop sd clock 0 no_guard no_action 22 unset true master answering ≡ some met
unfolding Master.loop Master.then_upload Master.constructed new_handler handle_connection_status
    upload_from_persistence poll_records scan_net available_addresses first_nonzero request_record
    after_response with_next next_address scan get_free_address get_address Manager.new process
    listen_msg await_header collect listen_code int_elapsed send set_led register_set is_connected
    handle_response handle_put_address handle_get_record send_ack
met_lem = refl

met-Runs : MasterRunning.Runs sd clock 0 no_guard no_action disk met.0 met.1
met-Runs =
    MasterRunning.Runs.looped 22 unset true master met.0 answering met.1
      (MasterRunning.Runs.started leds answering) met_lem

Runs-Logged_example :
    (es : List Entry) × RunStores sd clock 0 no_guard no_action met-Runs es
    × Logs sd 2 sd-Appends es disk met.0.persistence
Runs-Logged_example = Runs-Logged sd clock 0 no_guard no_action sd-Appends disk met.0 met.1 met-Runs
