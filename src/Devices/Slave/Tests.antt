-- ===== src/Devices/Slave/Tests.antt =====
-- A slave calls its loop once.
use dread.Base.{ℕ, ◌≡◌, refl, true, Option, none, some, replicate}
use dread.Hardware.{World}
use dread.Hid.{set_led, register_set, failure_chime, unlock}
use dread.Net.Socket.{process, listen_msg, await_header, collect, listen_code, int_elapsed, send}
use dread.Mifare.{
  request, anticoll, to_card, conclude, receive, read_fifo, write_fifo, poll, read_mfrc522,
  write_mfrc522, set_bit_mask, clear_bit_mask, irq_en_of, wait_irq_of,
}
use dread.Persistence.Book.{book, non_persistence}
use dread.CardReader.{read_and_store, identify, announce, same_bytes}
use dread.Gateway.Router.{register_service, listen_request}
use dread.Gateway.Server.{listen}
use dread.Devices.Slave
use dread.Devices.Slave.Running as SlaveRunning
use dread.Devices.Tests.{silent, clock, leds}

abbrev slave_of : Option (Slave.Slave × World) → Slave.Slave × World
slave_of none = (Slave.constructed leds, silent)
slave_of (some r) = r

abbrev slave_looped : Slave.Slave × World
slave_looped =
    slave_of
      (Slave.loop clock 0 8 0 (replicate 4 0) (replicate 20 0) (Slave.constructed leds) silent)

slave_looped_lem :
    Slave.loop clock 0 8 0 (replicate 4 0) (replicate 20 0) (Slave.constructed leds) silent
    ≡ some slave_looped
unfolding Slave.loop Slave.constructed non_persistence read_and_store identify announce request
    anticoll to_card conclude receive read_fifo write_fifo poll read_mfrc522 write_mfrc522
    set_bit_mask clear_bit_mask irq_en_of wait_irq_of failure_chime unlock set_led register_set
    same_bytes listen register_service listen_request listen_msg await_header collect listen_code
    int_elapsed send process
slave_looped_lem = refl

slave_Runs : SlaveRunning.Runs clock 0 slave_looped.0 slave_looped.1
slave_Runs =
    SlaveRunning.Runs.looped 8 0 (replicate 4 0) (replicate 20 0) (Slave.constructed leds)
      slave_looped.0 silent slave_looped.1 (SlaveRunning.Runs.started leds silent) slave_looped_lem

Runs-IsBook_example :
    (slave_looped.0.store ≡ non_persistence (replicate 512 0) 512)
    × (book.available slave_looped.0.store ≡ 0)
    × ((t : ℕ) → (book.begin_transaction t slave_looped.0.store).0 ≡ true)
Runs-IsBook_example = SlaveRunning.Runs-IsBook clock 0 slave_looped.0 slave_looped.1 slave_Runs
