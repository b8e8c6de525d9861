-- ===== src/CardReader/Tests.antt =====
-- A card that answers the request, and then no more.
use dread.Base.{◌≡◌, ◌⊎◌, refl, Option, none, some, [], ◌∷◌, replicate, ltb, if◌then◌else◌}
use dread.Hardware.{World}
use dread.Hid.{failure_chime, unlock, set_led, register_set}
use dread.Locale.{Locale}
use dread.Mifare.{
  MifareLite, request, anticoll, to_card, conclude, receive, read_fifo, write_fifo, poll,
  read_mfrc522, write_mfrc522, set_bit_mask, clear_bit_mask, irq_en_of, wait_irq_of,
}
use dread.Persistence.Stream.{Stream, new}
use dread.Persistence.Book.{book}
use dread.CardReader.{Reading, same_bytes, read_and_store, identify, announce}
use dread.CardReader.Storing.{read_and_store-last}

abbrev silent : World
silent = record {
  clock = λ n. n;
  arrivals = λ n p. [];
  replies = λ n. if ltb n 30 then 0x20 else (if ltb n 32 then 2 else 0);
  ticks = 0;
  polls = 0;
  transfers = 0;
  rx = λ p. [];
  trace = [];
}

abbrev rfid : MifareLite
rfid = record { pin_slave_select = 10; pin_reset = 9 }

abbrev clock : Locale
clock = record { secs = 0; mins = 0; hrs = 0; days = 1; months = 1; year = 14 }

abbrev before : Reading Stream
before = record {
  serial = replicate 5 0;
  last_serial = 1 ∷ 2 ∷ 3 ∷ 4 ∷ 5 ∷ [];
  buffer = replicate 16 0;
  store = new (replicate 512 0) 512;
  leds = record { buzz_pin = 1; red_led_pin = 2; greenblue_led_pin = 3; led_register = 0 };
}

abbrev result_of : Option (Reading Stream × World) → Reading Stream × World
result_of none = (before, silent)
result_of (some r) = r

abbrev looked : Reading Stream × World
looked =
    result_of (read_and_store rfid book clock 2 0 (replicate 4 0) (replicate 6 0) before silent)

looked_lem :
    read_and_store rfid book clock 2 0 (replicate 4 0) (replicate 6 0) before silent ≡ some looked
unfolding read_and_store identify announce request anticoll to_card conclude receive read_fifo
    write_fifo poll read_mfrc522 write_mfrc522 set_bit_mask clear_bit_mask irq_en_of wait_irq_of
    failure_chime unlock set_led register_set same_bytes
looked_lem = refl

read_and_store-last_example :
    ((looked.0.store ≡ before.store) ⊎ (looked.0.serial ≡ before.last_serial))
    × ((looked.0.last_serial ≡ before.last_serial) ⊎ (looked.0.last_serial ≡ looked.0.serial))
read_and_store-last_example =
    read_and_store-last rfid book clock 2 0 (replicate 4 0) (replicate 6 0) before looked.0 silent
      looked.1 looked_lem
