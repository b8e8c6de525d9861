-- ===== src/CardReader/Entering/Tests.antt =====
-- A device with a record book reads a card that answers every command.
use dread.Base.{◌≡◌, refl, true, some, replicate}
use dread.Hardware.{World}
use dread.Persistence.Interface.{store_one, write_transaction}
use dread.Persistence.Stream.{Stream, new}
use dread.Persistence.Book
use dread.Persistence.Book.{book}
use dread.CardReader.{Reading, record_of, read_and_store}
use dread.CardReader.Entering.{read_and_store-Follows}
use dread.CardReader.Entering.Commands.{Follows}
use dread.CardReader.Succeeding.{Cooperates, read_and_store-stores}
use dread.CardReader.Succeeding.Card.{
  near, rfid, key, year_four, before, cooperates, buffer_of, looked, date, dates,
}

abbrev device : Reading Stream
device = before (new (replicate 512 0) 512)

opens : (book.begin_transaction write_transaction device.store).0 ≡ true
unfolding book Book.begin_transaction
opens = refl

stored :
    (s' : Reading Stream) × (w' : World) × (read_and_store rfid book year_four 2 2
        (replicate 4 0)
        key
        device
        near
      ≡ some (s', w'))
    × ((v : World) × (s'.store
          ≡ (store_one book (record_of (buffer_of looked), date, 13) (device.store, v)).0))
stored =
    read_and_store-stores rfid book year_four 2 2 (replicate 4 0) key device near (buffer_of looked)
      date (cooperates device.store) opens dates

read_and_store-Follows_example :
    Follows rfid book year_four 2
      (Cooperates rfid 2 (replicate 4 0) key device near)
      device.store
      stored.0.store
read_and_store-Follows_example =
    read_and_store-Follows rfid book year_four 2 2 (replicate 4 0) key device stored.0 near stored.1
      stored.2
