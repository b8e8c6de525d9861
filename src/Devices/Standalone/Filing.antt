-- ===== src/Devices/Standalone/Filing.antt =====
-- From a card to the record file of a standalone device.
use dread.Base.{ℕ, ◌≤◌, length, ◌≡◌, sym, ap, subst, Bool, true, some, List}
use dread.Hardware.{World}
use dread.Hardware.Monad.{bind_run, pure}
use dread.Locale.{Locale, get_date_time}
use dread.Fsm.{Machine, State, Transition}
use dread.Persistence.Interface.{write_transaction}
use dread.Persistence.File.{FileStore, file_persistence, begin_transaction, sd_ss}
use dread.Persistence.File.Library.{SdLibrary, Appends}
use dread.Persistence.File.Appending.{line, Grows, store_one-Grows}
use dread.CardReader.{record_of}
use dread.CardReader.Succeeding.{Cooperates, read_and_store-stores}
use dread.Devices.{soft_serial, mfr_key}
use dread.Devices.Standalone.{Standalone, at_card, at_status, rfid, reading, after_reading, step}

module _ {F H : Type 0} (sd : SdLibrary F H) (laws : Appends sd) (locale : Locale)
    (run_guard : ℕ → Machine → State → Bool) (run_action : ℕ → Machine → Machine) where
  opens-file :
      (s : FileStore F H)
      → sd.is_open (sd.open_file s.file_name sd.file_write (sd.begin sd_ss s.card).1).0 ≡ true
      → ((file_persistence sd soft_serial).begin_transaction write_transaction s).0 ≡ true
  unfolding file_persistence begin_transaction
  opens-file s e = e

  -- A card in front of a standalone device becomes a line of its record file: if the card answers every
  -- command, its serial number is the one that was read last, the date fits its buffer, the SD library
  -- opens the file, and the card takes the bytes of the line before it is full or fails, then this
  -- call of `loop` returns, and the file of the store's name has one line more, that of the block's
  -- first four bytes and the date, while the name and all files with another entry in the directory
  -- stay as they were.
  pub step-Grows :
      (fuel garbage : ℕ) (stack : List ℕ) (unset : Transition) (closed : Bool) (s : Standalone F H)
      (w : World) (block d : List ℕ)
      → Cooperates rfid garbage stack mfr_key (reading s) w block
      → get_date_time locale block ≡ some d
      → sd.is_open
          (sd.open_file s.persistence.file_name sd.file_write
            (sd.begin sd_ss s.persistence.card).1).0
        ≡ true
      → length (line s.persistence.file_name (record_of block, d, 13))
        ≤ laws.takes s.persistence.card s.persistence.file_name
      → (s' : Standalone F H) × (w' : World) × (step sd locale run_guard run_action fuel garbage
            stack unset closed at_card s w
          ≡ some ((at_status, s'), w'))
        × Grows sd soft_serial laws
            (line s.persistence.file_name (record_of block, d, 13))
            s.persistence
            s'.persistence
  unfolding step
  step-Grows fuel garbage stack unset closed s w block d x date opens fits =
      let p = file_persistence sd soft_serial in
      let (r, w', e, (v, stored)) =
        read_and_store-stores rfid p locale soft_serial garbage stack mfr_key (reading s) w block d
          x (opens-file s.persistence opens) date in
      (
        after_reading s r,
        w',
        ap (λ o. bind_run (bind_run o (λ r. pure (after_reading s r))) (λ s1. pure (at_status, s1)))
            e,
        subst
            (Grows sd soft_serial laws (line s.persistence.file_name (record_of block, d, 13))
              s.persistence)
            (sym stored)
            (store_one-Grows sd soft_serial laws (record_of block, d, 13) s.persistence v opens
              fits),
      )
