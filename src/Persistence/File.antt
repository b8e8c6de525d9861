-- ===== src/Persistence/File.antt =====
-- Support/FilePersistence/FilePersistence.cpp: the records in a file of an SD card. The SD library is a
-- parameter: what its calls do with the card and with an open file.
pub mod Library
pub mod Appending
pub mod Logging
pub mod Memory
pub mod Deprecating
mod Tests
use dread.Base.{ℕ, Bool, true, false, not, Option, List, [], ◌∷◌, ◌==◌, if◌then◌else◌, take, u8}
use dread.Hardware.{World, Port, write}
use dread.Hardware.Output.{println}
use dread.Hid.{Hid, set_led, lo_all, org_grn, blk_red}
use dread.Persistence.Interface.{Persistence, read_transaction, write_transaction}
use dread.Persistence.Filename.{generate_next_uid}
use dread.Persistence.File.Library.{SdLibrary}

abbrev pub persistence_filename_size : ℕ
persistence_filename_size = 13

abbrev pub sd_ss : ℕ
sd_ss = 10

pub record FileStore (F H : Type 0) : Type 0 where
  pub card : F
  pub file : H
  pub file_name : List ℕ

-- The constructor copies 13 bytes from `file_prefix` on, which a shorter array does not have: the argument
-- is the memory from there on.
unfoldable pub new_store : {F H : Type 0} → F → H → List ℕ → Hid → FileStore F H × Hid
new_store card file file_prefix leds = (
  record { card = card; file = file; file_name = take persistence_filename_size file_prefix },
  set_led org_grn leds,
)

-- What `writeRecord` gives to `write`, call by call. The record is converted to one byte.
abbrev pub record_parts : List ℕ → ℕ → List ℕ → ℕ → List (List ℕ)
record_parts file_name record_ datetime datetime_size =
    take 3 file_name
    ∷ (b'\t' ∷ [])
    ∷ (u8 record_ ∷ [])
    ∷ (b'\t' ∷ [])
    ∷ take datetime_size datetime
    ∷ (b'\t' ∷ [])
    ∷ take 3 file_name
    ∷ (b'\r' ∷ [])
    ∷ (b'\n' ∷ [])
    ∷ []

module _ {F H : Type 0} (sd : SdLibrary F H) (logger : Port) where
  unfoldable pub write_parts : List (List ℕ) → H × F → H × F
  write_parts [] x = x
  write_parts (b ∷ bs) (file, card) = write_parts bs (sd.write b file card)

  -- The result of `SD.exists` at the end is not used.
  unfoldable pub write_record : ℕ → List ℕ → ℕ → FileStore F H → World → FileStore F H × World
  unfolding write_parts
  write_record record_ datetime datetime_size s w =
      let (file1, card1) =
        write_parts (record_parts s.file_name record_ datetime datetime_size) (s.file, s.card) in
      let (file2, card2) = sd.close file1 card1 in
      let (found, card3) = sd.exists_file s.file_name card2 in
      (
        record s { card = card3; file = file2 },
        println logger (write logger b'v' (write logger b'S' w)),
      )

  abbrev pub opened : FileStore F H → H × F → Bool × FileStore F H
  opened s (file, card) = (sd.is_open file, record s { card = card; file = file })

  unfoldable pub begin_transaction : ℕ → FileStore F H → Bool × FileStore F H
  begin_transaction transaction s =
      let card1 = (sd.begin sd_ss s.card).1 in
      if transaction == read_transaction
      then opened s (sd.open_file s.file_name sd.file_read card1)
      else (if transaction == write_transaction
          then opened s (sd.open_file s.file_name sd.file_write card1)
          else (false, record s { card = card1 }))

  unfoldable pub commit_transaction : FileStore F H → FileStore F H
  commit_transaction s =
      let (file, card) = sd.close s.file s.card in record s { card = card; file = file }

  unfoldable pub get_filename : FileStore F H → List ℕ
  get_filename s = s.file_name

  unfoldable pub get_size : FileStore F H → ℕ
  get_size s = sd.size s.file s.card

  -- What follows the attempt to remove the file; the statements behind the last `return` are never
  -- reached.
  abbrev pub after_removal : Bool → FileStore F H → Hid → World → Bool × FileStore F H × Hid × World
  after_removal false s leds w = (
    true,
    record s { file_name = generate_next_uid s.file_name },
    set_led lo_all leds,
    println logger (write logger b'D' w),
  )
  after_removal true s leds w =
      (false, s, set_led blk_red leds, println logger (write logger b'*' (write logger b'U' w)))

  unfoldable pub deprecate_filename :
      FileStore F H → Hid → World → Bool × FileStore F H × Hid × World
  deprecate_filename s leds w =
      let w1 = println logger (write logger b'*' (write logger b'R' w)) in
      let card1 = (sd.remove s.file_name s.card).1 in
      let (found, card2) = sd.exists_file s.file_name card1 in
      after_removal found (record s { card = card2 }) leds w1

  -- FilePersistence as an implementation of the interface.
  unfoldable pub file_persistence : Persistence (FileStore F H)
  unfolding begin_transaction commit_transaction write_record get_size
  file_persistence = record {
    begin_transaction = begin_transaction;
    commit_transaction = commit_transaction;
    write_record = write_record;
    get_size = get_size;
    available = λ s. sd.available s.file s.card;
    read = λ s.
        let (b, file, card) = sd.read s.file s.card in (b, record s { card = card; file = file });
  }
