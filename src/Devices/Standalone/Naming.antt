-- ===== src/Devices/Standalone/Naming.antt =====
-- The name of the record file under the calls of the card reader.
use dread.Base.{ℕ, ◌≡◌, Bool, true, false, List, ◌==◌, if◌then◌else◌}
use dread.Hardware.{Port}
use dread.Persistence.Interface.{Stores, read_transaction, write_transaction}
use dread.Persistence.File.{
  FileStore, file_persistence, begin_transaction, commit_transaction, write_record, opened,
}
use dread.Persistence.File.Library.{SdLibrary}

IsNamed-if :
    {F H : Type 0} (name : List ℕ) (b : Bool) (x y : Bool × FileStore F H)
    → x.1.file_name ≡ name
    → y.1.file_name ≡ name
    → (if b then x else y).1.file_name ≡ name
IsNamed-if name true x y h h' = h
IsNamed-if name false x y h h' = h'

module _ {F H : Type 0} (sd : SdLibrary F H) (logger : Port) where
  -- No call of the persistence interface changes the name.
  pub named-Stores : (name : List ℕ) → Stores (file_persistence sd logger) (λ s. s.file_name ≡ name)
  unfolding file_persistence begin_transaction commit_transaction write_record
  named-Stores name = record {
    begins = λ t s h.
        let card1 = (sd.begin 10 s.card).1 in
        IsNamed-if name (t == read_transaction)
          (opened sd logger s (sd.open_file s.file_name sd.file_read card1)) _ h
          (IsNamed-if name (t == write_transaction)
            (opened sd logger s (sd.open_file s.file_name sd.file_write card1))
            (false, record s { card = card1 }) h h);
    writes = λ r n d s w h. h;
    commits = λ s h. h;
  }
