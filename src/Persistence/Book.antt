-- ===== src/Persistence/Book.antt =====
-- Support/Persistence/NonPersistence.cpp: the records in a ring buffer, as the slave keeps them.
pub mod Records
use dread.Base.{ℕ, Bool, true, not, Option, none, some, List, [], ◌∷◌, if◌then◌else◌, take}
use dread.Hardware.{World}
use dread.Persistence.Interface.{Persistence}
use dread.Persistence.Stream
use dread.Persistence.Stream.{Stream, write, write_all, new}

unfoldable pub non_persistence : List ℕ → ℕ → Stream
non_persistence buffer size = new buffer size

unfoldable pub begin_transaction : ℕ → Stream → Bool × Stream
begin_transaction transaction s = (not s.write_error, s)

unfoldable pub commit_transaction : Stream → Stream
commit_transaction s = s

-- The guard is the source's: it returns while there is no error.
unfoldable pub write_record : ℕ → List ℕ → ℕ → Stream → World → Stream × World
write_record record_ datetime datetime_size s w =
    let s1 = write b'\t' (write record_ s) in
    let s2 = write b'\n' (write_all (take datetime_size datetime) s1) in
    (if not s.write_error then s else s2, w)

unfoldable pub get_size : Stream → ℕ
get_size s = Stream.available s

-- NonPersistence as an implementation of the interface.
unfoldable pub book : Persistence Stream
unfolding begin_transaction commit_transaction write_record get_size
book = record {
  begin_transaction = begin_transaction;
  commit_transaction = commit_transaction;
  write_record = write_record;
  get_size = get_size;
  available = Stream.available;
  read = Stream.read;
}
