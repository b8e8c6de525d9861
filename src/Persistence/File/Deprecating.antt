-- ===== src/Persistence/File/Deprecating.antt =====
-- What `deprecateFilename` makes of the file's name.
use dread.Base.{◌≤◌, ◌≡◌, ◌⊎◌, inl, inr, Bool-cases, refl, true, false, length}
use dread.Hardware.{World, Port}
use dread.Hid.{Hid}
use dread.Persistence.Filename.Counting.{IsName, Succeeds, generate_next_uid-Succeeds}
use dread.Persistence.File.Library.{SdLibrary}
use dread.Persistence.File.{FileStore, deprecate_filename}

module _ {F H : Type 0} (sd : SdLibrary F H) (logger : Port) where
  -- If the library does not find the file any more after its removal, the result is true and the name is
  -- the one that follows: bytes 3 to 7, which have to be digits or capital letters of a name of at
  -- least eight bytes, count up by one in base 36, or from the greatest number to 0, and all other
  -- bytes stay. Else the result is false and the name stays.
  pub deprecate_filename-counts :
      (s : FileStore F H) (leds : Hid) (w : World)
      → 8 ≤ length s.file_name
      → IsName 5 s.file_name
      → let found = (sd.exists_file s.file_name (sd.remove s.file_name s.card).1).0 in
        let r = deprecate_filename sd logger s leds w in
        ((found ≡ false) × (r.0 ≡ true) × Succeeds s.file_name r.1.file_name)
        ⊎ ((found ≡ true) × (r.0 ≡ false) × (r.1.file_name ≡ s.file_name))
  unfolding deprecate_filename
  deprecate_filename-counts s leds w l h =
      let found = (sd.exists_file s.file_name (sd.remove s.file_name s.card).1).0 in
      elim (Bool-cases found) [
        | inl e ↦ inr (rw e (refl, refl, refl))
        | inr e ↦ inl (rw e (refl, refl, generate_next_uid-Succeeds s.file_name l h))
      ]
