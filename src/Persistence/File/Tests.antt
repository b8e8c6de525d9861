-- ===== src/Persistence/File/Tests.antt =====
-- A store on an SD card in memory.
use dread.Base.{
  length, ◌≤◌, zero, suc, ◌≡◌, ◌⊎◌, inl, inr, refl, true, false, none, List, [], ◌∷◌, arith,
}
use dread.Hardware.{World}
use dread.Hid.{Hid}
use dread.Persistence.Interface.{Entry, store_all}
use dread.Persistence.Filename.Counting.{IsName, Succeeds}
use dread.Persistence.File.{FileStore, file_persistence, deprecate_filename}
use dread.Persistence.File.Appending.{Grows, line, lines, store_all-Grows}
use dread.Persistence.File.Deprecating.{deprecate_filename-counts}
use dread.Persistence.File.Memory.{Card, Open, sd, sd-Appends, takes-room}

abbrev idle : World
idle = record {
  clock = λ n. n;
  arrivals = λ n p. [];
  replies = λ n. 0;
  ticks = 0;
  polls = 0;
  transfers = 0;
  rx = λ p. [];
  trace = [];
}

-- "I1Z0019Z", with two records
abbrev disk : FileStore Card Open
disk = record {
  card = ((λ n. b'x' ∷ []), 100);
  file = none;
  file_name = b'I' ∷ b'1' ∷ b'Z' ∷ b'0' ∷ b'0' ∷ b'1' ∷ b'9' ∷ b'Z' ∷ [];
}

abbrev entries : List Entry
entries = (1000, b'1' ∷ b'4' ∷ [], 2) ∷ (7, [], 13) ∷ []

-- 1000 is 232 as a byte.
first_line :
    line disk.file_name (1000, b'1' ∷ b'4' ∷ [], 2)
    ≡ b'I' ∷ b'1' ∷ b'Z' ∷ b'\t' ∷ 232 ∷ b'\t' ∷ b'1' ∷ b'4' ∷ b'\t' ∷ b'I' ∷ b'1' ∷ b'Z' ∷ b'\r'
      ∷ b'\n' ∷ []
unfolding line
first_line = refl

fits : length (lines disk.file_name entries) ≤ sd-Appends.takes disk.card disk.file_name
unfolding lines line
fits = rw (takes-room disk.card disk.file_name) (omega arith)

store_all-Grows_example :
    Grows sd 2 sd-Appends
      (lines disk.file_name entries)
      disk
      (store_all (file_persistence sd 2) entries (disk, idle)).0
store_all-Grows_example = store_all-Grows sd 2 sd-Appends entries disk idle (λ f. refl) fits

abbrev leds : Hid
leds = record { buzz_pin = 1; red_led_pin = 2; greenblue_led_pin = 3; led_register = 0 }

disk-IsName : IsName 5 disk.file_name
disk-IsName zero l = inl (omega arith, omega arith)
disk-IsName (suc zero) l = inl (omega arith, omega arith)
disk-IsName (suc (suc zero)) l = inl (omega arith, omega arith)
disk-IsName (suc (suc (suc zero))) l = inl (omega arith, omega arith)
disk-IsName (suc (suc (suc (suc zero)))) l = inr (omega arith, omega arith)
disk-IsName (suc (suc (suc (suc (suc j))))) l = absurd (omega arith)

deprecate_filename-counts_example :
    let r = deprecate_filename sd 2 disk leds idle in
    ((false ≡ false) × (r.0 ≡ true) × Succeeds disk.file_name r.1.file_name)
    ⊎ ((false ≡ true) × (r.0 ≡ false) × (r.1.file_name ≡ disk.file_name))
deprecate_filename-counts_example =
    deprecate_filename-counts sd 2 disk leds idle (omega arith) disk-IsName
