-- ===== src/Persistence/File/Library.antt =====
-- The calls of the SD library, over what they know of the card (F) and of an open file (H).
use dread.Base.{ℕ, ◌+◌, ◌≤◌, ◌≡◌, ◌≢◌, Bool, true, Option, List, ◌++◌, length}

-- A name is a C string: the library reads the bytes in front of its first 0.
pub record SdLibrary (F H : Type 0) : Type 0 where
  pub file_read : ℕ
  pub file_write : ℕ
  pub begin : ℕ → F → Bool × F
  pub open_file : List ℕ → ℕ → F → H × F
  pub is_open : H → Bool
  pub exists_file : List ℕ → F → Bool × F
  pub remove : List ℕ → F → Bool × F
  pub write : List ℕ → H → F → H × F
  pub close : H → F → H × F
  pub size : H → F → ℕ
  pub available : H → F → ℕ
  pub read : H → F → Option ℕ × H × F

-- What the library documents of a file that is opened by `FILE_WRITE`: it is written to at its end, unless the
-- card is full or fails. `contents` are the bytes of the file with a name, the library's cache
-- included; `key` is the entry of the directory that it makes of a name; `takes` is a number of
-- bytes that the file with a name takes at least until a write fails, and of a write that fails
-- nothing is known;
-- and `Writes` says that a file is open for this.
pub record Appends {F H : Type 0} (sd : SdLibrary F H) : Type 1 where
  pub contents : F → List ℕ → List ℕ
  pub key : List ℕ → List ℕ
  pub takes : F → List ℕ → ℕ
  pub Writes : H → F → List ℕ → Type 0
  pub begin-contents : (pin : ℕ) (f : F) (n : List ℕ) → contents (sd.begin pin f).1 n ≡ contents f n
  pub begin-takes : (pin : ℕ) (f : F) (n : List ℕ) → takes f n ≤ takes (sd.begin pin f).1 n
  pub open-contents :
      (m : List ℕ) (f : F) (n : List ℕ)
      → contents (sd.open_file m sd.file_write f).1 n ≡ contents f n
  pub open-takes :
      (m : List ℕ) (f : F) (n : List ℕ) → takes f n ≤ takes (sd.open_file m sd.file_write f).1 n
  pub open-Writes :
      (m : List ℕ) (f : F)
      → sd.is_open (sd.open_file m sd.file_write f).0 ≡ true
      → Writes (sd.open_file m sd.file_write f).0 (sd.open_file m sd.file_write f).1 m
  pub write-contents :
      (b : List ℕ) (h : H) (f : F) (n : List ℕ)
      → Writes h f n
      → length b ≤ takes f n
      → contents (sd.write b h f).1 n ≡ contents f n ++ b
  pub write-takes :
      (b : List ℕ) (h : H) (f : F) (n : List ℕ)
      → Writes h f n
      → length b ≤ takes f n
      → takes f n ≤ takes (sd.write b h f).1 n + length b
  pub write-others :
      (b : List ℕ) (h : H) (f : F) (n m : List ℕ)
      → Writes h f n
      → length b ≤ takes f n
      → key m ≢ key n
      → contents (sd.write b h f).1 m ≡ contents f m
  pub write-Writes :
      (b : List ℕ) (h : H) (f : F) (n : List ℕ)
      → Writes h f n
      → length b ≤ takes f n
      → Writes (sd.write b h f).0 (sd.write b h f).1 n
  pub close-contents : (h : H) (f : F) (n : List ℕ) → contents (sd.close h f).1 n ≡ contents f n
  pub close-takes : (h : H) (f : F) (n : List ℕ) → takes f n ≤ takes (sd.close h f).1 n
  pub exists-contents :
      (m : List ℕ) (f : F) (n : List ℕ) → contents (sd.exists_file m f).1 n ≡ contents f n
  pub exists-takes : (m : List ℕ) (f : F) (n : List ℕ) → takes f n ≤ takes (sd.exists_file m f).1 n
