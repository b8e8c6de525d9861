-- ===== src/Persistence/File/Memory.antt =====
-- An SD card that is a function from names to bytes and a number of free bytes, with the laws of the library.
use dread.Base.{
  ℕ, ◌-◌, ◌≤◌, [], ◌∷◌, ◌==◌, ◌&&◌, leb, length, arith, ◌≡◌, ◌≢◌, inl, inr, refl, ap, ◌∙◌, Bool,
  true, false, Option, none, some, List, ◌++◌, if◌then◌else◌, Bool-cases,
}
use dread.CardReader.{same_bytes}
use dread.CardReader.Progress.{same_bytes-≡, same_bytes_refl}
use dread.Persistence.File.Library.{SdLibrary, Appends}

-- The files by the entries of their names, and the room that is left.
abbrev pub Card : Type 0
Card = (List ℕ → List ℕ) × ℕ

-- An open file is its name.
abbrev pub Open : Type 0
Open = Option (List ℕ)

-- The entry of a name: its bytes in front of the first 0, with capital letters.
abbrev pub entry : List ℕ → List ℕ
entry [] = []
entry (b ∷ bs) =
    let rest = entry bs in
    let upper = if leb 97 b && leb b 122 then b - 32 else b in if b == 0 then [] else upper ∷ rest

abbrev pub more : List ℕ → List ℕ → Card → Card
more b n card =
    ((λ m. if same_bytes (entry m) (entry n) then card.0 m ++ b else card.0 m), card.1 - length b)

-- A write for which there is no room writes nothing, and no later one does.
abbrev pub write_to : List ℕ → Open → Card → Open × Card
write_to b none card = (none, card)
write_to b (some n) card =
    if leb (length b) card.1 then (some n, more b n card) else (some n, (card.0, 0))

abbrev pub is_some : Open → Bool
is_some none = false
is_some (some n) = true

abbrev pub sd : SdLibrary Card Open
sd = record {
  file_read = 1;
  file_write = 19;
  begin = λ pin card. (true, card);
  open_file = λ n mode card. (some n, card);
  is_open = is_some;
  exists_file = λ n card. (false, card);
  remove = λ n card. (true, card);
  write = write_to;
  close = λ h card. (none, card);
  size = λ h card. 0;
  available = λ h card. 0;
  read = λ h card. (none, h, card);
}

differ : (m n : List ℕ) → m ≢ n → same_bytes m n ≡ false
differ m n ne = elim (Bool-cases (same_bytes m n)) [
  | inl e ↦ absurd (ne (same_bytes-≡ m n e))
  | inr e ↦ e
]

write-fits :
    (b : List ℕ) (h : Open) (f : Card) (n : List ℕ)
    → h ≡ some n
    → length b ≤ f.1
    → sd.write b h f ≡ (some n, more b n f)
write-fits b h f n e l =
    let fits : leb (length b) f.1 ≡ true = ground (arith, l) in
    ap (λ o. sd.write b o f) e ∙ rw fits refl

pub sd-Appends : Appends sd
sd-Appends = record {
  contents = λ card n. card.0 n;
  key = entry;
  takes = λ card n. card.1;
  Writes = λ h card n. h ≡ some n;
  begin-contents = λ pin f n. refl;
  begin-takes = λ pin f n. omega arith;
  open-contents = λ m f n. refl;
  open-takes = λ m f n. omega arith;
  open-Writes = λ m f e. refl;
  write-contents = λ b h f n e l.
      ap (λ r. r.1.0 n) (write-fits b h f n e l)
      ∙ ap (λ t. if t then f.0 n ++ b else f.0 n) (same_bytes_refl (entry n));
  write-takes =
      λ b h f n e l. let left = ap (λ r. r.1.1) (write-fits b h f n e l) in omega (arith, left, l);
  write-others = λ b h f n m e l ne.
      ap (λ r. r.1.0 m) (write-fits b h f n e l)
      ∙ ap (λ t. if t then f.0 m ++ b else f.0 m) (differ (entry m) (entry n) ne);
  write-Writes = λ b h f n e l. ap (λ r. r.0) (write-fits b h f n e l);
  close-contents = λ h f n. refl;
  close-takes = λ h f n. omega arith;
  exists-contents = λ m f n. refl;
  exists-takes = λ m f n. omega arith;
}

pub takes-room : (f : Card) (n : List ℕ) → sd-Appends.takes f n ≡ f.1
unfolding sd-Appends
takes-room f n = refl
