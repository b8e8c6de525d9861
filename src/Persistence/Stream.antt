-- ===== src/Persistence/Stream.antt =====
-- Support/Persistence/Stream.h: a ring buffer behind the interface of a `Print`.
pub mod Fifo
pub mod Overflow
mod Tests
use dread.Base.{
  ℕ, zero, suc, ◌+◌, ◌-◌, Bool, true, false, Option, none, some, List, [], ◌∷◌, ◌==◌, ltb, u8, u16,
  if◌then◌else◌, get_or, set, bit_and,
}

-- `write_error` is the field that Utilities/Print.h adds.
pub record Stream : Type 0 where
  pub buffer : List ℕ
  pub mask : ℕ
  pub hd : ℕ
  pub tl : ℕ
  pub write_error : Bool

abbrev pub new : List ℕ → ℕ → Stream
new buffer mask = record { buffer = buffer; mask = mask; hd = 0; tl = 0; write_error = false }

-- `(i + 1) & (mask - 1)`
unfoldable pub next : Stream → ℕ → ℕ
next s i = bit_and (i + 1) (s.mask - 1)

-- `none` is the -1 of the source, and `some` a byte: as a `char` it may be negative, and its callers
-- convert it back.
unfoldable pub read : Stream → Option ℕ × Stream
unfolding next
read s =
    if s.hd == s.tl
    then (none, s)
    else (some (get_or s.buffer s.hd 0), record s { hd = next s s.hd })

-- The byte is written in any case; the index that is full is only noted.
unfoldable pub write : ℕ → Stream → Stream
unfolding next
write n s = record s {
  buffer = set s.buffer s.tl (u8 n);
  tl = next s s.tl;
  write_error = if s.hd == next s s.tl then true else s.write_error;
}

-- `write(buffer, size)`, which stops at the first error.
unfoldable pub write_all : List ℕ → Stream → Stream
write_all [] s = s
write_all (b ∷ bs) s = let rest = write_all bs (write b s) in if s.write_error then s else rest

unfoldable pub available : Stream → ℕ
available s = if ltb s.tl s.hd then s.mask - s.hd + s.tl else s.tl - s.hd

unfoldable pub flush : Stream → Stream
flush s = record s { hd = 0; tl = 0 }
