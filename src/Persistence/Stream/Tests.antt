-- ===== src/Persistence/Stream/Tests.antt =====
-- Runs of the record book's ring buffer.
use dread.Base.{◌≡◌, ◌<◌, refl, true, false, [], ◌∷◌, ◌++◌, replicate, arith}
use dread.Persistence.Stream.{Stream, new, write, available}
use dread.Persistence.Stream.Fifo.{IsValid, contents, segment, write-contents}
use dread.Persistence.Stream.Overflow.{write-full}

abbrev empty_book : Stream
empty_book = new (replicate 512 0) 512

empty_book-IsValid : IsValid empty_book
empty_book-IsValid = (refl, refl, omega arith, omega arith)

-- A book whose indices are about to wrap around.
abbrev late_book : Stream
late_book = record empty_book { hd = 511; tl = 511 }

late_book-IsValid : IsValid late_book
late_book-IsValid = (refl, refl, omega arith, omega arith)

abbrev full_book : Stream
full_book = record empty_book { hd = 5; tl = 4 }

late_book-room : available late_book < 511
unfolding available
late_book-room = omega arith

full_book-full : available full_book ≡ 511
unfolding available
full_book-full = refl

wraps_around : contents (write 8 (write 7 late_book)) ≡ 7 ∷ 8 ∷ []
unfolding contents write segment available
wraps_around = refl

write-contents_example :
    (contents (write 300 late_book) ≡ contents late_book ++ (44 ∷ []))
    × ((write 300 late_book).write_error ≡ false)
    × IsValid (write 300 late_book)
write-contents_example = write-contents late_book 300 late_book-IsValid late_book-room

write-full_example : ((write 9 full_book).write_error ≡ true) × (contents (write 9 full_book) ≡ [])
write-full_example = write-full full_book 9 (refl, refl, omega arith, omega arith) full_book-full
