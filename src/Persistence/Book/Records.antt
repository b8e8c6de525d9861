-- ===== src/Persistence/Book/Records.antt =====
-- What becomes of the records that are written to the book.
use dread.Base.{ℕ, ◌≡◌, refl, sym, subst, ap, ◌∙◌, false, List, [], ◌∷◌}
use dread.Hardware.{World}
use dread.Persistence.Interface.{Entry, Stores, store_one, store_all}
use dread.Persistence.Stream.{Stream}
use dread.Persistence.Book.{book, begin_transaction, commit_transaction, write_record}

-- A book in which no write error is noted, and that is the one given.
abbrev pub IsBook : Stream → Stream → Type 0
IsBook b s = (s ≡ b) × (s.write_error ≡ false)

write_record-dropped :
    (r n : ℕ) (d : List ℕ) (s : Stream) (w : World)
    → s.write_error ≡ false
    → write_record r d n s w ≡ (s, w)
unfolding write_record
write_record-dropped r n d s w h = rw h refl

-- Nothing that a client does with such a book changes it.
pub book-Stores : (b : Stream) → Stores book (IsBook b)
unfolding book begin_transaction commit_transaction
book-Stores b = record {
  begins = λ t s h. h;
  writes = λ r n d s w h. subst (λ x. IsBook b x.0) (sym (write_record-dropped r n d s w h.1)) h;
  commits = λ s h. h;
}

store_one-book :
    (e : Entry) (s : Stream) (w : World) → s.write_error ≡ false → store_one book e (s, w) ≡ (s, w)
unfolding store_one book begin_transaction commit_transaction write_record
store_one-book (r, d, n) s w h = rw h refl

-- As long as no write error is noted, which holds of a new book, no sequence of records that is stored
-- through the interface changes it: every record is dropped.
pub store_all-book :
    (es : List Entry) (s : Stream) (w : World)
    → s.write_error ≡ false
    → store_all book es (s, w) ≡ (s, w)
unfolding store_all
store_all-book [] s w h = refl
store_all-book (e ∷ es) s w h =
    ap (store_all book es) (store_one-book e s w h) ∙ store_all-book es s w h
