-- ===== src/Gateway/Server/Records.antt =====
-- The slave's record book as the reader that the session loop relies on.
use dread.Base.{
  ℕ, zero, suc, ◌+◌, ◌%◌, ◌≡◌, refl, sym, ap, ◌∙◌, inl, inr, Option, List, [], ◌∷◌, map, length, u8,
  get_or, drop,
}
use dread.Persistence.Interface.{byte_of}
use dread.Persistence.Stream.{Stream, read, available}
use dread.Persistence.Stream.Fifo.{
  IsValid, contents, segment, Reads, read-Reads, read-IsValid, read-available,
}
use dread.Persistence.Book.{book}
use dread.Gateway.Server.Session.{Reader}
use dread.Gateway.Server.Lines.{Viewed}

pub book-Reader : Reader book IsValid
unfolding book
book-Reader = record { keeps = read-IsValid; counts = read-available }

-- The bytes that the book gives, as `uint8_t`.
unfoldable pub bytes : Stream → List ℕ
bytes s = map u8 (contents s)

length-bytes : (buffer : List ℕ) (i n : ℕ) → n ≡ length (map u8 (segment buffer i n))
unfolding segment
length-bytes buffer i zero = refl
length-bytes buffer i (suc n) = ap suc (length-bytes buffer ((i + 1) % 512) n)

module _ (s : Stream) (b : ℕ) (bs : List ℕ) where
  byte-read :
      (r : Option ℕ × Stream) → Reads s r → bytes s ≡ b ∷ bs → (byte_of r.0 ≡ b) × (bytes r.1 ≡ bs)
  unfolding Reads bytes
  byte-read (o, s') (v, inl (e, n, same)) h = let z : [] ≡ b ∷ bs = sym (ap (map u8) e) ∙ h in cc
  byte-read (o, s') (v, inr (b', e, c)) h =
      let both : u8 b' ∷ map u8 (contents s') ≡ b ∷ bs = sym (ap (map u8) c) ∙ h in
      (ap byte_of e ∙ ap (λ l. get_or l 0 0) both, ap (drop 1) both)

pub book-Viewed : Viewed book IsValid bytes
unfolding book bytes contents
book-Viewed = record {
  keeps = read-IsValid;
  waits = λ st f. length-bytes st.buffer st.hd (available st);
  reads = λ st b bs f e. byte-read st b bs (read st) (read-Reads st f) e;
}
