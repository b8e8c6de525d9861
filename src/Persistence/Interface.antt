-- ===== src/Persistence/Interface.antt =====
-- Support/Persistence/Persistence.h: the abstract class that the card reader and the gateway take, and
-- the order in which they call it.
use dread.Base.{ℕ, Bool, Option, none, some, u8, List, [], ◌∷◌, if◌then◌else◌}
use dread.Hardware.{World}

-- `class Persistence`, over the type of its state; `available` and `read` are those of the reader that
-- `getReader` returns.
pub record Persistence (S : Type 0) : Type 0 where
  pub begin_transaction : ℕ → S → Bool × S
  pub commit_transaction : S → S
  pub write_record : ℕ → List ℕ → ℕ → S → World → S × World
  pub get_size : S → ℕ
  pub available : S → ℕ
  pub read : S → Option ℕ × S

abbrev pub read_transaction : ℕ
read_transaction = 0

abbrev pub write_transaction : ℕ
write_transaction = 1

-- What `read` gives as a `uint8_t`: the -1 of an empty reader is 255.
abbrev pub byte_of : Option ℕ → ℕ
byte_of none = 255
byte_of (some b) = u8 b

-- One entry of a log: the record, the date and its size.
abbrev pub Entry : Type 0
Entry = ℕ × List ℕ × ℕ

-- A caller's protocol, as the card reader and the gateway follow it: begin, and only if that reports
-- true, write and commit.
unfoldable pub store_one : {S : Type 0} → Persistence S → Entry → S × World → S × World
store_one p (r, d, n) (s, w) =
    let (ok, s1) = p.begin_transaction write_transaction s in
    let (s2, w2) = p.write_record r d n s1 w in
    if ok then (p.commit_transaction s2, w2) else (s1, w)

unfoldable pub store_all : {S : Type 0} → Persistence S → List Entry → S × World → S × World
unfolding store_one
store_all p [] x = x
store_all p (e ∷ es) x = store_all p es (store_one p e x)

-- What a predicate on the states of a persistence has to survive.
pub record Stores {S : Type 0} (p : Persistence S) (P : S → Type 0) : Type 0 where
  pub begins : (t : ℕ) (s : S) → P s → P (p.begin_transaction t s).1
  pub writes : (r n : ℕ) (d : List ℕ) (s : S) (w : World) → P s → P (p.write_record r d n s w).0
  pub commits : (s : S) → P s → P (p.commit_transaction s)
