-- ===== src/Persistence/Stream/Fifo.antt =====
-- The stream as a queue of bytes, for the 512 bytes of the slave's record book.
use dread.Base.{
  ℕ, zero, suc, ◌+◌, ◌-◌, ◌%◌, ◌<◌, ◌≡◌, ◌≢◌, refl, sym, ap, ap₂, subst, ◌∙◌, true, false, Option,
  none, some, List, [], ◌∷◌, ◌++◌, ◌==◌, ltb, u8, if◌then◌else◌, length, get_or, set, bit_and,
  arith, ==_true, ==_false, length-set, get_or-set_self, get_or-set_ne, ℕ_discrete, ◌⊎◌, inl, inr,
}
use dread.Base.Bits.{mask_nine}
use dread.Persistence.Stream.{Stream, next, read, write, available}

-- The stream has its 512 bytes, and both indices are in them.
abbrev pub IsValid : Stream → Type 0
IsValid s = (s.mask ≡ 512) × (length s.buffer ≡ 512) × (s.hd < 512) × (s.tl < 512)

-- The `n` bytes from index `i` on, around the end of the buffer.
unfoldable pub segment : List ℕ → ℕ → ℕ → List ℕ
segment buffer i zero = []
segment buffer i (suc n) = get_or buffer i 0 ∷ segment buffer ((i + 1) % 512) n

-- The bytes that are waiting to be read, the oldest first.
unfoldable pub contents : Stream → List ℕ
unfolding available
contents s = segment s.buffer s.hd (available s)

pub segment-set :
    (buffer : List ℕ) (i n d j : ℕ) (v : ℕ)
    → i < 512
    → n + d < 512
    → j ≡ (i + n + d) % 512
    → segment (set buffer j v) i n ≡ segment buffer i n
unfolding segment
segment-set buffer i zero d j v li ln e = refl
segment-set buffer i (suc n) d j v li ln e =
    ap₂ (λ b bs. b ∷ bs) (get_or-set_ne buffer j i v 0 (λ h. omega arith))
      (segment-set buffer ((i + 1) % 512) n d j v (omega arith) (omega arith) (omega arith))

segment-snoc :
    (buffer : List ℕ) (i n j : ℕ)
    → i < 512
    → j ≡ (i + n) % 512
    → segment buffer i (suc n) ≡ segment buffer i n ++ (get_or buffer j 0 ∷ [])
unfolding segment
segment-snoc buffer i zero j li e = ap (λ k. get_or buffer k 0 ∷ []) (omega arith)
segment-snoc buffer i (suc n) j li e =
    ap (λ l. get_or buffer i 0 ∷ l)
      (segment-snoc buffer ((i + 1) % 512) n j (omega arith) (omega arith))

pub next_lem : (s : Stream) (i : ℕ) → s.mask ≡ 512 → next s i ≡ (i + 1) % 512
unfolding next
next_lem s i h = ap (λ m. bit_and (i + 1) (m - 1)) h ∙ mask_nine (i + 1)

-- The bytes in use, as a number modulo the size.
pub span :
    (m h t : ℕ)
    → m ≡ 512
    → h < 512
    → t < 512
    → (if ltb t h then m - h + t else t - h) ≡ (t + 512 - h) % 512
span m h t e lh lt = ground arith

pub available_lem : (s : Stream) → IsValid s → available s ≡ (s.tl + 512 - s.hd) % 512
unfolding available
available_lem s (m, l, h, t) = span s.mask s.hd s.tl m h t

pub write-IsValid : (s : Stream) (n : ℕ) → IsValid s → IsValid (write n s)
unfolding write
write-IsValid s n (m, l, h, t) =
    (m, length-set s.buffer s.tl (u8 n) ∙ l, h, rw (next_lem s s.tl m) (omega arith))

-- A byte written to a well-formed stream that is not full comes to the end of the queue, no error is
-- noted, and the stream stays well-formed.
pub write-contents :
    (s : Stream) (n : ℕ)
    → IsValid s
    → available s < 511
    → (contents (write n s) ≡ contents s ++ (u8 n ∷ []))
      × ((write n s).write_error ≡ s.write_error)
      × IsValid (write n s)
unfolding contents write
write-contents s n v room =
    let (m, l, h, t) = v in
    let a = available s in
    let ea : a ≡ (s.tl + 512 - s.hd) % 512 = available_lem s v in
    let en : next s s.tl ≡ (s.tl + 1) % 512 = next_lem s s.tl m in
    let et : s.tl ≡ (s.hd + a) % 512 = omega arith in
    let v' = write-IsValid s n v in
    let ev : available (write n s) ≡ suc a = available_lem (write n s) v' ∙ omega arith in
    let apart : (s.hd == next s s.tl) ≡ false = ==_false (λ e. omega arith) in
    (
      ap (segment (set s.buffer s.tl (u8 n)) s.hd) ev
          ∙ (segment-snoc (set s.buffer s.tl (u8 n)) s.hd a s.tl h et
              ∙ ap₂ (λ bs b. bs ++ (b ∷ []))
                  (segment-set s.buffer s.hd a 0 s.tl (u8 n) h (omega arith) (omega arith))
                  (get_or-set_self s.buffer s.tl (u8 n) 0 (omega arith))),
      ap (λ b. if b then true else s.write_error) apart,
      v',
    )

abbrev pub popped : Stream → Stream
popped s = record s { hd = next s s.hd }

-- What a reading promises: a well-formed stream, and the oldest byte gone and returned, or nothing.
unfoldable pub Reads : Stream → Option ℕ × Stream → Type 0
Reads s (o, s') =
    IsValid s'
    × ((contents s ≡ []) × (o ≡ none) × (s' ≡ s)
        ⊎ (b : ℕ) × (o ≡ some b) × (contents s ≡ b ∷ contents s'))

read-empty : (s : Stream) → s.hd ≡ s.tl → read s ≡ (none, s)
unfolding read
read-empty s e = rw (==_true e) refl

read-full : (s : Stream) → s.hd ≢ s.tl → read s ≡ (some (get_or s.buffer s.hd 0), popped s)
unfolding read
read-full s e = rw (==_false e) refl

read-step :
    (s : Stream) → IsValid s → s.hd ≢ s.tl → Reads s (some (get_or s.buffer s.hd 0), popped s)
unfolding contents segment Reads
read-step s v other =
    let (m, l, h, t) = v in
    let en = next_lem s s.hd m in
    let v' : IsValid (popped s) = (m, l, omega arith, t) in
    let ea = available_lem s v in
    let ep = available_lem (popped s) v' in
    let es : available s ≡ suc (available (popped s)) = omega arith in
    (
      v',
      inr (
        get_or s.buffer s.hd 0,
        refl,
        ap (segment s.buffer s.hd) es
            ∙ ap (λ i. get_or s.buffer s.hd 0 ∷ segment s.buffer i (available (popped s))) (sym en),
      ),
    )

read-none : (s : Stream) → IsValid s → s.hd ≡ s.tl → Reads s (none, s)
unfolding contents segment Reads
read-none s v same =
    let ea = available_lem s v in
    let (m, l, h, t) = v in
    let none_left : available s ≡ 0 = omega arith in
    (v, inl (ap (segment s.buffer s.hd) none_left, refl, refl))

-- Reading a well-formed stream gives its oldest byte and leaves the others, and gives nothing and changes nothing
-- when no byte is there; it stays well-formed.
pub read-Reads : (s : Stream) → IsValid s → Reads s (read s)
read-Reads s v = elim (ℕ_discrete s.hd s.tl) [
  | yes same ↦ subst (Reads s) (sym (read-empty s same)) (read-none s v same)
  | no other ↦ subst (Reads s) (sym (read-full s other)) (read-step s v other)
]

pub read-IsValid : (s : Stream) → IsValid s → IsValid (read s).1
unfolding Reads
read-IsValid s v = (read-Reads s v).0

-- A byte read is one that no longer waits.
pub read-available :
    (s : Stream) → IsValid s → available s ≢ 0 → suc (available (read s).1) ≡ available s
read-available s v n =
    let (m, l, h, t) = v in
    let ea = available_lem s v in
    let other : s.hd ≢ s.tl = λ e. omega arith in
    let en = next_lem s s.hd m in
    let ep = available_lem (popped s) (m, l, omega arith, t) in
    subst (λ r. suc (available r.1) ≡ available s) (sym (read-full s other)) (omega arith)
