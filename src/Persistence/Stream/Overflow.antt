-- ===== src/Persistence/Stream/Overflow.antt =====
-- What a full stream does with a byte.
use dread.Base.{ℕ, ◌≡◌, refl, ap, ◌∙◌, true, List, [], ◌∷◌, u8, set, if◌then◌else◌, arith, ==_true}
use dread.Persistence.Stream.{Stream, next, write, write_all, available}
use dread.Persistence.Stream.Fifo.{
  IsValid, contents, segment, next_lem, available_lem, write-IsValid,
}

-- A byte written to a full, well-formed stream sets the error, and every byte that was waiting is lost: the queue is
-- empty after it, the new byte included.
pub write-full :
    (s : Stream) (n : ℕ)
    → IsValid s
    → available s ≡ 511
    → ((write n s).write_error ≡ true) × (contents (write n s) ≡ [])
unfolding contents write segment
write-full s n v full =
    let (m, l, h, t) = v in
    let ea = available_lem s v in
    let en = next_lem s s.tl m in
    let meet : s.hd ≡ next s s.tl = omega arith in
    let v' = write-IsValid s n v in
    let none_left : available (write n s) ≡ 0 = available_lem (write n s) v' ∙ omega arith in
    (
      ap (λ b. if b then true else s.write_error) (==_true meet),
      ap (segment (set s.buffer s.tl (u8 n)) s.hd) none_left,
    )

-- After an error, `write(buffer, size)` writes nothing, while `write` of one byte still writes.
pub write_all-error : (s : Stream) (bs : List ℕ) → s.write_error ≡ true → write_all bs s ≡ s
unfolding write_all
write_all-error s [] e = refl
write_all-error s (b ∷ bs) e = rw e refl
