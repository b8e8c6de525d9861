-- ===== src/Mifare/Checks.antt =====
-- What the card commands promise of their results.
use dread.Base.{
  ℕ, zero, suc, ◌<◌, ◌≤◌, ◌≡◌, ◌≢◌, ◌⊎◌, refl, sym, ap, ◌∙◌, Bool, true, false, none, some, List,
  [], ◌∷◌, ◌++◌, ◌==◌, ◌!=◌, ltb, leb, if◌then◌else◌, get_or, set, take, drop, length,
  length-append, length-drop, length-set, arith, some_inj, Bool-cases, leb→le, gt→leb, inl, inr,
  bit_and,
}
use dread.Hardware.{World}
use dread.Mifare.{
  MifareLite, Reply, to_card, conclude, receive, read_fifo, copy_back, checksum, verified, anticoll,
  request, mi_ok, mi_err, mi_notagerr, pcd_transceive, picc_anticoll, size_of, write_mfrc522,
  bit_framing_reg, read_mfrc522, fifo_level_reg, control_reg, error_reg, irq_en_of,
}

length-read_fifo : (m : MifareLite) (n : ℕ) (w : World) → length (read_fifo m n w).0 ≡ n
unfolding read_fifo
length-read_fifo m zero w = refl
length-read_fifo m (suc n) w = omega (arith, length-read_fifo m n _)

receive-bounds :
    (m : MifareLite) (status : ℕ) (w : World)
    → ((receive m status w).0.status ≡ status) × (length (receive m status w).0.back ≤ 16)
unfolding receive
receive-bounds m status w =
    let n = (read_mfrc522 m fifo_level_reg w).0 in
    let w2 = (read_mfrc522 m control_reg (read_mfrc522 m fifo_level_reg w).1).1 in
    (
      refl,
      ground (arith, length-read_fifo m (if n == 0 then 1 else (if ltb 16 n then 16 else n)) w2),
    )

-- A status that the driver knows, with at most 16 bytes.
abbrev pub InBounds : Reply → Type 0
InBounds r =
    ((r.status ≡ mi_ok) ⊎ ((r.status ≡ mi_notagerr) ⊎ (r.status ≡ mi_err))) × (length r.back ≤ 16)

status-known :
    (b : Bool)
    → ((if b then mi_notagerr else mi_ok) ≡ mi_ok)
      ⊎ (((if b then mi_notagerr else mi_ok) ≡ mi_notagerr)
          ⊎ ((if b then mi_notagerr else mi_ok) ≡ mi_err))
status-known true = inr (inl refl)
status-known false = inl refl

conclude-InBounds :
    (m : MifareLite) (command len n left : ℕ) (w : World)
    → InBounds (conclude m command len n left w).0
unfolding conclude
conclude-InBounds m command len n left w = elim (Bool-cases (left == 0)) [
  | inl e ↦ rw e (inr (inr refl), omega arith)
  | inr e ↦ elim (Bool-cases (bit_and (read_mfrc522 m error_reg w).0 0x1B != 0)) [
    | inl f ↦ rw (e, f) (inr (inr refl), omega arith)
    | inr f ↦ elim (Bool-cases (command == pcd_transceive)) [
      | inl g ↦
          let b = receive-bounds m status (read_mfrc522 m error_reg w).1 in
          rw (e, f, g) (rw (b.0) known, b.1)
      | inr g ↦ rw (e, f, g) (known, omega arith)
    ]
  ]
]
  where
    status : ℕ
    status = if bit_and (bit_and n (irq_en_of command)) 0x01 != 0 then mi_notagerr else mi_ok

    known : (status ≡ mi_ok) ⊎ ((status ≡ mi_notagerr) ⊎ (status ≡ mi_err))
    known = status-known (bit_and (bit_and n (irq_en_of command)) 0x01 != 0)

-- Whatever the device answers, the status of `ToCard` is one of the three codes, and it hands back at
-- most 16 bytes.
pub to_card-InBounds :
    (m : MifareLite) (command : ℕ) (bytes : List ℕ) (len : ℕ) (w : World)
    → InBounds (to_card m command bytes len w).0
unfolding to_card
to_card-InBounds m command bytes len w = conclude-InBounds m command len _ _ _

length-copy_back :
    (bs buf : List ℕ) {out : List ℕ} → copy_back bs buf ≡ some out → length out ≡ length buf
length-copy_back bs buf {out} h = elim (Bool-cases (leb (length bs) (length buf))) [
  | inl l ↦
      let e : some (bs ++ drop (length bs) buf) ≡ some out = rw l at h in
      ap length (sym (some_inj e))
      ∙ omega (
        arith,
        length-append bs (drop (length bs) buf),
        length-drop (length bs) buf,
        leb→le (length bs) (length buf) l,
      )
  | inr g ↦ cc (rw g at h)
]

-- A serial number that `Anticoll` reports as read has the length of the buffer, and its last byte is
-- the checksum of the first four.
pub anticoll-checked :
    (m : MifareLite) (ser_num : List ℕ) (len : ℕ) (w : World) {out : List ℕ}
    → (anticoll m ser_num len w).0 ≡ mi_ok
    → (anticoll m ser_num len w).1 ≡ some out
    → (length out ≡ length ser_num) × (checksum out ≡ get_or out 4 0)
unfolding anticoll
anticoll-checked m ser_num len w {out} ok e = (
  length-copy_back _ buf e
      ∙ (length-set (set ser_num 0 picc_anticoll) 1 0x20 ∙ length-set ser_num 0 picc_anticoll),
  check (to_card m pcd_transceive (take 2 buf) len (write_mfrc522 m bit_framing_reg 0 w)).0.status
      (rw e at ok),
)
  where
    buf : List ℕ
    buf = set (set ser_num 0 picc_anticoll) 1 0x20

    check : (status : ℕ) → verified status (some out) ≡ mi_ok → checksum out ≡ get_or out 4 0
    check status h = ground arith

-- `Anticoll` writes past the five bytes of a serial number whenever the device reports more of them.
pub anticoll-overflow :
    (m : MifareLite) (ser_num : List ℕ) (len : ℕ) (w : World)
    → length ser_num ≡ 5
    → 5
      < length
          (to_card m pcd_transceive
            (picc_anticoll ∷ 0x20 ∷ [])
            len
            (write_mfrc522 m bit_framing_reg 0x00 w)).0.back
    → (anticoll m ser_num len w).1 ≡ none
unfolding anticoll
anticoll-overflow m [] len w size h = absurd (omega arith)
anticoll-overflow m (a ∷ []) len w size h = absurd (omega arith)
anticoll-overflow m (a ∷ b ∷ s) len w size h = rw (
    gt→leb
      (length
        (to_card m pcd_transceive (picc_anticoll ∷ 0x20 ∷ []) len
          (write_mfrc522 m bit_framing_reg 0x00 w)).0.back)
      (length (a ∷ b ∷ s)) (omega arith))

-- `Request` answers only `MI_OK` or `MI_ERR`.
pub request-status :
    (m : MifareLite) (mode : ℕ) (tag_type : List ℕ) (len : ℕ) (w : World)
    → ((request m mode tag_type len w).0 ≡ mi_ok) ⊎ ((request m mode tag_type len w).0 ≡ mi_err)
unfolding request
request-status m mode tag_type len w = ground arith

-- `SelectTag` never answers `MI_ERR` on an exchange that fails, or whose answer has another length than
-- 24 bits: it answers 0.
pub size_of-failed :
    (status bits : ℕ) (out : List ℕ)
    → ((status ≢ mi_ok) ⊎ (bits ≢ 0x18))
    → size_of status bits (some out) ≡ 0
size_of-failed status bits out h = ground arith
