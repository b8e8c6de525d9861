-- ===== src/Mifare/Tests.antt =====
-- The card reader behind devices with fixed answers.
use dread.Base.{
  ℕ, ◌<◌, ◌≡◌, refl, Option, some, List, [], ◌∷◌, get_or, length, replicate, arith, ltb,
  if◌then◌else◌,
}
use dread.Hardware.{World}
use dread.Mifare.{
  MifareLite, to_card, conclude, receive, read_fifo, write_fifo, poll, request, anticoll,
  select_tag, auth, read_block, write_block, halt, read_mfrc522, write_mfrc522, set_bit_mask,
  clear_bit_mask, irq_en_of, wait_irq_of, checksum, mi_ok, pcd_transceive, picc_anticoll,
  bit_framing_reg,
}
use dread.Mifare.Accesses.{Accessed, world_of, commands-Accessed}
use dread.Mifare.Checks.{InBounds, to_card-InBounds, anticoll-checked}

abbrev answering : (ℕ → ℕ) → World
answering f = record {
  clock = λ n. n;
  arrivals = λ n p. [];
  replies = f;
  ticks = 0;
  polls = 0;
  transfers = 0;
  rx = λ p. [];
  trace = [];
}

abbrev reader : MifareLite
reader = record { pin_slave_select = 10; pin_reset = 9 }

to_card-InBounds_example :
    InBounds (to_card reader pcd_transceive (0x26 ∷ []) 0 (answering (λ n. 33))).0
to_card-InBounds_example =
    to_card-InBounds reader pcd_transceive (0x26 ∷ []) 0 (answering (λ n. 33))

-- The bytes 33: the interrupt flag is up, and no error bit; the device reports 33 bytes.
reported :
    5
    < length
        (to_card reader pcd_transceive
          (picc_anticoll ∷ 0x20 ∷ [])
          0
          (write_mfrc522 reader bit_framing_reg 0x00 (answering (λ n. 36)))).0.back
unfolding to_card conclude receive read_fifo write_fifo poll read_mfrc522 write_mfrc522 set_bit_mask
    clear_bit_mask irq_en_of wait_irq_of
reported = omega arith

-- A device that reports five bytes and then hands over zeros: the checksum of the serial number fits.
abbrev five_zeros : ℕ → ℕ
five_zeros n = if ltb n 32 then 0x20 else (if ltb n 34 then 5 else 0)

abbrev zeros : List ℕ
zeros = replicate 5 0

abbrev read_serial : ℕ × Option (List ℕ) × World
read_serial = anticoll reader zeros 0 (answering five_zeros)

read_well : (read_serial.0 ≡ mi_ok) × (read_serial.1 ≡ some zeros)
unfolding anticoll to_card conclude receive read_fifo write_fifo poll read_mfrc522 write_mfrc522
    set_bit_mask clear_bit_mask irq_en_of wait_irq_of
read_well = (refl, refl)

anticoll-checked_example : (length zeros ≡ 5) × (checksum zeros ≡ get_or zeros 4 0)
anticoll-checked_example =
    anticoll-checked reader zeros 0 (answering five_zeros) read_well.0 read_well.1

commands-Accessed_example :
    let w = answering five_zeros in
    Accessed reader w (world_of (request reader 0x26 zeros 0 w))
    × Accessed reader w (world_of (anticoll reader zeros 0 w))
    × Accessed reader w (world_of (select_tag reader zeros zeros 0 w))
    × Accessed reader w (world_of (auth reader 0x61 4 zeros zeros zeros 0 w))
    × Accessed reader w (world_of (read_block reader 4 zeros 0 w))
    × Accessed reader w (world_of (write_block reader 4 zeros zeros 0 w))
    × Accessed reader w (world_of (halt reader zeros 0 w))
commands-Accessed_example =
    commands-Accessed reader (answering five_zeros) 0x26 0x61 4 0 zeros zeros zeros zeros
