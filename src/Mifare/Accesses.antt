-- ===== src/Mifare/Accesses.antt =====
-- What the card commands do at the pins and the SPI bus: whole accesses to registers and nothing else.
use dread.Base.{
  ℕ, zero, suc, ◌*◌, ◌≡◌, refl, sym, ap, ◌∙◌, Bool, true, false, Option, none, some, List, [], ◌∷◌,
  ◌++◌, append_assoc, append-nil, ◌==◌, ◌!=◌, ◌&&◌, u8, if◌then◌else◌, bit_and, bit_or, take,
}
use dread.Hardware.{World, Effect, pin_set, transferred}
use dread.Mifare.Registers.{
  MifareLite, write_mfrc522, read_mfrc522, set_bit_mask, clear_bit_mask, write_fifo, read_fifo,
  fifo_data_reg, command_reg, comm_ien_reg, comm_irq_reg, div_irq_reg, error_reg, status2_reg,
  fifo_level_reg, control_reg, bit_framing_reg, crc_result_reg_m, crc_result_reg_l, pcd_idle,
}
use dread.Mifare.Card.{
  Reply, Outcome, poll, receive, conclude, to_card, calculate_crc, request, anticoll, framed,
  after_frame, select_tag, authenticated, auth, read_block, write_data, write_block, halt,
  copy_back, irq_en_of, wait_irq_of, auth_bytes, acknowledged, pcd_transceive, pcd_authent,
  pcd_calc_crc, picc_select_tag, picc_read, picc_write, picc_halt, mi_ok,
}

-- A write of a value to a register, or a reading of it.
pub data Access : Type 0 where
  stored : ℕ → ℕ → Access
  fetched : ℕ → Access

-- The world after a command.
abbrev pub world_of : Outcome → World
world_of (status, buffer, w) = w

module _ (m : MifareLite) where
  -- An access at the bus: the chip is selected, the register's number in six bits, with the bit for a reading
  -- above it, and a value are transferred, and the chip is released.
  unfoldable pub at_bus : Access → List Effect
  at_bus (stored reg val) =
      pin_set m.pin_slave_select 0
      ∷ transferred (u8 (bit_and (reg * 2) 0x7E))
      ∷ transferred (u8 val)
      ∷ pin_set m.pin_slave_select 1
      ∷ []
  at_bus (fetched reg) =
      pin_set m.pin_slave_select 0
      ∷ transferred (u8 (bit_or (bit_and (reg * 2) 0x7E) 0x80))
      ∷ transferred 0
      ∷ pin_set m.pin_slave_select 1
      ∷ []

  unfoldable pub all_at_bus : List Access → List Effect
  unfolding at_bus
  all_at_bus [] = []
  all_at_bus (a ∷ as_) = at_bus a ++ all_at_bus as_

  -- Between two states of the world there are accesses and nothing else.
  pub record Accessed (w w' : World) : Type 0 where
    pub accesses : List Access
    pub traced : w'.trace ≡ w.trace ++ all_at_bus accesses

  Accessed-refl : (w : World) → Accessed w w
  unfolding all_at_bus
  Accessed-refl w = record { accesses = []; traced = sym (append-nil w.trace) }

  all_at_bus-append : (xs ys : List Access) → all_at_bus (xs ++ ys) ≡ all_at_bus xs ++ all_at_bus ys
  unfolding all_at_bus
  all_at_bus-append [] ys = refl
  all_at_bus-append (x ∷ xs) ys =
      ap (λ l. at_bus x ++ l) (all_at_bus-append xs ys)
      ∙ sym (append_assoc (at_bus x) (all_at_bus xs) (all_at_bus ys))

  infixl 5 ◌then◌
  ◌then◌ : {u v w : World} → Accessed u v → Accessed v w → Accessed u w
  ◌then◌ {u} a b = record {
    accesses = a.accesses ++ b.accesses;
    traced =
        b.traced
        ∙ ap (λ t. t ++ all_at_bus b.accesses) a.traced
        ∙ append_assoc u.trace (all_at_bus a.accesses) (all_at_bus b.accesses)
        ∙ ap (λ l. u.trace ++ l) (sym (all_at_bus-append a.accesses b.accesses));
  }

  Accessed-if :
      {A : Type 0} {w : World} (world : A → World) (b : Bool) (x y : A)
      → Accessed w (world x)
      → Accessed w (world y)
      → Accessed w (world (if b then x else y))
  Accessed-if world true x y h h' = h
  Accessed-if world false x y h h' = h'

  write-Accessed : (reg val : ℕ) (w : World) → Accessed w (write_mfrc522 m reg val w)
  unfolding all_at_bus at_bus write_mfrc522
  write-Accessed reg val w = record { accesses = stored reg val ∷ []; traced = simp append_assoc }

  read-Accessed : (reg : ℕ) (w : World) → Accessed w (read_mfrc522 m reg w).1
  unfolding all_at_bus at_bus read_mfrc522
  read-Accessed reg w = record { accesses = fetched reg ∷ []; traced = simp append_assoc }

  set_bit-Accessed : (reg mask : ℕ) (w : World) → Accessed w (set_bit_mask m reg mask w)
  unfolding set_bit_mask
  set_bit-Accessed reg mask w =
      read-Accessed reg w then write-Accessed reg _ (read_mfrc522 m reg w).1

  clear_bit-Accessed : (reg mask : ℕ) (w : World) → Accessed w (clear_bit_mask m reg mask w)
  unfolding clear_bit_mask
  clear_bit-Accessed reg mask w =
      read-Accessed reg w then write-Accessed reg _ (read_mfrc522 m reg w).1

  write_fifo-Accessed : (bytes : List ℕ) (w : World) → Accessed w (write_fifo m bytes w)
  unfolding write_fifo
  write_fifo-Accessed [] w = Accessed-refl w
  write_fifo-Accessed (b ∷ bs) w =
      write-Accessed fifo_data_reg b w
      then write_fifo-Accessed bs (write_mfrc522 m fifo_data_reg b w)

  read_fifo-Accessed : (n : ℕ) (w : World) → Accessed w (read_fifo m n w).1
  unfolding read_fifo
  read_fifo-Accessed zero w = Accessed-refl w
  read_fifo-Accessed (suc n) w =
      read-Accessed fifo_data_reg w then read_fifo-Accessed n (read_mfrc522 m fifo_data_reg w).1

  poll-Accessed : (reg mask i : ℕ) (w : World) → Accessed w (poll m reg mask i w).2
  unfolding poll
  poll-Accessed reg mask zero w = Accessed-refl w
  poll-Accessed reg mask (suc i) w =
      let (n, w1) = read_mfrc522 m reg w in
      read-Accessed reg w
      then Accessed-if (λ (r : ℕ × ℕ × World). r.2) ((i != 0) && (bit_and n mask == 0))
          (poll m reg mask i w1) (n, i, w1) (poll-Accessed reg mask i w1) (Accessed-refl w1)

  receive-Accessed : (status : ℕ) (w : World) → Accessed w (receive m status w).1
  unfolding receive
  receive-Accessed status w =
      let (n, w1) = read_mfrc522 m fifo_level_reg w in
      let w2 = (read_mfrc522 m control_reg w1).1 in
      read-Accessed fifo_level_reg w then read-Accessed control_reg w1 then read_fifo-Accessed _ w2

  conclude-Accessed :
      (command len n left : ℕ) (w : World) → Accessed w (conclude m command len n left w).1
  unfolding conclude
  conclude-Accessed command len n left w =
      let (error, w1) = read_mfrc522 m error_reg w in
      let read = read-Accessed error_reg w in
      Accessed-if (λ (r : Reply × World). r.1) (left == 0) _ _ (Accessed-refl w)
        (Accessed-if (λ (r : Reply × World). r.1) (bit_and error 0x1B != 0) _ _ read
          (Accessed-if (λ (r : Reply × World). r.1) (command == pcd_transceive) _ _
            (read then receive-Accessed _ w1) read))

  to_card-Accessed :
      (command : ℕ) (data_out : List ℕ) (len : ℕ) (w : World)
      → Accessed w (to_card m command data_out len w).1
  unfolding to_card
  to_card-Accessed command data_out len w =
      let w1 = write_mfrc522 m comm_ien_reg (bit_or (irq_en_of command) 0x80) w in
      let w2 = clear_bit_mask m comm_irq_reg 0x80 w1 in
      let w3 = set_bit_mask m fifo_level_reg 0x80 w2 in
      let w4 = write_mfrc522 m command_reg pcd_idle w3 in
      let w4' = write_fifo m data_out w4 in
      let w5 = write_mfrc522 m command_reg command w4' in
      let w6 = if command == pcd_transceive then set_bit_mask m bit_framing_reg 0x80 w5 else w5 in
      let (n, left, w7) = poll m comm_irq_reg (bit_or 0x01 (wait_irq_of command)) 208 w6 in
      write-Accessed comm_ien_reg _ w
      then clear_bit-Accessed comm_irq_reg 0x80 w1
      then set_bit-Accessed fifo_level_reg 0x80 w2
      then write-Accessed command_reg pcd_idle w3
      then write_fifo-Accessed data_out w4
      then write-Accessed command_reg command w4'
      then Accessed-if (λ w. w) (command == pcd_transceive) (set_bit_mask m bit_framing_reg 0x80 w5)
          w5 (set_bit-Accessed bit_framing_reg 0x80 w5) (Accessed-refl w5)
      then poll-Accessed comm_irq_reg _ 208 w6
      then clear_bit-Accessed bit_framing_reg 0x80 w7
      then conclude-Accessed command len n left (clear_bit_mask m bit_framing_reg 0x80 w7)

  crc-Accessed : (bytes : List ℕ) (w : World) → Accessed w (calculate_crc m bytes w).1
  unfolding calculate_crc
  crc-Accessed bytes w =
      let w0 = clear_bit_mask m div_irq_reg 0x04 w in
      let w1 = set_bit_mask m fifo_level_reg 0x80 w0 in
      let w1' = write_fifo m bytes w1 in
      let w2 = write_mfrc522 m command_reg pcd_calc_crc w1' in
      let w3 = (poll m div_irq_reg 0x04 255 w2).2 in
      let w4 = (read_mfrc522 m crc_result_reg_l w3).1 in
      clear_bit-Accessed div_irq_reg 0x04 w
      then set_bit-Accessed fifo_level_reg 0x80 w0
      then write_fifo-Accessed bytes w1
      then write-Accessed command_reg pcd_calc_crc w1'
      then poll-Accessed div_irq_reg 0x04 255 w2
      then read-Accessed crc_result_reg_l w3
      then read-Accessed crc_result_reg_m w4

  after_frame-Accessed :
      (o : Option (List ℕ) × World) (count : ℕ) (status_of : Reply → Option (List ℕ) → ℕ) (len : ℕ)
      → Accessed o.1 (world_of (after_frame m o count status_of len))
  after_frame-Accessed (none, w) count status_of len = Accessed-refl w
  after_frame-Accessed (some buf, w) count status_of len =
      to_card-Accessed pcd_transceive (take count buf) len w

  frame-Accessed :
      (bytes buf : List ℕ) (count : ℕ) (status_of : Reply → Option (List ℕ) → ℕ) (len : ℕ)
      (w : World)
      → Accessed w (world_of (after_frame m (framed m bytes buf w) count status_of len))
  frame-Accessed bytes buf count status_of len w =
      crc-Accessed bytes w then after_frame-Accessed (framed m bytes buf w) count status_of len

  authenticated-Accessed :
      (o : Option (List ℕ)) (bytes : List ℕ) (bits : ℕ) (w : World)
      → Accessed w (world_of (authenticated m o bytes bits w))
  authenticated-Accessed none bytes bits w = Accessed-refl w
  authenticated-Accessed (some buf) bytes bits w =
      let (r, w1) = to_card m pcd_authent bytes bits w in
      let (s, w2) = read_mfrc522 m status2_reg w1 in
      let out = copy_back r.back buf in
      let sent = to_card-Accessed pcd_authent bytes bits w in
      let checked = sent then read-Accessed status2_reg w1 in
      Accessed-if world_of (r.status != mi_ok) _ _ sent
        (Accessed-if world_of (bit_and s 0x08 == 0) _ _ checked checked)

  write_data-Accessed :
      (bytes : List ℕ) (o : Outcome) → Accessed (world_of o) (world_of (write_data m bytes o))
  write_data-Accessed bytes (status, none, w) = Accessed-refl w
  write_data-Accessed bytes (status, some buf, w) =
      Accessed-if world_of (status == mi_ok) _ _
        (frame-Accessed (take 16 bytes) buf 18 acknowledged 0 w) (Accessed-refl w)

  -- Whatever the device answers, each command of the card reader chip does nothing but whole accesses to
  -- its registers, one after the other: each selects the chip, transfers the number of the register and
  -- one value, and releases the chip.
  pub commands-Accessed :
      (w : World) (req_mode mode block len : ℕ) (key serial buffer stack : List ℕ)
      → Accessed w (world_of (request m req_mode buffer len w))
        × Accessed w (world_of (anticoll m serial len w))
        × Accessed w (world_of (select_tag m buffer serial len w))
        × Accessed w (world_of (auth m mode block key buffer serial len w))
        × Accessed w (world_of (read_block m block buffer len w))
        × Accessed w (world_of (write_block m block buffer stack len w))
        × Accessed w (world_of (halt m stack len w))
  unfolding request anticoll select_tag auth read_block write_block halt
  commands-Accessed w req_mode mode block len key serial buffer stack = (
    write-Accessed bit_framing_reg 0x07 w then to_card-Accessed pcd_transceive _ len _,
    write-Accessed bit_framing_reg 0x00 w then to_card-Accessed pcd_transceive _ len _,
    frame-Accessed (picc_select_tag ∷ 0x70 ∷ take 5 serial) buffer 9 _ len w,
    authenticated-Accessed (copy_back (auth_bytes mode block key serial) buffer)
        (auth_bytes mode block key serial) len w,
    frame-Accessed (picc_read ∷ block ∷ []) buffer 4 _ len w,
    frame-Accessed (picc_write ∷ block ∷ []) stack 4 acknowledged len w
        then write_data-Accessed buffer
            (after_frame m (framed m (picc_write ∷ block ∷ []) stack w) 4 acknowledged len),
    frame-Accessed (picc_halt ∷ 0 ∷ []) stack 4 _ len w,
  )
