-- ===== src/Mifare/Card.antt =====
-- The card commands of the driver.
use dread.Base.{
  ℕ, zero, suc, ◌+◌, ◌-◌, ◌*◌, Option, none, some, List, [], ◌∷◌, ◌++◌, ◌==◌, ◌!=◌, ◌&&◌, ◌||◌, ltb,
  leb, u8, if◌then◌else◌, bit_and, bit_or, bit_xor, get_or, set, take, drop, length,
}
use dread.Hardware.{World}
use dread.Mifare.Registers.{
  MifareLite, write_mfrc522, read_mfrc522, set_bit_mask, clear_bit_mask, write_fifo, read_fifo,
  command_reg, comm_ien_reg, comm_irq_reg, div_irq_reg, error_reg, status2_reg, fifo_level_reg,
  control_reg, bit_framing_reg, crc_result_reg_m, crc_result_reg_l, pcd_idle,
}

abbrev pub mi_ok : ℕ
mi_ok = 0

abbrev pub mi_notagerr : ℕ
mi_notagerr = 1

abbrev pub mi_err : ℕ
mi_err = 2

abbrev pub pcd_authent : ℕ
pcd_authent = 0x0E

abbrev pub pcd_transceive : ℕ
pcd_transceive = 0x0C

abbrev pub pcd_calc_crc : ℕ
pcd_calc_crc = 0x03

abbrev pub picc_req_idl : ℕ
picc_req_idl = 0x26

abbrev pub picc_anticoll : ℕ
picc_anticoll = 0x93

abbrev pub picc_select_tag : ℕ
picc_select_tag = 0x93

abbrev pub picc_authent1b : ℕ
picc_authent1b = 0x61

abbrev pub picc_read : ℕ
picc_read = 0x30

abbrev pub picc_write : ℕ
picc_write = 0xA0

abbrev pub picc_halt : ℕ
picc_halt = 0x50

-- What `ToCard` returns and stores: the status, the bytes for `backData`, and `*backLen`.
pub record Reply : Type 0 where
  pub status : ℕ
  pub back : List ℕ
  pub back_len : ℕ

unfoldable pub irq_en_of : ℕ → ℕ
irq_en_of command =
    if command == pcd_authent then 0x12 else (if command == pcd_transceive then 0x77 else 0x00)

unfoldable pub wait_irq_of : ℕ → ℕ
wait_irq_of command =
    if command == pcd_authent then 0x10 else (if command == pcd_transceive then 0x30 else 0x00)

-- Received bytes over the start of a buffer; `none` if they are more than the buffer holds.
abbrev pub copy_back : List ℕ → List ℕ → Option (List ℕ)
copy_back bs buf = if leb (length bs) (length buf) then some (bs ++ drop (length bs) buf) else none

-- The result of a command: its status, and its buffer.
abbrev pub Outcome : Type 0
Outcome = ℕ × Option (List ℕ) × World

abbrev pub checksum : List ℕ → ℕ
checksum s = bit_xor (bit_xor (bit_xor (get_or s 0 0) (get_or s 1 0)) (get_or s 2 0)) (get_or s 3 0)

abbrev pub verified : ℕ → Option (List ℕ) → ℕ
verified status none = status
verified status (some s) =
    if (status == mi_ok) && (checksum s != get_or s 4 0) then mi_err else status

abbrev pub size_of : ℕ → ℕ → Option (List ℕ) → ℕ
size_of status bits none = 0
size_of status bits (some buf) = if (status == mi_ok) && (bits == 0x18) then get_or buf 0 0 else 0

abbrev pub auth_bytes : ℕ → ℕ → List ℕ → List ℕ → List ℕ
auth_bytes mode block key ser_num = mode ∷ block ∷ (take 6 key ++ take 4 ser_num)

-- An answer of four bits `0xA` to a write.
abbrev pub acknowledged : Reply → Option (List ℕ) → ℕ
acknowledged r none = mi_err
acknowledged r (some buf) =
    if (r.status != mi_ok) || ((r.back_len != 4) || (bit_and (get_or buf 0 0) 0x0F != 0x0A))
    then mi_err
    else r.status

module _ (m : MifareLite) where
  -- The polling loops of `ToCard` and of `CalulateCRC`: at most `i` reads of a register, until one of
  -- its bits in the mask is set. The last reading, and the count that is left.
  unfoldable pub poll : ℕ → ℕ → ℕ → World → ℕ × ℕ × World
  poll reg mask zero w = (0, 0, w)
  poll reg mask (suc i) w =
      let (n, w1) = read_mfrc522 m reg w in
      let again = poll reg mask i w1 in
      if (i != 0) && (bit_and n mask == 0) then again else (n, i, w1)

  -- The bytes that a card sent, and the number of their bits.
  unfoldable pub receive : ℕ → World → Reply × World
  receive status w =
      let (n, w1) = read_mfrc522 m fifo_level_reg w in
      let (control, w2) = read_mfrc522 m control_reg w1 in
      let last_bits = bit_and control 0x07 in
      let len = if last_bits != 0 then u8 (n * 8 + 2048 - 8 + last_bits) else u8 (n * 8) in
      let count = if n == 0 then 1 else (if ltb 16 n then 16 else n) in
      let (bs, w3) = read_fifo m count w2 in
      (record { status = status; back = bs; back_len = len }, w3)

  -- What follows the polling loop, with its last reading and the count that is left.
  unfoldable pub conclude : ℕ → ℕ → ℕ → ℕ → World → Reply × World
  conclude command len n left w =
      let (error, w1) = read_mfrc522 m error_reg w in
      let status =
        if bit_and (bit_and n (irq_en_of command)) 0x01 != 0 then mi_notagerr else mi_ok in
      if left == 0
      then (record { status = mi_err; back = []; back_len = len }, w)
      else (if bit_and error 0x1B != 0
          then (record { status = mi_err; back = []; back_len = len }, w1)
          else (if command == pcd_transceive
              then receive status w1
              else (record { status = status; back = []; back_len = len }, w1)))

  -- `i = 2000` is 208 in its 8 bits. `len` is what `*backLen` holds before the call.
  unfoldable pub to_card : ℕ → List ℕ → ℕ → World → Reply × World
  to_card command data_out len w =
      let w1 = write_mfrc522 m comm_ien_reg (bit_or (irq_en_of command) 0x80) w in
      let w2 = clear_bit_mask m comm_irq_reg 0x80 w1 in
      let w3 = set_bit_mask m fifo_level_reg 0x80 w2 in
      let w4 = write_mfrc522 m command_reg pcd_idle w3 in
      let w5 = write_mfrc522 m command_reg command (write_fifo m data_out w4) in
      let w6 = if command == pcd_transceive then set_bit_mask m bit_framing_reg 0x80 w5 else w5 in
      let (n, left, w7) = poll comm_irq_reg (bit_or 0x01 (wait_irq_of command)) 208 w6 in
      conclude command len n left (clear_bit_mask m bit_framing_reg 0x80 w7)

  -- `CalulateCRC`: the two bytes for `pOutData`.
  unfoldable pub calculate_crc : List ℕ → World → List ℕ × World
  calculate_crc bytes w =
      let w1 = set_bit_mask m fifo_level_reg 0x80 (clear_bit_mask m div_irq_reg 0x04 w) in
      let w2 = write_mfrc522 m command_reg pcd_calc_crc (write_fifo m bytes w1) in
      let (n, left, w3) = poll div_irq_reg 0x04 255 w2 in
      let (l, w4) = read_mfrc522 m crc_result_reg_l w3 in
      let (h, w5) = read_mfrc522 m crc_result_reg_m w4 in (l ∷ h ∷ [], w5)

  unfoldable pub request : ℕ → List ℕ → ℕ → World → Outcome
  request req_mode tag_type len w =
      let w1 = write_mfrc522 m bit_framing_reg 0x07 w in
      let buf = set tag_type 0 req_mode in
      let (r, w2) = to_card pcd_transceive (take 1 buf) len w1 in
      (
        if (r.status != mi_ok) || (r.back_len != 0x10) then mi_err else r.status,
        copy_back r.back buf,
        w2,
      )

  unfoldable pub anticoll : List ℕ → ℕ → World → Outcome
  anticoll ser_num len w =
      let w1 = write_mfrc522 m bit_framing_reg 0x00 w in
      let buf = set (set ser_num 0 picc_anticoll) 1 0x20 in
      let (r, w2) = to_card pcd_transceive (take 2 buf) len w1 in
      let out = copy_back r.back buf in (verified r.status out, out, w2)

  -- A frame over the start of a buffer: the bytes, then their checksum.
  abbrev pub framed : List ℕ → List ℕ → World → Option (List ℕ) × World
  framed bytes buf w = let (crc, w1) = calculate_crc bytes w in (copy_back (bytes ++ crc) buf, w1)

  abbrev pub after_frame :
      (Option (List ℕ)) × World → ℕ → (Reply → Option (List ℕ) → ℕ) → ℕ → Outcome
  after_frame (none, w) count status_of len = (0, none, w)
  after_frame (some buf, w) count status_of len =
      let (r, w1) = to_card pcd_transceive (take count buf) len w in
      let out = copy_back r.back buf in (status_of r out, out, w1)

  unfoldable pub select_tag : List ℕ → List ℕ → ℕ → World → Outcome
  select_tag buffer ser_num bits w =
      after_frame (framed (picc_select_tag ∷ 0x70 ∷ take 5 ser_num) buffer w) 9
        (λ r out. size_of r.status r.back_len out) bits

  abbrev pub authenticated : Option (List ℕ) → List ℕ → ℕ → World → Outcome
  authenticated none bytes bits w = (0, none, w)
  authenticated (some buf) bytes bits w =
      let (r, w1) = to_card pcd_authent bytes bits w in
      let (s, w2) = read_mfrc522 m status2_reg w1 in
      let out = copy_back r.back buf in
      if r.status != mi_ok
      then (mi_err, out, w1)
      else (if bit_and s 0x08 == 0 then (mi_err, out, w2) else (r.status, out, w2))

  unfoldable pub auth : ℕ → ℕ → List ℕ → List ℕ → List ℕ → ℕ → World → Outcome
  auth mode block key buff ser_num bits w =
      let bytes = auth_bytes mode block key ser_num in
      authenticated (copy_back bytes buff) bytes bits w

  unfoldable pub read_block : ℕ → List ℕ → ℕ → World → Outcome
  read_block block recv len w =
      after_frame (framed (picc_read ∷ block ∷ []) recv w) 4
        (λ r out. if (r.status != mi_ok) || (r.back_len != 0x90) then mi_err else r.status) len

  abbrev pub write_data : List ℕ → Outcome → Outcome
  write_data bytes (status, none, w) = (status, none, w)
  write_data bytes (status, some buf, w) =
      if status == mi_ok
      then after_frame (framed (take 16 bytes) buf w) 18 acknowledged 0
      else (status, some buf, w)

  -- `Write`: the block is announced, then its 16 bytes are sent; `stack` is what its local buffer of
  -- 18 bytes holds at first. `recvBits` of the second exchange is that of the first if nothing comes
  -- back, which its test refuses in the same way as 0.
  unfoldable pub write_block : ℕ → List ℕ → List ℕ → ℕ → World → Outcome
  write_block block bytes stack bits w =
      write_data bytes (after_frame (framed (picc_write ∷ block ∷ []) stack w) 4 acknowledged bits)

  unfoldable pub halt : List ℕ → ℕ → World → Outcome
  halt stack len w = after_frame (framed (picc_halt ∷ 0 ∷ []) stack w) 4 (λ r out. r.status) len
