-- ===== src/Mifare/Registers.antt =====
-- The registers of the MFRC522, over SPI.
use dread.Base.{
  ℕ, zero, suc, ◌-◌, ◌*◌, List, [], ◌∷◌, ◌++◌, ◌==◌, ◌≡◌, u8, if◌then◌else◌, bit_and, bit_or,
  append_assoc,
}
use dread.Hardware.{World, pin_set, transferred, digital_write, pin_mode, transfer}

abbrev pub command_reg : ℕ
command_reg = 0x01

abbrev pub comm_ien_reg : ℕ
comm_ien_reg = 0x02

abbrev pub comm_irq_reg : ℕ
comm_irq_reg = 0x04

abbrev pub div_irq_reg : ℕ
div_irq_reg = 0x05

abbrev pub error_reg : ℕ
error_reg = 0x06

abbrev pub status2_reg : ℕ
status2_reg = 0x08

abbrev pub fifo_data_reg : ℕ
fifo_data_reg = 0x09

abbrev pub fifo_level_reg : ℕ
fifo_level_reg = 0x0A

abbrev pub control_reg : ℕ
control_reg = 0x0C

abbrev pub bit_framing_reg : ℕ
bit_framing_reg = 0x0D

abbrev pub mode_reg : ℕ
mode_reg = 0x11

abbrev pub tx_control_reg : ℕ
tx_control_reg = 0x14

abbrev pub tx_auto_reg : ℕ
tx_auto_reg = 0x15

abbrev pub crc_result_reg_m : ℕ
crc_result_reg_m = 0x21

abbrev pub crc_result_reg_l : ℕ
crc_result_reg_l = 0x22

abbrev pub t_mode_reg : ℕ
t_mode_reg = 0x2A

abbrev pub t_prescaler_reg : ℕ
t_prescaler_reg = 0x2B

abbrev pub t_reload_reg_h : ℕ
t_reload_reg_h = 0x2C

abbrev pub t_reload_reg_l : ℕ
t_reload_reg_l = 0x2D

abbrev pub pcd_idle : ℕ
pcd_idle = 0x00

abbrev pub pcd_reset_phase : ℕ
pcd_reset_phase = 0x0F

-- The pins of the device; the constructor only stores them.
pub record MifareLite : Type 0 where
  pub pin_slave_select : ℕ
  pub pin_reset : ℕ

module _ (m : MifareLite) where
  unfoldable pub write_mfrc522 : ℕ → ℕ → World → World
  write_mfrc522 addr val w =
      let w1 = digital_write m.pin_slave_select 0 w in
      let w2 = (transfer (bit_and (addr * 2) 0x7E) w1).1 in
      let w3 = (transfer val w2).1 in digital_write m.pin_slave_select 1 w3

  unfoldable pub read_mfrc522 : ℕ → World → ℕ × World
  read_mfrc522 addr w =
      let w1 = digital_write m.pin_slave_select 0 w in
      let w2 = (transfer (bit_or (bit_and (addr * 2) 0x7E) 0x80) w1).1 in
      let (val, w3) = transfer 0 w2 in (val, digital_write m.pin_slave_select 1 w3)

  unfoldable pub set_bit_mask : ℕ → ℕ → World → World
  set_bit_mask reg mask w =
      let (tmp, w1) = read_mfrc522 reg w in write_mfrc522 reg (bit_or tmp mask) w1

  unfoldable pub clear_bit_mask : ℕ → ℕ → World → World
  clear_bit_mask reg mask w =
      let (tmp, w1) = read_mfrc522 reg w in write_mfrc522 reg (bit_and tmp (65535 - mask)) w1

  unfoldable pub antenna_on : World → World
  antenna_on w =
      let (temp, w1) = read_mfrc522 tx_control_reg w in
      if bit_and temp 0x03 == 0 then set_bit_mask tx_control_reg 0x03 w1 else w1

  unfoldable pub antenna_off : World → World
  antenna_off w = clear_bit_mask tx_control_reg 0x03 w

  unfoldable pub reset : World → World
  reset w = write_mfrc522 command_reg pcd_reset_phase w

  unfoldable pub init : World → World
  init w =
      let w1 = digital_write m.pin_slave_select 0 (pin_mode m.pin_slave_select 1 w) in
      let w2 = digital_write m.pin_reset 0 (pin_mode m.pin_reset 1 w1) in
      let w3 = reset (digital_write m.pin_reset 1 w2) in
      let w4 = write_mfrc522 t_prescaler_reg 0x3E (write_mfrc522 t_mode_reg 0x8D w3) in
      let w5 = write_mfrc522 t_reload_reg_h 0 (write_mfrc522 t_reload_reg_l 30 w4) in
      antenna_on (write_mfrc522 mode_reg 0x3D (write_mfrc522 tx_auto_reg 0x40 w5))

  -- A byte to each register in turn, and as many reads of one register.
  unfoldable pub write_fifo : List ℕ → World → World
  write_fifo [] w = w
  write_fifo (b ∷ bs) w = write_fifo bs (write_mfrc522 fifo_data_reg b w)

  unfoldable pub read_fifo : ℕ → World → List ℕ × World
  read_fifo zero w = ([], w)
  read_fifo (suc n) w =
      let (b, w1) = read_mfrc522 fifo_data_reg w in let (bs, w2) = read_fifo n w1 in (b ∷ bs, w2)

  -- The four effects of a write, in order.
  pub trace-write_mfrc522 :
      (addr val : ℕ) (w : World)
      → (write_mfrc522 addr val w).trace
        ≡ w.trace
          ++ (pin_set m.pin_slave_select 0
              ∷ transferred (u8 (bit_and (addr * 2) 0x7E))
              ∷ transferred (u8 val)
              ∷ pin_set m.pin_slave_select 1
              ∷ [])
  unfolding write_mfrc522
  trace-write_mfrc522 addr val w = simp append_assoc
