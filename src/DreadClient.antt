-- ===== src/DreadClient.antt =====
-- Application/DreadClient/DreadClient.cpp: the upload of the record file. `garbage` is what
-- `closePacketSession` gives its caller; `none` is fuel that ran out, or a write outside of a buffer.
pub mod Upload
pub mod Sequence
mod Tests
use dread.Base.{
  ℕ, zero, suc, ◌+◌, ◌-◌, Bool, true, false, Option, none, some, List, ◌==◌, ◌!=◌, ◌&&◌, leb, not,
  u32, if◌then◌else◌,
}
use dread.Hardware.{World, Port, write}
use dread.Hardware.Output.{println}
use dread.Hardware.Monad.{M, bind_run, ◌>>=◌, ◌>>◌, pure, run, fail}
use dread.Hid.{Hid, set_led}
use dread.Locale.{Locale, get_date_time}
use dread.Modem.{
  Modem, is_connected, open_packet_session, close_packet_session, send_packet_size,
  send_packet_data, update_packet_name,
}
use dread.Persistence.Interface.{Persistence, read_transaction}
use dread.Persistence.File.{FileStore, file_persistence, deprecate_filename, get_filename}
use dread.Persistence.File.Library.{SdLibrary}

-- The static flag, the persistence, the leds, and the static `datetime` of `uploadPacket`.
pub record Uploading (F H : Type 0) : Type 0 where
  pub send_packet : Bool
  pub persistence : FileStore F H
  pub leds : Hid
  pub datetime : List ℕ

abbrev pub check_time : {F H : Type 0} → Uploading F H → Uploading F H
check_time u = record u { send_packet = true }

-- The size of the next packet, and whether there is one: 13 bytes are added to the file's length.
abbrev pub packet_size : ℕ → ℕ
packet_size file_length = if leb 500 file_length then 500 else file_length

abbrev pub goes_on : ℕ → Bool → Bool
goes_on file_length result = (u32 (file_length + 13) != 0) && result

module _ {F H : Type 0} (sd : SdLibrary F H) (logger : Port) (m : Modem) (locale : Locale)
    (modem_fuel : ℕ) where
  abbrev files : Persistence (FileStore F H)
  files = file_persistence sd logger

  -- The loop: the result and the length at its end, and the persistence.
  unfoldable pub upload_loop : ℕ → ℕ → Bool → FileStore F H → M (Bool × ℕ × FileStore F H)
  upload_loop zero file_length result s w = none
  upload_loop (suc fuel) file_length result s w =
      let size = packet_size file_length in
      let next = bind_run (send_packet_size m modem_fuel size w) λ sent w1.
        bind_run (send_packet_data m modem_fuel files.read size s w1)
          λ s1 w2. upload_loop fuel (file_length - size) sent s1 w2 in
      if goes_on file_length result then next else some ((result, file_length, s), w)

  unfoldable pub upload_with_date : ℕ → Bool → Uploading F H → M (Bool × Uploading F H)
  unfolding upload_loop
  upload_with_date fuel garbage u = do
    result ← open_packet_session m modem_fuel
    r ← upload_loop fuel (u32 (files.get_size u.persistence)) result u.persistence
    run (λ w. println logger (write logger b'D' w))
    closed ← if r.0 then close_packet_session m modem_fuel garbage else pure false
    pure ((r.1 == 0) && (r.0 && closed), record u { persistence = files.commit_transaction r.2 })

  abbrev pub dated : ℕ → Bool → Uploading F H → Option (List ℕ) → M (Bool × Uploading F H)
  unfolding upload_with_date
  dated fuel garbage u none = fail
  dated fuel garbage u (some datetime) =
      upload_with_date fuel garbage (record u { datetime = datetime })

  unfoldable pub upload_packet : ℕ → Bool → Uploading F H → M (Bool × Uploading F H)
  unfolding dated
  upload_packet fuel garbage u =
      let (result, s) = files.begin_transaction read_transaction u.persistence in
      dated fuel garbage (record u { persistence = s }) (get_date_time locale u.datetime)

  -- The second condition and what follows it: `deprecateFilename`, and the new name for the modem.
  unfoldable pub renew : Bool × Uploading F H → M (Uploading F H)
  renew (false, u) w = some (u, w)
  renew (true, u) w =
      let (removed, s, leds, w1) = deprecate_filename sd logger u.persistence u.leds w in
      let u1 = record u { persistence = s; leds = leds } in
      let named =
        bind_run (update_packet_name m modem_fuel (get_filename sd logger s) w1)
          λ _ w2. some (u1, w2) in
      if removed then named else some (u1, w1)

  -- Every branch ends with the leds off.
  unfoldable pub upload_from_persistence : ℕ → Bool → Uploading F H → M (Uploading F H)
  unfolding upload_packet renew
  upload_from_persistence fuel garbage u =
      let upload : M (Uploading F H) = upload_packet fuel garbage u >>= renew in
      let tried : M (Uploading F H) =
        if not (is_connected m modem_fuel)
        then pure u
        else (if u.send_packet then upload else pure u) in
      tried >>= λ u1. pure (record u1 { send_packet = false; leds = set_led 0 u1.leds })
