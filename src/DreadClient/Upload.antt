-- ===== src/DreadClient/Upload.antt =====
-- When the upload of the record file ends, and how.
use dread.Base.{
  ℕ, zero, suc, ◌+◌, ◌-◌, ◌<◌, ◌≡◌, refl, subst, Bool, true, false, Option, none, some, List, ◌==◌,
  ◌!=◌, ◌&&◌, u32, if◌then◌else◌, !=_true, arith,
}
use dread.Hardware.{World, Port, write}
use dread.Hardware.Output.{println}
use dread.Hardware.Monad.{pure, run}
use dread.Hardware.Returns.{Returns, Returns-bind_run, Returns-then, Returns-if}
use dread.Hid.{set_led}
use dread.Locale.{Locale, get_date_time}
use dread.Modem.{
  Modem, is_connected, open_packet_session, close_packet_session, send_packet_size,
  send_packet_data,
}
use dread.Persistence.Interface.{read_transaction}
use dread.Persistence.File.{FileStore, get_size, file_persistence}
use dread.Persistence.File.Library.{SdLibrary}
use dread.DreadClient.{
  Uploading, packet_size, goes_on, files, upload_loop, upload_with_date, dated, upload_packet,
  upload_from_persistence,
}

ends_false :
    (len : ℕ) (result : Bool) → len + 13 < 4294967296 → goes_on len result ≡ false → result ≡ false
ends_false len result l h =
    let e : (u32 (len + 13) != 0) ≡ true = !=_true (λ q. omega arith) in rw e at h

and-false : (a b c : Bool) → b ≡ false → (a && (b && c)) ≡ false
and-false true b c h = rw h refl
and-false false b c h = refl

module _ {F H : Type 0} (sd : SdLibrary F H) (logger : Port) (m : Modem) (locale : Locale)
    (modem_fuel : ℕ) where
  loop-false :
      (fuel len : ℕ) (result : Bool) (s : FileStore F H) (w : World)
      → len + 13 < 4294967296
      → Returns
          (λ (r : Bool × ℕ × FileStore F H). r.0 ≡ false)
          (upload_loop sd logger m locale modem_fuel fuel len result s w)
  unfolding upload_loop Returns
  loop-false zero len result s w l = tt
  loop-false (suc fuel) len result s w l =
      let P : Bool × ℕ × FileStore F H → Type 0 = λ r. r.0 ≡ false in
      Returns-if P (goes_on len result) _ (some ((result, len, s), w))
        (λ _. Returns-bind_run P (send_packet_size m modem_fuel (packet_size len) w) _ λ sent w1.
          Returns-bind_run P
            (send_packet_data m modem_fuel (files sd logger m locale modem_fuel).read
              (packet_size len) s w1)
            _ λ s1 w2. loop-false fuel (len - packet_size len) sent s1 w2 (omega arith))
        (ends_false len result l)

  with_date-false :
      (fuel : ℕ) (garbage : Bool) (u : Uploading F H) (w : World)
      → u32 (get_size sd logger u.persistence) + 13 < 4294967296
      → Returns
          (λ (r : Bool × Uploading F H). r.0 ≡ false)
          (upload_with_date sd logger m locale modem_fuel fuel garbage u w)
  unfolding upload_with_date file_persistence Returns
  with_date-false fuel garbage u w l =
      let P : Bool × Uploading F H → Type 0 = λ r. r.0 ≡ false in
      Returns-bind_run P (open_packet_session m modem_fuel w) _ λ result w1.
        Returns-then (λ (r : Bool × ℕ × FileStore F H). r.0 ≡ false) P
          (upload_loop sd logger m locale modem_fuel fuel (u32 (get_size sd logger u.persistence))
            result u.persistence w1)
          _ (loop-false fuel _ result u.persistence w1 l)
          λ r w2 e.
            Returns-bind_run P (run (λ w. println logger (write logger b'D' w)) w2) _ λ _ w3.
              Returns-bind_run P
                ((if r.0 then close_packet_session m modem_fuel garbage else pure false) w3)
                (λ closed. pure (
                  (r.1 == 0) && (r.0 && closed),
                  record u {
                    persistence = (files sd logger m locale modem_fuel).commit_transaction r.2;
                  },
                ))
                λ closed w4. and-false (r.1 == 0) r.0 closed e

  dated-false :
      (fuel : ℕ) (garbage : Bool) (u : Uploading F H) (w : World) (o : Option (List ℕ))
      → u32 (get_size sd logger u.persistence) + 13 < 4294967296
      → Returns
          (λ (r : Bool × Uploading F H). r.0 ≡ false)
          (dated sd logger m locale modem_fuel fuel garbage u o w)
  unfolding dated Returns
  dated-false fuel garbage u w none l = tt
  dated-false fuel garbage u w (some datetime) l =
      with_date-false fuel garbage (record u { datetime = datetime }) w l

  packet-false :
      (fuel : ℕ) (garbage : Bool) (u : Uploading F H) (w : World)
      → ((h : H) (f : F) → sd.size h f + 13 < 4294967296)
      → Returns
          (λ (r : Bool × Uploading F H). r.0 ≡ false)
          (upload_packet sd logger m locale modem_fuel fuel garbage u w)
  unfolding upload_packet get_size
  packet-false fuel garbage u w l =
      let s =
        ((files sd logger m locale modem_fuel).begin_transaction read_transaction
          u.persistence).1 in
      let big = l s.file s.card in
      dated-false fuel garbage (record u { persistence = s }) w (get_date_time locale u.datetime)
        (omega arith)

  -- Unless the SD library reports a file of almost 2^32 bytes, an upload that returns reports a failure:
  -- its loop, which goes on as long as 13 bytes more than the length that is left are not 0, ends
  -- only on a failure.
  pub upload_packet-false :
      (fuel : ℕ) (garbage : Bool) (u u' : Uploading F H) (w w' : World) (result : Bool)
      → ((h : H) (f : F) → sd.size h f + 13 < 4294967296)
      → upload_packet sd logger m locale modem_fuel fuel garbage u w ≡ some ((result, u'), w')
      → result ≡ false
  unfolding Returns
  upload_packet-false fuel garbage u u' w w' result l e =
      subst (Returns (λ (r : Bool × Uploading F H). r.0 ≡ false)) e
        (packet-false fuel garbage u w l)

  -- Whatever the timer asked for, a call of `uploadFromPersistence` sends nothing, leaves the persistence
  -- as it is, turns the leds off and clears the flag: `isConnected` is never true.
  pub upload_from_persistence-idle :
      (fuel : ℕ) (garbage : Bool) (u : Uploading F H) (w : World)
      → upload_from_persistence sd logger m locale modem_fuel fuel garbage u w
        ≡ some (record u { send_packet = false; leds = set_led 0 u.leds }, w)
  unfolding upload_from_persistence is_connected
  upload_from_persistence-idle fuel garbage u w = refl
