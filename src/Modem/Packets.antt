-- ===== src/Modem/Packets.antt =====
-- Support/Modem/Modem.cpp: the packet sessions over the commands.
use dread.Base.{ℕ, zero, suc, Bool, false, Option, List, [], ◌∷◌, ◌++◌, if◌then◌else◌}
use dread.Hardware.{World, Port, write}
use dread.Hardware.Output.{println}
use dread.Hardware.Monad.{M, ◌>>=◌, ◌>>◌, pure, run, ask, when}
use dread.Persistence.Interface.{byte_of}
use dread.Modem.Commands.{
  Sim900, match_response, wait_for, set_at_cmd, set_at_parameter, set_at_number,
}

abbrev pub gsm_tout : ℕ
gsm_tout = 5000

abbrev pub gsm_mout : ℕ
gsm_mout = 15000

-- "OK", "FTPPUT:1,1,", "FTPPUT:1,0" and "FTPPUT:2,"
abbrev pub ok_text : List ℕ
ok_text = b'O' ∷ b'K' ∷ []

abbrev pub ftpput : List ℕ
ftpput = b'F' ∷ b'T' ∷ b'P' ∷ b'P' ∷ b'U' ∷ b'T' ∷ []

abbrev pub plus_ftp_put : List ℕ
plus_ftp_put = ftpput ++ (b':' ∷ b'1' ∷ b',' ∷ b'1' ∷ b',' ∷ [])

abbrev pub plus_ftp_put_closed : List ℕ
plus_ftp_put_closed = ftpput ++ (b':' ∷ b'1' ∷ b',' ∷ b'0' ∷ [])

abbrev pub plus_ftp_put_length : List ℕ
plus_ftp_put_length = ftpput ++ (b':' ∷ b'2' ∷ b',' ∷ [])

-- "FTPPUTNAME=", "FTPPUT=1", "FTPPUT=2," and "FTPPUT=2,0"
abbrev pub ftp_put_filename : List ℕ
ftp_put_filename = ftpput ++ (b'N' ∷ b'A' ∷ b'M' ∷ b'E' ∷ b'=' ∷ [])

abbrev pub ftp_put_open : List ℕ
ftp_put_open = ftpput ++ (b'=' ∷ b'1' ∷ [])

abbrev pub ftp_put_length : List ℕ
ftp_put_length = ftpput ++ (b'=' ∷ b'2' ∷ b',' ∷ [])

abbrev pub ftp_put_close : List ℕ
ftp_put_close = ftpput ++ (b'=' ∷ b'2' ∷ b',' ∷ b'0' ∷ [])

pub record Modem : Type 0 where
  pub sim900 : Sim900
  pub logger : Port

module _ (m : Modem) (fuel : ℕ) where
  -- The flag is a local variable that nothing sets.
  unfoldable pub is_connected : Bool
  is_connected = false

  -- The function ends without a `return`: what its caller gets is the argument `garbage`.
  unfoldable pub close_packet_session : Bool → M Bool
  close_packet_session garbage = do
    closed ← set_at_cmd m.sim900 fuel ftp_put_close ok_text gsm_tout
    confirmed ← wait_for m.sim900 fuel plus_ftp_put_closed gsm_mout
    pure garbage

  unfoldable pub update_packet_name : List ℕ → M Bool
  update_packet_name filename =
      set_at_parameter m.sim900 fuel ftp_put_filename ok_text filename gsm_tout

  -- One call of `matchResponse`, from the start of the response.
  unfoldable pub answered : List ℕ → M Bool
  answered expected = do r ← match_response m.sim900 fuel expected 0 false; pure (r.0)

  unfoldable pub open_packet_session : M Bool
  open_packet_session = do
    opened ← set_at_cmd m.sim900 fuel ftp_put_open ok_text gsm_tout
    answered plus_ftp_put

  unfoldable pub send_packet_size : ℕ → M Bool
  send_packet_size size = do
    sent ← set_at_cmd m.sim900 fuel ftp_put_length ok_text gsm_tout
    answered plus_ftp_put_length

  module _ {R : Type 0} (next : R → Option ℕ × R) where
    -- `n` bytes from a reader to the modem; `next` is the reader's `read`.
    unfoldable pub send_bytes : ℕ → R → World → R × World
    send_bytes zero reader w = (reader, w)
    send_bytes (suc n) reader w =
        let (b, reader') = next reader in
        send_bytes n reader' (write m.sim900.hard_port (byte_of b) w)

    unfoldable pub send_packet_data : ℕ → R → M R
    send_packet_data size reader = do
      result ← set_at_number m.sim900 fuel ftp_put_length plus_ftp_put_length size gsm_mout
      run (println m.logger)
      reader' ← if result then ask (send_bytes size reader) else pure reader
      done ← wait_for m.sim900 fuel ok_text gsm_tout
      when done (wait_for m.sim900 fuel plus_ftp_put gsm_tout >>= λ _. pure tt)
      pure reader'
