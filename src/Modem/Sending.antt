-- ===== src/Modem/Sending.antt =====
-- What a packet session sends of the reader's bytes, and when.
use dread.Base.{
  ℕ, zero, suc, ◌≡◌, ◌⊎◌, inl, inr, refl, sym, ap, subst, ◌∙◌, Bool, true, false, Option, none,
  some, List, [], ◌∷◌, ◌++◌, if◌then◌else◌, arith,
}
use dread.Base.Avoiding.{Avoids}
use dread.Hardware.{World, Port, Effect}
use dread.Hardware.Output.{println, write_each, bytes_to, trace-write_each}
use dread.Hardware.Monad.{M, bind_run, ◌>>=◌, ◌>>◌, pure, run, ask, when}
use dread.Hardware.Returns.{Ends, Ends-map, Ends-then, Ends-value}
use dread.Hardware.Grown.{Grown, Grown-same, ◌after◌, Grows, Grows-later, Grows-then, Grown-println}
use dread.Persistence.Interface.{byte_of}
use dread.Modem.Commands.{wait_for, set_at_number}
use dread.Modem.Packets.{
  Modem, send_bytes, send_packet_data, ok_text, plus_ftp_put, plus_ftp_put_length, ftp_put_length,
  gsm_tout, gsm_mout,
}
use dread.Modem.Matching.{received}
use dread.Modem.Waiting.{wait_for-response}
use dread.Modem.Keeping.{
  wait_for-Grows, received-write_each, commanded, set_at_number-waits, received-commanded,
  set_at_number-Grows,
}

-- The first `n` bytes of a reader, and the reader behind them.
module _ {R : Type 0} (next : R → Option ℕ × R) where
  unfoldable pub read_bytes : ℕ → R → List ℕ
  read_bytes zero r = []
  read_bytes (suc n) r = let (b, r') = next r in byte_of b ∷ read_bytes n r'

  unfoldable pub read_on : ℕ → R → R
  read_on zero r = r
  read_on (suc n) r = read_on n (next r).1

module _ (m : Modem) (fuel : ℕ) {R : Type 0} (next : R → Option ℕ × R) where
  send_bytes-all :
      (n : ℕ) (r : R) (w : World)
      → send_bytes m fuel next n r w
        ≡ (read_on next n r, write_each m.sim900.hard_port (read_bytes next n r) w)
  unfolding send_bytes read_on read_bytes write_each
  send_bytes-all zero r w = refl
  send_bytes-all (suc n) r w = send_bytes-all n (next r).1 _

  -- How the packet's bytes went out: after the modem's response to the packet's length, the first
  -- `size` bytes of the reader, in order and nothing between them, and nothing of the reader after them.
  pub record Sent (size : ℕ) (r : R) (w : World) (r' : R) (w' : World) : Type 0 where
    pub confirmed : World
    pub kept : Grown w confirmed
    pub response :
        (between : List ℕ) × (received m.sim900.hard_port confirmed.trace
          ≡ (received m.sim900.hard_port w.trace ++ between) ++ plus_ftp_put_length)
    pub reader : r' ≡ read_on next size r
    pub after_it : List Effect
    pub sent :
        w'.trace
        ≡ (confirmed.trace ++ bytes_to m.sim900.hard_port (read_bytes next size r)) ++ after_it

  unfoldable pub Delivery : ℕ → R → World → R → World → Type 0
  Delivery size r w r' w' = ((r' ≡ r) × Grown w w') ⊎ Sent size r w r' w'

  -- What follows the data.
  waits : R → M R
  waits reader' = do
    done ← wait_for m.sim900 fuel ok_text gsm_tout
    when done (wait_for m.sim900 fuel plus_ftp_put gsm_tout >>= λ _. pure tt)
    pure reader'

  waits-Grows :
      (reader' : R) (w : World) → Ends (λ r w'. (r ≡ reader') × Grown w w') (waits reader' w)
  unfolding waits Grows Ends
  waits-Grows reader' w =
      let P : R → World → Type 0 = λ r w'. (r ≡ reader') × Grown w w' in
      Ends-then (λ done v. Grown w v) P (wait_for m.sim900 fuel ok_text gsm_tout w) _
        (wait_for-Grows m.sim900 ok_text fuel gsm_tout w)
        λ done v g.
          Ends-then (λ u v'. Grown w v') P
            (when done (wait_for m.sim900 fuel plus_ftp_put gsm_tout >>= λ _. pure tt) v) _
            (second done v g) λ u v' g'. (refl, g')
    where
      second :
          (done : Bool) (v : World)
          → Grown w v
          → Ends
              (λ u v'. Grown w v')
              (when done (wait_for m.sim900 fuel plus_ftp_put gsm_tout >>= λ _. pure tt) v)
      second true v g = Grows-later w v _ g (
          Grows-then v (wait_for m.sim900 fuel plus_ftp_put gsm_tout v) (λ _. pure tt)
            (wait_for-Grows m.sim900 plus_ftp_put fuel gsm_tout v) λ a u. Grown-same u u refl)
      second false v g = g

  plus_ftp_put_length-Avoids : Avoids 13 plus_ftp_put_length
  unfolding Avoids
  plus_ftp_put_length-Avoids = (
    (λ e. omega arith),
    (
      (λ e. omega arith),
      (
        (λ e. omega arith),
        (
          (λ e. omega arith),
          (
            (λ e. omega arith),
            (
              (λ e. omega arith),
              ((λ e. omega arith), ((λ e. omega arith), ((λ e. omega arith), tt))),
            ),
          ),
        ),
      ),
    ),
  )

  module _ (size : ℕ) (r : R) (w : World) where
    -- The answer to the packet's length, whatever it is, and the line to the logger.
    confirmed-Grown :
        (b : Bool) (w1 : World)
        → set_at_number m.sim900 fuel ftp_put_length plus_ftp_put_length size gsm_mout w
          ≡ some (b, w1)
        → Grown w (println m.logger w1)
    unfolding Grows
    confirmed-Grown b w1 e =
        Grown-println m.logger w1
        after Ends-value (λ a v. Grown w v) _ b w1 (set_at_number-Grows m.sim900 size w fuel) e

    -- The world from which the data goes out.
    module _ (w1 : World)
        (e : set_at_number m.sim900 fuel ftp_put_length plus_ftp_put_length size gsm_mout w
          ≡ some (true, w1)) where
      abbrev awaited :
          wait_for m.sim900 fuel plus_ftp_put_length gsm_mout (commanded m.sim900 size w)
          ≡ some (true, w1)
      awaited = sym (set_at_number-waits m.sim900 size w fuel) ∙ e

      abbrev hard : Port
      hard = m.sim900.hard_port

      confirmed-response :
          (between : List ℕ) × (received hard (println m.logger w1).trace
            ≡ (received hard w.trace ++ between) ++ plus_ftp_put_length)
      unfolding write_each
      confirmed-response =
          let (between, found) =
            wait_for-response m.sim900 fuel gsm_mout plus_ftp_put_length (commanded m.sim900 size w)
              w1 plus_ftp_put_length-Avoids (omega arith) (omega arith) awaited in
          (
            between,
            received-write_each hard m.logger (13 ∷ 10 ∷ []) w1
                ∙ found
                ∙ ap (λ l. (l ++ between) ++ plus_ftp_put_length)
                    (received-commanded m.sim900 size w),
          )

      delivered :
          let p = send_bytes m fuel next size r (println m.logger w1) in
          Ends (Delivery size r w) (waits p.0 p.1)
      unfolding Delivery
      delivered =
          let v = println m.logger w1 in
          let out = write_each hard (read_bytes next size r) v in
          subst (λ p. Ends (Delivery size r w) (waits p.0 p.1)) (sym (send_bytes-all size r v))
            (Ends-map _ (Delivery size r w) (waits (read_on next size r) out)
              (waits-Grows (read_on next size r) out)
              λ r' w' (same, g). inr (record {
                confirmed = v;
                kept = confirmed-Grown true w1 e;
                response = confirmed-response;
                reader = same;
                after_it = g.more;
                sent =
                    g.grown
                    ∙ ap (λ t. t ++ g.more) (trace-write_each hard (read_bytes next size r) v);
              }))

  -- A packet's bytes go out after the modem's response to its length, or not at all.
  pub send_packet_data-Ends :
      (size : ℕ) (r : R) (w : World)
      → Ends (Delivery size r w) (send_packet_data m fuel next size r w)
  unfolding send_packet_data Delivery waits Ends
  send_packet_data-Ends size r w =
      go (set_at_number m.sim900 fuel ftp_put_length plus_ftp_put_length size gsm_mout w) refl
    where
      go :
          (o : Option (Bool × World))
          → set_at_number m.sim900 fuel ftp_put_length plus_ftp_put_length size gsm_mout w ≡ o
          → Ends (Delivery size r w) (
              bind_run o λ result. do
                run (println m.logger)
                reader' ← if result then ask (send_bytes m fuel next size r) else pure r
                waits reader')
      go none e = tt
      go (some (true, w1)) e = delivered size r w w1 e
      go (some (false, w1)) e =
          Ends-map _ (Delivery size r w) (waits r (println m.logger w1))
            (waits-Grows r (println m.logger w1))
            λ r' w' (same, g). inl (same, g after confirmed-Grown size r w false w1 e)
