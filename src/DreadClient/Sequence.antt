-- ===== src/DreadClient/Sequence.antt =====
-- In which order the loop of an upload sends the bytes of the file.
use dread.Base.{
  ℕ, zero, suc, ◌+◌, ◌-◌, ◌≤◌, ◌≡◌, inl, inr, refl, ap, subst, ◌∙◌, Bool, Option, some, List, [],
  ◌∷◌, ◌++◌, arith,
}
use dread.Hardware.{World, Port}
use dread.Hardware.Returns.{Ends, Ends-then, Ends-if, Ends-value, Ends-map}
use dread.Hardware.Grown.{Grown, Grown-same, ◌after◌, Grows}
use dread.Locale.{Locale}
use dread.Modem.{Modem, send_packet_size, send_packet_data}
use dread.Modem.Keeping.{send_packet_size-Grows}
use dread.Modem.Sending.{read_bytes, read_on, Sent, Delivery, send_packet_data-Ends}
use dread.Persistence.Interface.{byte_of}
use dread.Persistence.File.{FileStore}
use dread.Persistence.File.Library.{SdLibrary}
use dread.DreadClient.{packet_size, goes_on, files, upload_loop}

-- The packets of a session, one after the other, and the bytes in them: each went out as `Sent` says, from
-- the place of the reader behind the last; between them the trace only grows and the reader stays.
pub data Carries (m : Modem) (fuel : ℕ) {R : Type 0} (next : R → Option ℕ × R)
    : List ℕ → R → World → R → World → Type 0 where
  over : {r : R} {w w' : World} → Grown w w' → Carries m fuel next [] r w r w'
  between :
      {bs : List ℕ} {r r' : R} {w v w' : World}
      → Grown w v
      → Carries m fuel next bs r v r' w'
      → Carries m fuel next bs r w r' w'
  packet :
      {bs : List ℕ} {r r1 r' : R} {w v w' : World} (size : ℕ)
      → Sent m fuel next size r w r1 v
      → Carries m fuel next bs r1 v r' w'
      → Carries m fuel next (read_bytes next size r ++ bs) r w r' w'

module _ {R : Type 0} (next : R → Option ℕ × R) where
  read_bytes_add :
      (n k : ℕ) (r : R)
      → read_bytes next n r ++ read_bytes next k (read_on next n r) ≡ read_bytes next (n + k) r
  unfolding read_bytes read_on
  read_bytes_add zero k r = ap (λ n. read_bytes next n r) (omega arith)
  read_bytes_add (suc n) k r =
      let next_one : suc (n + k) ≡ suc n + k = omega arith in
      ap (λ l. byte_of (next r).0 ∷ l) (read_bytes_add n k (next r).1)
      ∙ ap (λ n. read_bytes next n r) next_one

  read_on_add : (n k : ℕ) (r : R) → read_on next k (read_on next n r) ≡ read_on next (n + k) r
  unfolding read_on
  read_on_add zero k r = ap (λ n. read_on next n r) {x = k} {y = 0 + k} (omega arith)
  read_on_add (suc n) k r =
      let next_one : suc (n + k) ≡ suc n + k = omega arith in
      read_on_add n k (next r).1 ∙ ap (λ n. read_on next n r) next_one

packet_size_bound : (len : ℕ) → packet_size len ≤ len
packet_size_bound len = ground arith

module _ (m : Modem) (fuel : ℕ) {R : Type 0} (next : R → Option ℕ × R) where
  -- The first bytes of the reader, as many as it stands behind now, in order; with what is left they are at
  -- most `len`.
  pub record InOrder (len rest : ℕ) (r : R) (w : World) (r' : R) (w' : World) : Type 0 where
    pub count : ℕ
    pub bound : count + rest ≤ len
    pub reader : r' ≡ read_on next count r
    pub carried : Carries m fuel next (read_bytes next count r) r w r' w'

  InOrder-over : (len : ℕ) (r : R) (w : World) → InOrder len len r w r w
  unfolding read_on read_bytes
  InOrder-over len r w = record {
    count = 0;
    bound = omega arith;
    reader = refl;
    carried = over (Grown-same w w refl);
  }

  InOrder-between :
      (len less rest : ℕ) (r r' : R) (w v w' : World)
      → less ≤ len
      → Grown w v
      → InOrder less rest r v r' w'
      → InOrder len rest r w r' w'
  InOrder-between len less rest r r' w v w' l g o = record {
    count = o.count;
    bound = omega (arith, o.bound, l);
    reader = o.reader;
    carried = between g o.carried;
  }

  InOrder-packet :
      (len rest size : ℕ) (r r1 r' : R) (w v w' : World)
      → size ≤ len
      → Sent m fuel next size r w r1 v
      → InOrder (len - size) rest r1 v r' w'
      → InOrder len rest r w r' w'
  InOrder-packet len rest size r r1 r' w v w' l s o = record {
    count = size + o.count;
    bound = omega (arith, o.bound);
    reader = o.reader ∙ ap (read_on next o.count) s.reader ∙ read_on_add next size o.count r;
    carried =
        subst (λ bs. Carries m fuel next bs r w r' w')
          (ap (λ q. read_bytes next size r ++ read_bytes next o.count q) s.reader
            ∙ read_bytes_add next size o.count r)
          (packet size s o.carried);
  }

module _ {F H : Type 0} (sd : SdLibrary F H) (logger : Port) (m : Modem) (locale : Locale)
    (modem_fuel : ℕ) where
  abbrev next : FileStore F H → Option ℕ × FileStore F H
  next = (files sd logger m locale modem_fuel).read

  abbrev InOrderFrom : ℕ → FileStore F H → World → Bool × ℕ × FileStore F H → World → Type 0
  InOrderFrom len s w r w' = InOrder m modem_fuel next len r.1 s w r.2 w'

  upload_loop-Ends :
      (fuel len : ℕ) (result : Bool) (s : FileStore F H) (w : World)
      → Ends (InOrderFrom len s w) (upload_loop sd logger m locale modem_fuel fuel len result s w)
  unfolding upload_loop Ends Grows Delivery
  upload_loop-Ends zero len result s w = tt
  upload_loop-Ends (suc fuel) len result s w =
      Ends-if (InOrderFrom len s w) (goes_on len result) _ (some ((result, len, s), w))
        (λ on.
          Ends-then (λ sent v. Grown w v) (InOrderFrom len s w)
            (send_packet_size m modem_fuel size w) _ (send_packet_size-Grows m modem_fuel size w)
            λ sent v g.
              Ends-then (Delivery m modem_fuel next size s v) (InOrderFrom len s w)
                (send_packet_data m modem_fuel next size s v) _
                (send_packet_data-Ends m modem_fuel next size s v)
                λ s1 u d.
                  Ends-map (InOrderFrom (len - size) s1 u) (InOrderFrom len s w)
                    (upload_loop sd logger m locale modem_fuel fuel (len - size) sent s1 u)
                    (upload_loop-Ends fuel (len - size) sent s1 u) (further v g s1 u d))
        λ off. InOrder-over m modem_fuel next len s w
    where
      size : ℕ
      size = packet_size len

      further :
          (v : World)
          → Grown w v
          → (s1 : FileStore F H) (u : World) → Delivery m modem_fuel next size s v s1 u
          → (r : Bool × ℕ × FileStore F H) (w' : World) → InOrderFrom (len - size) s1 u r w'
          → InOrderFrom len s w r w'
      further v g s1 u (inl (same, h)) r w' o =
          InOrder-between m modem_fuel next len (len - size) r.1 s r.2 w u w' (omega arith)
            (h after g) (subst (λ q. InOrderFrom (len - size) q u r w') same o)
      further v g s1 u (inr sent) r w' o =
          InOrder-between m modem_fuel next len len r.1 s r.2 w v w' (omega arith) g (
            InOrder-packet m modem_fuel next len r.1 size s s1 r.2 v u w' (packet_size_bound len)
              sent o)

  -- An upload sends the file from the reader's place on, in order: when the loop returns, the reader stands
  -- behind some number of its bytes, which is, with the length that is left, at most the length at
  -- the beginning, and the packets carried exactly these bytes, in this order. A packet's bytes went
  -- out with nothing between them, and only after the modem's response "FTPPUT:2,"; between the
  -- packets the reader stood still and the trace only grew.
  pub upload_loop-InOrder :
      (fuel len rest : ℕ) (result result' : Bool) (s s' : FileStore F H) (w w' : World)
      → upload_loop sd logger m locale modem_fuel fuel len result s w
        ≡ some ((result', rest, s'), w')
      → InOrder m modem_fuel next len rest s w s' w'
  upload_loop-InOrder fuel len rest result result' s s' w w' e =
      Ends-value (InOrderFrom len s w) _ (result', rest, s') w'
        (upload_loop-Ends fuel len result s w) e
