-- ===== src/Gateway/Exchange.antt =====
-- A slave's answer on the wire, and the master at the other end.
mod Tests
use dread.Base.{
  ℕ, zero, suc, ◌+◌, ◌<◌, ◌≡◌, ◌≢◌, refl, sym, ap, subst, ◌∙◌, true, ◌⊎◌, inl, inr, Option, some,
  List, [], ◌∷◌, ◌++◌, ◌==◌, set, length, drop, if◌then◌else◌, ==_true, arith, some_inj,
}
use dread.Base.Avoiding.{Avoids, Avoids-append, Avoids-front, Avoids-set}
use dread.Hardware.{World, Port, Effect, wrote, wrote_block, millis}
use dread.Locale.{Locale}
use dread.Net.Types.{Message, kind, request_get_record, request_header, msg_footer, msg_size}
use dread.Net.Socket.{Socket, listen_of}
use dread.Net.Socket.Arrivals.{future}
use dread.Net.Socket.Shortage.{StaysOver}
use dread.Net.Socket.Silence.{Unframed, Headless}
use dread.Net.Manager.Validity.{IsValid}
use dread.Persistence.Interface.{Persistence}
use dread.Gateway.Client.{Client, Poll, poll_records}
use dread.Gateway.Client.Answers.{poll_records-unheard}
use dread.Gateway.Server.{Server, Listening, session}
use dread.Gateway.Server.Lines.{Viewed, Lines, joined, place, head, responses, session-sends}

abbrev bytes_of : Port → Effect → List ℕ
bytes_of p (wrote q b) = if q == p then b ∷ [] else []
bytes_of p (wrote_block q bs) = if q == p then bs else []
bytes_of p e = []

-- The bytes that go out at a port, in order.
unfoldable pub sent : Port → List Effect → List ℕ
sent p [] = []
sent p (e ∷ es) = bytes_of p e ++ sent p es

-- The rounds of a listener at the port `p` read nothing but a beginning of these bytes.
unfoldable pub Wire : Port → World → List ℕ → Type 0
Wire p w bs = (k : ℕ) → (rest : List ℕ) × (bs ≡ future k p w ++ rest)

Avoids-place :
    (h : ℕ) (bs : List ℕ) (i : ℕ) (m : Message) → Avoids h bs → Avoids h m → Avoids h (place i bs m)
unfolding Avoids place
Avoids-place h [] i m a am = am
Avoids-place h (b ∷ bs) i m a am =
    Avoids-place h bs (suc i) (set m i b) a.1 (Avoids-set h m i b am a.0)

-- No line has the byte.
unfoldable pub AllAvoid : ℕ → List (List ℕ) → Type 0
AllAvoid h [] = Unit {0}
AllAvoid h (l ∷ ls) = Avoids h l × AllAvoid h ls

responses-Avoids :
    (p : Port) (address : ℕ) (m : Message) (ls : List (List ℕ))
    → address ≢ request_header
    → Avoids request_header m
    → AllAvoid request_header ls
    → Avoids request_header (sent p (responses p address m ls))
unfolding sent responses AllAvoid Avoids
responses-Avoids p address m [] n a all = tt
responses-Avoids p address m (l ∷ ls) n a all =
    let m1 = head address m in
    let m2 = place 3 l m1 in
    let a1 : Avoids request_header m1 =
      Avoids-set request_header _ 1 request_get_record
        (Avoids-set request_header _ 0 address
          (Avoids-set request_header m 2 0 a (λ e. omega arith)) n)
        (λ e. omega arith) in
    let a2 : Avoids request_header m2 = Avoids-place request_header l 3 m1 all.0 a1 in
    let here : (p == p) ≡ true = ==_true refl in
    rw here (
      Avoids-append request_header m1 _ a1
        (Avoids-append request_header m2 _ a2 (responses-Avoids p address m2 ls n a2 all.1)))

append_cancel : (xs : List Effect) {ys zs : List Effect} → xs ++ ys ≡ xs ++ zs → ys ≡ zs
append_cancel [] e = e
append_cancel (x ∷ xs) e = append_cancel xs (ap (drop 1) e)

-- The records of a slave do not reach the master: let a slave answer a request for the records, with lines
-- that wait in its reader, and let the master's port bring nothing but a beginning of the bytes that
-- the slave sent in this session. If none of the lines, of the response's bytes before and the address
-- is the byte `'@'`, then a poll that returns leaves a well-formed table of addresses and the master's
-- persistence as they were. What the master's clock has to satisfy is that the reading behind the
-- first one after the timeout comes after the timeout, too.
pub exchange-unheard :
    {S : Type 0} (p : Persistence S) (IsFine : S → Type 0) (view : S → List ℕ)
    (viewed : Viewed p IsFine view) (slave : Server) (fuel : ℕ) (s s1 : Listening S) (v v1 : World)
    (log : List Effect) (l : List ℕ) (ls : List (List ℕ)) {T : Type 0} (q : Persistence T)
    (locale : Locale) (master : Client) (fuel' : ℕ) (m m1 : Poll T) (w w1 : World)
    → kind s.request ≡ request_get_record
    → IsFine s.store
    → Lines (l ∷ ls)
    → view s.store ≡ joined (l ∷ ls)
    → length ls < fuel
    → session slave p fuel s v ≡ some (s1, v1)
    → v1.trace ≡ v.trace ++ log
    → Wire master.socket.port w (sent slave.socket.port log)
    → s.address ≢ request_header
    → Avoids request_header s.response
    → AllAvoid request_header (l ∷ ls)
    → IsValid m.manager
    → StaysOver
        (listen_of master.socket request_header msg_footer msg_size 1000 (millis w).0)
        (millis w).1
    → poll_records master q locale fuel' m w ≡ some (m1, w1)
    → (m1.manager ≡ m.manager) × (m1.store ≡ m.store)
unfolding Unframed Headless Wire
exchange-unheard p IsFine view viewed slave fuel s s1 v v1 log l ls q locale master fuel' m m1 w w1
      get fine lines e lt run_ grown wire n a all valid over polled =
    let (s2, v2, run2, empty, t) =
      (session-sends p IsFine view viewed) slave fuel s v l ls get fine lines e lt in
    let same : v1.trace ≡ v2.trace = ap (λ r. r.1.trace) (some_inj (sym run_ ∙ run2)) in
    let logged : log ≡ responses slave.socket.port s.address s.response (l ∷ ls) =
      append_cancel v.trace (sym grown ∙ same ∙ t) in
    let plain : Avoids request_header (sent slave.socket.port log) =
      subst (λ x. Avoids request_header (sent slave.socket.port x)) (sym logged)
        (responses-Avoids slave.socket.port s.address s.response (l ∷ ls) n a all) in
    poll_records-unheard master q locale fuel' m m1 w w1 valid
      (inr λ k.
        let (rest, front) = wire k in
        Avoids-front request_header (future k master.socket.port w) rest
          (subst (Avoids request_header) front plain))
      over polled
