-- ===== src/Net/Socket/Silence.antt =====
-- What `listenMsg` makes of bytes that hold no message in its frame.
use dread.Base.{
  ℕ, zero, suc, ◌<◌, ◌≤◌, ◌≡◌, ◌≢◌, ◌⊎◌, inl, inr, refl, sym, ap, subst, ◌∙◌, Option, none, some,
  List, ◌∷◌, get_or, length, length-set, get_or-set_self, replicate, arith, Bool-cases, some_inj,
}
use dread.Base.Avoiding.{Avoids}
use dread.Hardware.{World, Port, Effect, millis}
use dread.Hardware.Output.{write_text}
use dread.Net.Types.{Message, request_header, msg_footer, msg_size}
use dread.Net.Socket.{
  Socket, SocketCode, msg_received, Listen, await_header, awaits_on, listen_msg, listen_of, process,
  then_collect, first_matched,
}
use dread.Net.Socket.Rounds.{first_round, await_header-stop, await_header-next}
use dread.Net.Socket.Arrivals.{future, Reads, put, first_round-Reads}
use dread.Net.Socket.Shortage.{
  AtMost, StaysOver, StaysOver-next, in_time, OverNext, Waited, by_time, over-after,
  await_header-Waited, finished-short,
}

-- No round reads the header.
unfoldable pub Headless : ℕ → Port → World → Type 0
Headless h p w = (k : ℕ) → Avoids h (future k p w)

Reads-Headless :
    (h : ℕ) (p : Port) (w w' : World) (o : Option ℕ)
    → Reads p w w' o
    → Headless h p w
    → Headless h p w'
unfolding Reads Headless Avoids
Reads-Headless h p w w' none r x = λ k. subst (Avoids h) (r k) (x (suc k))
Reads-Headless h p w w' (some b) r x =
    λ k. let y : Avoids h (b ∷ future k p w') = subst (Avoids h) (r k) (x (suc k)) in y.1

Reads-other :
    (h : ℕ) (p : Port) (w w' : World) (b : ℕ) → Reads p w w' (some b) → Headless h p w → b ≢ h
unfolding Reads Headless Avoids
Reads-other h p w w' b r x =
    let y : Avoids h (b ∷ future 0 p w') = subst (Avoids h) (r 0) (x 1) in y.0

put-other :
    (h : ℕ) (msg : List ℕ) (o : Option ℕ)
    → 0 < length msg
    → get_or msg 0 0 ≢ h
    → ((b : ℕ) → o ≡ some b → b ≢ h)
    → get_or (put msg 0 o) 0 0 ≢ h
put-other h msg none l n other e = n e
put-other h msg (some b) l n other e = other b refl (sym (get_or-set_self msg 0 b 0 l) ∙ e)

length-put : (msg : List ℕ) (o : Option ℕ) → length (put msg 0 o) ≡ length msg
length-put msg none = refl
length-put msg (some b) = length-set msg 0 b

-- Without a header the first loop ends only after the timeout.
await_header-Headless :
    (fuel : ℕ) (c : Listen) (msg : List ℕ) (w : World) (r : List ℕ × World)
    → 0 < length msg
    → get_or msg 0 0 ≢ c.header
    → Headless c.header c.socket.port w
    → StaysOver c w
    → await_header fuel c msg w ≡ some r
    → OverNext c r.1
unfolding await_header
await_header-Headless zero c msg w r l n h over e = cc
await_header-Headless (suc fuel) c msg w r l n h over e =
    let g = first_round c msg w in
    let (o, reads, put_) = first_round-Reads c msg w in
    let h' = Reads-Headless c.header c.socket.port w g.2 o reads h in
    let n' : get_or g.0 0 0 ≢ c.header = λ x.
      put-other c.header msg o l n
        (λ b same.
          Reads-other c.header c.socket.port w g.2 b (subst (Reads c.socket.port w g.2) same reads)
            h)
        (ap (λ t. get_or t 0 0) (sym put_) ∙ x) in
    elim (Bool-cases (awaits_on c g.0 g.1)) [
      | inl on ↦
          await_header-Headless fuel c g.0 g.2 r
            (omega (arith, ap length put_, length-put msg o, l)) n' h'
            (StaysOver-next c msg w over (in_time c g.0 g.1 on))
            (sym (await_header-next c msg w fuel on) ∙ e)
      | inr off ↦
          let same : some (g.0, g.2) ≡ some r = sym (await_header-stop c msg w fuel off) ∙ e in
          subst (λ t. OverNext c t.1) (some_inj same)
            (elim (by_time c g.0 g.1 off) [
              | inl x ↦ absurd (n' x)
              | inr late ↦ over-after c msg w over late
            ])
    ]

-- What comes at a port holds no message in its frame: at most 20 bytes come, which are one fewer than a
-- header and a message, or no byte is the header.
unfoldable pub Unframed : Port → World → Type 0
Unframed p w = AtMost msg_size p w ⊎ Headless request_header p w

-- Without a message in its frame nothing is received: if at most 20 bytes come, which is what `send` writes
-- for a message, or any bytes none of which is the header, then `process` does not report a message
-- as received. What the clock has to satisfy is that the reading behind the first one after the
-- timeout comes after the timeout, too.
pub process-Unframed :
    (fuel : ℕ) (s : Socket) (timeout : ℕ) (w w' : World) (code : SocketCode) (m : Message)
    → Unframed s.port w
    → StaysOver (listen_of s request_header msg_footer msg_size timeout (millis w).0) (millis w).1
    → process fuel s timeout w ≡ some (code, m, w')
    → code ≢ msg_received
unfolding process listen_msg Unframed AtMost Headless future StaysOver Waited OverNext
process-Unframed fuel s timeout w w' code m unframed over e =
    go (await_header fuel c (replicate 20 0) (millis w).1) refl e
  where
    c : Listen
    c = listen_of s request_header msg_footer msg_size timeout (millis w).0

    waited :
        (r : List ℕ × World)
        → await_header fuel c (replicate 20 0) (millis w).1 ≡ some r
        → AtMost msg_size s.port w ⊎ Headless request_header s.port w
        → (n : ℕ) × (n ≤ 20) × Waited c n r.1
    waited r e (inl few) =
        await_header-Waited fuel c (replicate 20 0) 20 (millis w).1 r (λ x. omega arith) few over e
    waited r e (inr headless) = (
      0,
      omega arith,
      inr (
          await_header-Headless fuel c (replicate 20 0) (millis w).1 r (omega arith)
            (λ x. omega arith) headless over e),
    )

    go :
        (o : Option (List ℕ × World))
        → await_header fuel c (replicate 20 0) (millis w).1 ≡ o
        → then_collect fuel c o ≡ some (code, m, w')
        → code ≢ msg_received
    go none e' f = cc
    go (some r) e' f =
        let (n, l, before) = waited r e' unframed in
        finished-short fuel c r.0 n (write_text s.logger first_matched r.1) (code, m, w') refl l
          before f

-- What only changes the trace keeps the bytes that come, and the clock.
pub Unframed-trace :
    (p : Port) (w : World) (t : List Effect) → Unframed p w → Unframed p (record w { trace = t })
unfolding Unframed AtMost Headless future
Unframed-trace p w t h = h

pub StaysOver-trace :
    (c : Listen) (w : World) (t : List Effect)
    → StaysOver c w
    → StaysOver c (record w { trace = t })
unfolding StaysOver
StaysOver-trace c w t h = h
