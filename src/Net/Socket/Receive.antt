-- ===== src/Net/Socket/Receive.antt =====
-- What `listenMsg` has read when it reports a message.
use dread.Base.{
  ℕ, suc, ◌-◌, ◌<◌, ◌≡◌, ◌≢◌, refl, sym, ap, subst, ◌∙◌, Option, none, some, List, [], ◌∷◌, ◌++◌,
  map, append_assoc, append-nil, u8, get_or, take, replicate, length, arith, take-length, some_inj,
}
use dread.Hardware.{World, Port, Effect, got, wrote, wrote_block, millis}
use dread.Hardware.Output.{write_text}
use dread.Net.Types.{Message, request_header, msg_footer, msg_size}
use dread.Net.Socket.{
  Socket, SocketCode, msg_received, Listen, collect, await_header, listen_code, listen_msg, process,
  finish, finished, report, world_after, then_collect, first_matched, time_text, listen_of,
}
use dread.Net.Socket.Reading.{Open, Closed, collect-Closed, await_header-length, await_header-Grown}
use dread.Hardware.Grown.{Grown, Grown-same, ◌after◌}

-- A complete message: its last byte is the footer, no other byte is, and its bytes are what the port gave
-- in the last reads of the call, in order: behind them stands only the note of the time.
pub record Received (p logger : Port) (footer n : ℕ) (w : World) (msg : List ℕ) (w' : World)
    : Type 0 where
  pub size : length msg ≡ n
  pub ended : get_or msg (n - 1) 0 ≡ footer
  pub clean : (i : ℕ) → suc i < n → get_or msg i 0 ≢ footer
  pub before : List Effect
  pub time : ℕ
  pub read_last :
      w'.trace
      ≡ ((w.trace ++ before) ++ map (got p) msg)
        ++ (wrote_block logger (take 2 time_text) ∷ wrote logger time ∷ [])

-- The code is the first of `SocketCodes` exactly when the buffer is full and ends in the footer.
pub listen_code_received :
    (c : Listen) (msg : List ℕ) (p time : ℕ)
    → listen_code c msg p time ≡ msg_received
    → (p ≡ c.size) × (get_or msg (c.size - 1) 0 ≡ c.footer)
unfolding listen_code
listen_code_received c msg p time h = ground arith

finish-Received :
    (c : Listen) (v : World) (start : List Effect) (r : List ℕ × ℕ × ℕ × World) {msg : List ℕ}
    {w : World}
    → (before : List Effect) × (start ≡ v.trace ++ before)
    → Closed c start r.0 r.1 r.3
    → finish c r ≡ (msg_received, msg, w)
    → Received c.socket.port c.socket.logger c.footer c.size v msg w
finish-Received c v start r {msg} {w} (before, grown) o e =
    subst (λ q. Received c.socket.port c.socket.logger c.footer c.size v q.1 q.2) e
      (record {
        size = o.size;
        ended = code.1;
        clean = λ i l. o.clean i (rw code.0 l);
        before = before;
        time = u8 r.2;
        read_last =
            rw (o.log, all) (append_assoc (start ++ map (got c.socket.port) r.0) _ _)
            ∙ ap (λ t. (t ++ map (got c.socket.port) r.0) ++ logs) grown;
      })
  where
    logs : List Effect
    logs = wrote_block c.socket.logger (take 2 time_text) ∷ wrote c.socket.logger (u8 r.2) ∷ []

    code : (r.1 ≡ c.size) × (get_or r.0 (c.size - 1) 0 ≡ c.footer)
    code = listen_code_received c r.0 r.1 r.2 (ap (λ q. q.0) e)

    all : take r.1 r.0 ≡ r.0
    all = rw (code.0, ← o.size) (take-length r.0)

then_collect-Received :
    (fuel : ℕ) (c : Listen) (v : World) (a : Option (List ℕ × World)) {msg : List ℕ} {w : World}
    → c.size < 256
    → 0 < c.size
    → ((r : List ℕ × World) → a ≡ some r → (length r.0 ≡ c.size) × Grown v r.1)
    → then_collect fuel c a ≡ some (msg_received, msg, w)
    → Received c.socket.port c.socket.logger c.footer c.size v msg w
then_collect-Received fuel c v none small pos len h = cc
then_collect-Received fuel c v (some (m, w0)) {msg} {w} small pos len h =
    go (collect fuel c m 0 w1) refl h
  where
    w1 : World
    w1 = write_text c.socket.logger first_matched w0

    here : Grown v w1
    here =
        record { more = wrote_block c.socket.logger (take 2 first_matched) ∷ []; grown = refl }
        after (len (m, w0) refl).1

    open_ : Open c w1.trace m 0 w1
    open_ = record {
      size = (len (m, w0) refl).0;
      room = pos;
      clean = λ i l. absurd (omega arith);
      log = sym (append-nil w1.trace);
    }

    go :
        (s : Option (List ℕ × ℕ × ℕ × World))
        → collect fuel c m 0 w1 ≡ s
        → finished c s ≡ some (msg_received, msg, w)
        → Received c.socket.port c.socket.logger c.footer c.size v msg w
    go none e x = cc
    go (some r) e x =
        finish-Received c v w1.trace r (here.more, here.grown)
          (collect-Closed c small w1.trace fuel m 0 w1 open_ e) (some_inj x)

process-some :
    (fuel : ℕ) (s : Socket) (timeout : ℕ) (w : World) {msg : Message} {w' : World}
    → process fuel s timeout w ≡ some (msg_received, msg, w')
    → Received s.port s.logger msg_footer msg_size w msg w'
unfolding process listen_msg
process-some fuel s timeout w h =
    then_collect-Received fuel c w (await_header fuel c (replicate 20 0) w1) (omega arith)
      (omega arith)
      (λ r e. (
        await_header-length fuel c _ w1 e ∙ zeroed,
        await_header-Grown fuel c _ w1 e after Grown-same w w1 refl,
      ))
      h
  where
    c : Listen
    c = listen_of s request_header msg_footer msg_size timeout (millis w).0

    w1 : World
    w1 = (millis w).1

    zeroed : length (replicate {A = ℕ} 20 0) ≡ 20
    zeroed = refl

-- Whenever `process` reports a message as received, it has 20 bytes, the footer `'!'` at the end and
-- nowhere else, and these bytes are the last that the port gave in this call, in that order: the last
-- that was done is the reads of these bytes, one after the other, and the note of the time to the
-- logger.
pub process-Received :
    (fuel : ℕ) (s : Socket) (timeout : ℕ) (w : World) {msg : Message}
    → report (process fuel s timeout w) ≡ some (msg_received, msg)
    → Received s.port s.logger msg_footer msg_size w msg (world_after w (process fuel s timeout w))
process-Received fuel s timeout w {msg} h = go (process fuel s timeout w) refl h
  where
    go :
        (r : Option (SocketCode × Message × World))
        → process fuel s timeout w ≡ r
        → report r ≡ some (msg_received, msg)
        → Received s.port s.logger msg_footer msg_size w msg (world_after w r)
    go none e x = cc
    go (some (code, m, w')) e x =
        let same : (code, m) ≡ (msg_received, msg) = some_inj x in
        rw (← ap (λ q. q.1) same) (
          process-some fuel s timeout w
            (e ∙ ap (λ (q : SocketCode × Message). some (q.0, m, w')) same))
