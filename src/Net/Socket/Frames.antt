-- ===== src/Net/Socket/Frames.antt =====
-- Which messages `listenMsg` receives: those that follow a header in time.
use dread.Base.{
  ℕ, zero, suc, ◌-◌, ◌<◌, ◌≤◌, ◌≡◌, ◌≢◌, sym, ap, ap₂, ◌∙◌, true, false, Option, none, some, List,
  [], ◌∷◌, ◌++◌, get_or, drop, length, replicate, arith, length-set, get_or-set_self,
}
use dread.Base.Avoiding.{Avoids}
use dread.Hardware.{World, Effect, millis}
use dread.Hardware.Output.{write_text}
use dread.Net.Types.{Message, request_header, msg_footer, msg_size}
use dread.Net.Socket.{
  Socket, msg_received, Listen, await_header, awaits_on, listen_code, listen_msg, listen_of,
  process, report, then_collect, finished, first_matched,
}
use dread.Net.Socket.Rounds.{first_round, first_round-clock, await_header-stop, await_header-next}
use dread.Net.Socket.Arrivals.{gives, future, Reads, put, first_round-Reads}
use dread.Net.Socket.Collecting.{
  EndsIn, EndsIn-last, InTime, InTime-now, InTime-later, first, collect-frame,
}

found :
    (c : Listen) (msg : List ℕ) (time : ℕ)
    → get_or msg 0 0 ≡ c.header
    → awaits_on c msg time ≡ false
found c msg time e = ground arith

code_received :
    (c : Listen) (msg : List ℕ) (p time : ℕ)
    → p ≡ c.size
    → get_or msg (c.size - 1) 0 ≡ c.footer
    → listen_code c msg p time ≡ msg_received
unfolding listen_code
code_received c msg p time e e' = ground arith

awaits :
    (c : Listen) (msg : List ℕ) (time : ℕ)
    → get_or msg 0 0 ≢ c.header
    → time < c.timeout
    → awaits_on c msg time ≡ true
awaits c msg time n t = ground arith

-- What the first loop does with bytes that are not the header, the header, and then `m`.
record Found (c : Listen) (fuel : ℕ) (msg : List ℕ) (w : World) (m : List ℕ) : Type 0 where
  buffer : List ℕ
  world : World
  rounds : ℕ
  ends : await_header fuel c msg w ≡ some (buffer, world)
  size : length buffer ≡ length msg
  few : rounds ≤ fuel
  come : future rounds c.socket.port world ≡ m
  time : InTime c world rounds

module _ (c : Listen) (m : List ℕ) where
  module _ (k fuel : ℕ) (msg : List ℕ) (w : World) (few : k ≤ fuel)
      (time : InTime c w (suc k)) where
    abbrev f : List ℕ × ℕ × World
    f = first_round c msg w

    first_in_time : f.1 < c.timeout
    first_in_time = let (now, _, _) = first_round-clock c msg w in rw now (InTime-now c w k time)

    time-after : InTime c f.2 k
    time-after = let clk = first_round-clock c msg w in InTime-later c w f.2 k clk.1 clk.2 time

    -- A round after which the header has not come.
    keep_waiting :
        get_or f.0 0 0 ≢ c.header
        → length f.0 ≡ length msg
        → Found c fuel f.0 f.2 m
        → Found c (suc fuel) msg w m
    keep_waiting n l x = record {
      buffer = x.buffer;
      world = x.world;
      rounds = x.rounds;
      ends = await_header-next c msg w fuel (awaits c f.0 f.1 n first_in_time) ∙ x.ends;
      size = x.size ∙ l;
      few = omega (arith, x.few);
      come = x.come;
      time = x.time;
    }

    -- The round that reads the header.
    header_read :
        get_or f.0 0 0 ≡ c.header
        → length f.0 ≡ length msg
        → future k c.socket.port f.2 ≡ m
        → Found c (suc fuel) msg w m
    header_read e l come = record {
      buffer = f.0;
      world = f.2;
      rounds = k;
      ends = await_header-stop c msg w fuel (found c f.0 f.1 e);
      size = l;
      few = omega (arith, few);
      come = come;
      time = time-after;
    }

    await_round :
        (further : (noise : List ℕ)
          → get_or f.0 0 0 ≢ c.header
          → length f.0 ≡ length msg
          → Avoids c.header noise
          → future k c.socket.port f.2 ≡ noise ++ (c.header ∷ m)
          → Found c fuel f.0 f.2 m)
        → (noise : List ℕ) → get_or msg 0 0 ≢ c.header
        → 0 < length msg
        → Avoids c.header noise
        → future (suc k) c.socket.port w ≡ noise ++ (c.header ∷ m)
        → Found c (suc fuel) msg w m
    unfolding Reads Avoids
    await_round further noise n some_ avoids come = go noise avoids come (first_round-Reads c msg w)
      where
        go :
            (noise : List ℕ)
            → Avoids c.header noise
            → future (suc k) c.socket.port w ≡ noise ++ (c.header ∷ m)
            → (o : Option ℕ) × Reads c.socket.port w f.2 o × (f.0 ≡ put msg 0 o)
            → Found c (suc fuel) msg w m
        go noise avoids come (none, reads, e) =
            let n' : get_or f.0 0 0 ≢ c.header = λ h. n (ap (λ l. get_or l 0 0) (sym e) ∙ h) in
            keep_waiting n' (ap length e)
              (further noise n' (ap length e) avoids (sym (reads k) ∙ come))
        go [] avoids come (some b, reads, e) =
            let both : b ∷ future k c.socket.port f.2 ≡ c.header ∷ m = sym (reads k) ∙ come in
            header_read (ap (λ l. get_or l 0 0) e ∙ get_or-set_self msg 0 b 0 some_ ∙ first both)
              (ap length e ∙ length-set msg 0 b) (ap (drop 1) both)
        go (a ∷ noise) avoids come (some b, reads, e) =
            let both : b ∷ future k c.socket.port f.2 ≡ a ∷ (noise ++ (c.header ∷ m)) =
              sym (reads k) ∙ come in
            let head : get_or f.0 0 0 ≡ a =
              ap (λ l. get_or l 0 0) e ∙ get_or-set_self msg 0 b 0 some_ ∙ first both in
            let n' : get_or f.0 0 0 ≢ c.header = λ h. avoids.0 (sym head ∙ h) in
            let size = ap length e ∙ length-set msg 0 b in
            keep_waiting n' size (further noise n' size avoids.1 (ap (drop 1) both))

  await_header-frame :
      (k fuel : ℕ) (msg : List ℕ) (w : World) (noise : List ℕ)
      → k ≤ fuel
      → get_or msg 0 0 ≢ c.header
      → 0 < length msg
      → Avoids c.header noise
      → future k c.socket.port w ≡ noise ++ (c.header ∷ m)
      → InTime c w k
      → Found c fuel msg w m
  unfolding future gives
  await_header-frame zero fuel msg w noise l n some_ avoids come t = absurd (nothing noise come)
    where
      nothing : (noise : List ℕ) → [] ≡ noise ++ (c.header ∷ m) → ⊥
      nothing [] e = let z : 0 ≡ suc (length m) = ap length e in omega (arith, z)
      nothing (a ∷ noise) e =
          let z : 0 ≡ suc (length (noise ++ (c.header ∷ m))) = ap length e in omega (arith, z)
  await_header-frame (suc k) zero msg w noise l n some_ avoids come t = absurd (omega arith)
  await_header-frame (suc k) (suc fuel) msg w noise l n some_ avoids come t =
      await_round k fuel msg w (omega arith) t
        (λ noise' n' size avoids' come'.
          await_header-frame k fuel _ _ noise' (omega arith) n' (omega (arith, size, some_)) avoids'
            come' (time-after k fuel msg w (omega arith) t))
        noise n some_ avoids come

-- The next `k` rounds of `process` at the socket's port bring a message in its frame: bytes that are not the
-- header, the header, and then 20 bytes of which the last and no other is the footer, all before the
-- timeout. The byte in front of the buffer is not the footer.
pub record Comes (k : ℕ) (s : Socket) (timeout : ℕ) (w : World) (m : Message) : Type 0 where
  pub noise : List ℕ
  pub clean : s.before ≢ msg_footer
  pub avoids : Avoids request_header noise
  pub size : length m ≡ msg_size
  pub ends : EndsIn msg_footer m
  pub come : future k s.port w ≡ noise ++ (request_header ∷ m)
  pub time :
      InTime (listen_of s request_header msg_footer msg_size timeout (millis w).0) (millis w).1 k

-- A message that comes in its frame and in time is received, with any fuel that allows for its rounds:
-- `process` reports it, and its bytes are what followed the header.
pub process-frame :
    (k fuel : ℕ) (s : Socket) (timeout : ℕ) (w : World) (m : Message)
    → k ≤ fuel
    → Comes k s timeout w m
    → report (process fuel s timeout w) ≡ some (msg_received, m)
unfolding process listen_msg future InTime
process-frame k fuel s timeout w m l h =
    let c : Listen = listen_of s request_header msg_footer msg_size timeout (millis w).0 in
    let x =
      await_header-frame c m k fuel (replicate 20 0) (millis w).1 h.noise l (λ e. omega arith)
        (omega arith) h.avoids h.come h.time in
    let w1 = write_text s.logger first_matched x.world in
    let (r, e, whole, all) =
      collect-frame c (omega arith) x.rounds fuel x.buffer 0 w1 m x.few
        (record {
          size = x.size;
          rest = omega (arith, h.size);
          clean = h.clean;
          ends = h.ends;
          come = x.come;
        })
        x.time in
    let last : get_or r.0 19 0 ≡ msg_footer =
      ap (λ l. get_or l 19 0) whole ∙ EndsIn-last msg_footer 19 m h.ends (sym h.size) in
    ap (λ o. report (then_collect fuel c o)) x.ends
    ∙ ap (λ o. report (finished c o)) e
    ∙ ap₂ (λ code l. some (code, l)) (code_received c r.0 r.1 r.2 all last) whole

-- What only changes the trace keeps what comes.
pub Comes-trace :
    (k : ℕ) (s : Socket) (timeout : ℕ) (w : World) (m : Message) (t : List Effect)
    → Comes k s timeout w m
    → Comes k s timeout (record w { trace = t }) m
unfolding future InTime
Comes-trace k s timeout w m t h = record {
  noise = h.noise;
  clean = h.clean;
  avoids = h.avoids;
  size = h.size;
  ends = h.ends;
  come = h.come;
  time = h.time;
}
