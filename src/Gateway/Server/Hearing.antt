-- ===== src/Gateway/Server/Hearing.antt =====
-- The slave's `listen` over a request that comes in its frame.
use dread.Base.{
  ℕ, ◌<◌, ◌≤◌, ◌≡◌, ap, ◌∙◌, Option, none, some, List, [], ◌∷◌, ◌++◌, length, some_inj,
}
use dread.Hardware.{World, Effect, write, write_block}
use dread.Hardware.Output.{write_text}
use dread.Net.Types.{Message, kind, request_get_record}
use dread.Net.Socket.{SocketCode, msg_received, process, report}
use dread.Net.Socket.Frames.{Comes, Comes-trace, process-frame}
use dread.Persistence.Interface.{Persistence}
use dread.Gateway.Router.{listened, listen_request, register_service-registered}
use dread.Gateway.Server.{Server, Listening, session, heard, then_listen, listen}
use dread.Gateway.Server.Lines.{Viewed, Lines, joined, responses, session-sends}

module _ {S : Type 0} (p : Persistence S) (IsFine : S → Type 0) (view : S → List ℕ)
    (viewed : Viewed p IsFine view) where
  -- A slave whose address is a byte does not register, and listens for a request at once.
  listen-heard :
      (c : Server) (fuel : ℕ) (res : Message) (s : Listening S) (w : World)
      → s.address < 256
      → (t : List Effect) × (listen c p fuel res s w
          ≡ heard c p fuel s (listen_request fuel c.socket s.address 1000 (record w { trace = t })))
  unfolding listen then_listen
  listen-heard c fuel res s w byte =
      let w1 = write c.logger 10 (write_text c.logger c.name w) in
      (
        w1.trace,
        ap (then_listen c p fuel s)
            (register_service-registered fuel c.socket res s.address 1000 w1 byte),
      )

  heard-session :
      (c : Server) (fuel : ℕ) (s : Listening S) (m : Message)
      (o : Option (SocketCode × Message × World))
      → report o ≡ some (msg_received, m)
      → (w : World) × (heard c p fuel s (listened s.address o)
          ≡ session c p fuel (record s { request = m }) w)
  unfolding heard
  heard-session c fuel s m none e = cc
  heard-session c fuel s m (some (code, m', w)) e =
      let same : (code, m') ≡ (msg_received, m) = some_inj e in
      (
        write c.logger 10 (write_block c.logger m w),
        ap
            (λ (q : SocketCode × Message).
              heard c p fuel s (listened s.address (some (q.0, q.1, w))))
            same,
      )

  -- A request for the records that comes in its frame and in time is answered: `listen` returns, the
  -- reader is empty, and the last that was sent is, for each line that was waiting, a response without
  -- it, and the same response with the line. The reader has to obey the laws of `Viewed`, its lines
  -- have at most 17 bytes each and a newline only at their end, the address is a byte, and the fuel
  -- is at least the rounds of the message and the number of the lines.
  pub listen-sends :
      (c : Server) (k fuel : ℕ) (res : Message) (s : Listening S) (w : World) (m : Message)
      (l : List ℕ) (ls : List (List ℕ))
      → k ≤ fuel
      → length ls < fuel
      → s.address < 256
      → Comes k c.socket 1000 w m
      → kind m ≡ request_get_record
      → IsFine s.store
      → Lines (l ∷ ls)
      → view s.store ≡ joined (l ∷ ls)
      → (s' : Listening S) × (w' : World) × (listen c p fuel res s w ≡ some (s', w'))
        × (view s'.store ≡ [])
        × ((before : List Effect) × (w'.trace
              ≡ before ++ responses c.socket.port s.address s.response (l ∷ ls)))
  unfolding listen_request
  listen-sends c k fuel res s w m l ls lk ll byte h get fine lines e =
      let (t, e1) = listen-heard c fuel res s w byte in
      let w1 : World = record w { trace = t } in
      let got = process-frame k fuel c.socket 1000 w1 m lk (Comes-trace k c.socket 1000 w m t h) in
      let (w2, e2) = heard-session c fuel s m (process fuel c.socket 1000 w1) got in
      let (s', w', run_, empty, sent) =
        (session-sends p IsFine view viewed) c fuel (record s { request = m }) w2 l ls get fine
          lines e ll in
      (s', w', e1 ∙ e2 ∙ run_, empty, (w2.trace, sent))
