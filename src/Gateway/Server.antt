-- ===== src/Gateway/Server.antt =====
-- Application/NetGateway/NGServer.cpp: the slave's answer to a request. Between two tests of the reader
-- in the inner loop at most the 17 bytes of `msg` are written; `none` is a write behind them, or fuel
-- that ran out in the session loop or the socket.
pub mod Session
pub mod Lines
pub mod Records
pub mod Hearing
pub mod Empty
use dread.Base.{
  ℕ, zero, suc, ◌+◌, ◌-◌, Bool, true, false, Option, none, some, List, [], ◌∷◌, ◌==◌, ◌!=◌, ◌||◌,
  ◌&&◌, positive, u8, if◌then◌else◌, set,
}
use dread.Hardware.{World, Port, write, write_block}
use dread.Hardware.Output.{write_text}
use dread.Hid.{Hid, set_led}
use dread.Net.Types.{
  Message, addr, kind, set_addr, set_kind, set_status, request_ack, request_get_record, router_ok,
  router_timeout, router_request_not_found, router_not_registered,
}
use dread.Net.Socket.{Socket, send}
use dread.Persistence.Interface.{Persistence, byte_of}
use dread.Gateway.Router.{listen_request, register_service}

pub record Server : Type 0 where
  pub socket : Socket
  pub logger : Port
  pub name : List ℕ

-- The address, the store behind the persistence, the leds, and the static objects.
pub record Listening (S : Type 0) : Type 0 where
  pub address : ℕ
  pub store : S
  pub leds : Hid
  pub request : Message
  pub response : Message

abbrev pub unhandled : List ℕ
unhandled = b'u' ∷ b'n' ∷ []

abbrev pub go_on :
    {S : Type 0}
    → (Listening S → World → Option (Listening S × World))
    → Option (Listening S × Bool × World)
    → Option (Listening S × World)
go_on next none = none
go_on next (some (s, true, w)) = next s w
go_on next (some (s, false, w)) = some (s, w)

-- The inner loop with `wptr` at `response.raw + 20 - room`; `wptr != response.raw + 1` holds from
-- `response.msg` on.
unfoldable pub fill : {S : Type 0} → Persistence S → ℕ → Message → S → Option (Message × S)
fill p zero raw st = if positive (p.available st) then none else some (raw, st)
fill p (suc room) raw st =
    let (o, st1) = p.read st in
    let raw1 = set raw (20 - suc room) (byte_of o) in
    let more = fill p room raw1 st1 in
    let read_one = if byte_of o == b'\n' then some (raw1, st1) else more in
    if positive (p.available st) then read_one else some (raw, st)

module _ (c : Server) {S : Type 0} (p : Persistence S) where
  abbrev pub response_for : Listening S → Message
  response_for s =
      set_kind request_get_record (set_addr s.address (set_status router_ok s.response))

  -- `case REQUEST_GET_RECORD`: the state and whether the session goes on.
  abbrev pub answered :
      Listening S → World → Option (Message × S) → Option (Listening S × Bool × World)
  answered s w none = none
  answered s w (some (raw, st)) =
      some (record s { response = raw; store = st }, positive (p.available st), send c.socket raw w)

  unfoldable pub get_record : Listening S → World → Option (Listening S × Bool × World)
  unfolding fill
  get_record s w = let m = response_for s in answered s (send c.socket m w) (fill p 17 m s.store)

  -- One round of the session loop.
  unfoldable pub round : Listening S → World → Option (Listening S × Bool × World)
  unfolding get_record
  round s w =
      if kind s.request == request_ack
      then some (s, false, w)
      else (if kind s.request == request_get_record
          then get_record s w
          else some (s, true, write_text c.logger unhandled w))

  unfoldable pub session : ℕ → Listening S → World → Option (Listening S × World)
  unfolding round
  session zero s w = none
  session (suc fuel) s w = go_on (session fuel) (round s w)

  abbrev pub heard : ℕ → Listening S → Option (ℕ × Message × World) → Option (Listening S × World)
  unfolding session
  heard fuel s none = none
  heard fuel s (some (rc, m, w)) =
      let s1 = record s { request = m } in
      let served = session fuel s1 (write c.logger 10 (write_block c.logger m w)) in
      if (rc == router_request_not_found) || (rc == router_timeout)
      then some (record s1 { leds = set_led 0 s.leds }, w)
      else served

  abbrev pub then_listen : ℕ → Listening S → Option (ℕ × ℕ × World) → Option (Listening S × World)
  unfolding heard
  then_listen fuel s none = none
  then_listen fuel s (some (rc, address, w)) =
      let s1 = record s { address = address } in
      let listening = heard fuel s1 (listen_request fuel c.socket address 1000 w) in
      if (rc == router_not_registered) || (rc == router_timeout) then some (s1, w) else listening

  -- `res` is the uninitialised response of `registerService`.
  unfoldable pub listen : ℕ → Message → Listening S → World → Option (Listening S × World)
  unfolding then_listen
  listen fuel res s w = then_listen fuel s (
      register_service fuel c.socket res s.address 1000
        (write c.logger 10 (write_text c.logger c.name w)))
