-- ===== src/Gateway/Client.antt =====
-- Application/NetGateway/NGClient.cpp: the master's poll. The static objects of the functions are kept
-- from poll to poll. `none` is fuel that ran out in the socket, or a write outside of a buffer.
pub mod Polling
pub mod Entering
pub mod Answers
use dread.Base.{
  ℕ, ◌+◌, ◌*◌, Bool, true, false, not, Option, none, some, List, [], ◌∷◌, ◌==◌, ◌!=◌, positive,
  if◌then◌else◌, get_or,
}
use dread.Hardware.{World, Port, delay_us}
use dread.Hardware.Output.{write_text}
use dread.Locale.{Locale, get_date_time}
use dread.Net.Types.{
  Message, addr, kind, status, set_addr, set_kind, set_request_msg, broadcast_address, request_ack,
  request_put_address, request_get_record, router_ok,
}
use dread.Net.Socket.{
  Socket, SocketCode, msg_received, msg_timeout, msg_no_format, msg_out_of_bound, process, send,
}
use dread.Net.Manager
use dread.Net.Manager.{
  NetManager, available_addresses, get_free_address, next_address, get_address, contains,
  add_address,
}
use dread.Persistence.Interface.{Persistence, write_transaction}

pub record Client : Type 0 where
  pub socket : Socket
  pub logger : Port

-- The manager, the store behind the persistence, and the static objects.
pub record Poll (S : Type 0) : Type 0 where
  pub manager : NetManager
  pub store : S
  pub req : Message
  pub res : Message
  pub datetime : List ℕ

abbrev pub unhandled : List ℕ
unhandled = b'U' ∷ b'n' ∷ []

-- The four bytes from `req.msg` on, the lowest first.
abbrev pub record_of : Message → ℕ
record_of m = get_or m 2 0 + get_or m 3 0 * 256 + get_or m 4 0 * 65536 + get_or m 5 0 * 16777216

module _ (c : Client) {S : Type 0} (p : Persistence S) (locale : Locale) where
  unfoldable pub scan_net : Poll S → World → Poll S × World
  scan_net s w =
      let req' =
        set_request_msg (get_free_address s.manager)
          (set_kind request_put_address (set_addr broadcast_address s.req)) in
      if available_addresses s.manager == 0
      then (s, w)
      else (record s { req = req' }, send c.socket req' w)

  -- The request for the record of the slave at hand.
  unfoldable pub request_record : Poll S → World → Poll S × World
  request_record s w =
      let req' =
        set_request_msg 0 (set_kind request_get_record (set_addr (get_address s.manager) s.req)) in
      if positive (get_address s.manager)
      then (record s { req = req' }, send c.socket req' w)
      else (s, w)

  unfoldable pub send_ack : Poll S → World → Poll S × World
  send_ack s w =
      let req' = set_kind request_ack s.req in (record s { req = req' }, send c.socket req' w)

  abbrev pub stored : Poll S → World → Option (List ℕ) → Option (Poll S × World)
  unfolding send_ack
  stored s w none = none
  stored s w (some datetime) =
      let (st, w1) = p.write_record (record_of s.req) datetime 13 s.store w in
      some (
        send_ack (record s { store = p.commit_transaction st; datetime = datetime })
          (delay_us 100 w1))

  unfoldable pub handle_get_record : Poll S → World → Option (Poll S × World)
  handle_get_record s w =
      let w1 = delay_us 100 w in
      let (ok, st) = p.begin_transaction write_transaction s.store in
      let s1 = record s { store = st } in
      let answer = if ok then stored s1 w1 (get_date_time locale s.datetime) else some (s1, w1) in
      if not (contains s.manager (addr s.res)) then some (s, w) else answer

  unfoldable pub handle_put_address : Poll S → World → Poll S × World
  unfolding send_ack
  handle_put_address s w =
      let (m, added) = add_address s.manager (addr s.res) in
      if added then send_ack (record s { manager = m }) w else (record s { manager = m }, w)

  -- `handleError`
  unfoldable pub handle_error : Poll S → World → Poll S × World
  handle_error s w = (s, w)

  unfoldable pub handle_response : Poll S → World → Option (Poll S × World)
  unfolding handle_get_record handle_put_address handle_error
  handle_response s w =
      if status s.res != router_ok
      then some (handle_error s w)
      else (if kind s.res == request_get_record
          then handle_get_record s w
          else (if kind s.res == request_put_address
              then some (handle_put_address s w)
              else some (s, write_text c.logger unhandled w)))

  unfoldable pub after_response :
      Poll S → Option (SocketCode × Message × World) → Option (Poll S × World)
  unfolding handle_response
  after_response s none = none
  after_response s (some (msg_received, m, w)) = handle_response (record s { res = m }) w
  after_response s (some (msg_timeout, m, w)) = some (record s { res = m }, w)
  after_response s (some (msg_no_format, m, w)) = some (record s { res = m }, w)
  after_response s (some (msg_out_of_bound, m, w)) = some (record s { res = m }, w)

  -- The result of `nextAddress` is not used; `none` is its read outside of the table.
  unfoldable pub with_next : ℕ → Poll S → World → Option Bool → Option (Poll S × World)
  unfolding request_record after_response
  with_next fuel s w none = none
  with_next fuel s w (some b) =
      let (s1, w1) = request_record s w in after_response s1 (process fuel c.socket 1000 w1)

  unfoldable pub poll_records : ℕ → Poll S → World → Option (Poll S × World)
  unfolding scan_net with_next
  poll_records fuel s w =
      let (s1, w1) = scan_net s w in with_next fuel s1 w1 (next_address s1.manager)
