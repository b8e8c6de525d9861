-- ===== src/Gateway/Router.antt =====
-- Support/Router/Router.cpp: the slave's side of the registration, over a socket.
use dread.Base.{
  ℕ, ◌<◌, ◌≡◌, refl, true, ◌||◌, ◌&&◌, Option, none, some, ◌==◌, ◌!=◌, if◌then◌else◌, !=_true,
  arith,
}
use dread.Hardware.{World}
use dread.Net.Types.{
  Message, addr, kind, request_msg, set_addr, set_status, broadcast_address, request_put_address,
  router_ok, router_already_registered, router_not_registered,
}
use dread.Net.Socket.{
  Socket, SocketCode, msg_received, msg_timeout, msg_no_format, msg_out_of_bound, process, send,
}

-- The values of `SocketCodes`.
abbrev pub code_value : SocketCode → ℕ
code_value msg_received = 0
code_value msg_timeout = 1
code_value msg_no_format = 2
code_value msg_out_of_bound = 3

-- `NO_ADDRESS` is the `int` -1, here by its 16 bits; an address is a byte, widened for the comparison.
abbrev pub no_address : ℕ
no_address = 65535

-- The result code of `listenRequest`, from that of `process` and the message.
abbrev pub accept : ℕ → SocketCode → Message → ℕ
accept address rc req =
    if (code_value rc == 0) || ((broadcast_address == addr req) || (address == addr req))
    then 0
    else code_value rc

abbrev pub listened : ℕ → Option (SocketCode × Message × World) → Option (ℕ × Message × World)
listened address none = none
listened address (some (rc, req, w)) = some (accept address rc req, req, w)

unfoldable pub listen_request : ℕ → Socket → ℕ → ℕ → World → Option (ℕ × Message × World)
listen_request fuel s address timeout w = listened address (process fuel s timeout w)

-- The result code, the address, and the world. The fields of the local `res` that are not assigned
-- are as they were in the argument `res`.
abbrev pub registered : Socket → Message → ℕ → Option (ℕ × Message × World) → Option (ℕ × ℕ × World)
registered s res address none = none
registered s res address (some (rc, req, w)) =
    if (rc == 0) && ((broadcast_address == addr req) && (request_put_address == kind req))
    then some (
      router_ok,
      request_msg req,
      send s (set_addr (request_msg req) (set_status router_ok res)) w,
    )
    else some (router_not_registered, address, w)

unfoldable pub register_service : ℕ → Socket → Message → ℕ → ℕ → World → Option (ℕ × ℕ × World)
unfolding listen_request
register_service fuel s res address timeout w =
    let listening = registered s res address (listen_request fuel s address timeout w) in
    if no_address != address then some (router_already_registered, address, w) else listening

-- Whatever its byte-sized address is, a slave that registers is told that it is registered already, and
-- neither its address changes nor anything is received or sent.
pub register_service-registered :
    (fuel : ℕ) (s : Socket) (res : Message) (address timeout : ℕ) (w : World)
    → address < 256
    → register_service fuel s res address timeout w ≡ some (router_already_registered, address, w)
unfolding register_service
register_service-registered fuel s res address timeout w h =
    let e : (no_address != address) ≡ true = !=_true (λ e. omega arith) in rw e refl
