-- ===== src/Net/Socket.antt =====
-- Modules/Net/Socket.cpp and Socket.h: messages of fixed size over a `Print`.
mod Rounds
pub mod Arrivals
pub mod Collecting
pub mod Frames
pub mod Shortage
pub mod Silence
pub mod Reading
pub mod Receive
pub mod Ending
mod Tests
use dread.Base.{
  ℕ, zero, suc, ◌+◌, ◌-◌, ◌%◌, Bool, true, false, Option, none, some, List, [], ◌∷◌, ◌==◌, ◌!=◌,
  ltb, leb, ◌&&◌, u8, u16, u32, positive, if◌then◌else◌, get_or, set, replicate, length,
}
use dread.Hardware.{World, Port, millis, available, read, write, write_block}
use dread.Hardware.Output.{write_text}
use dread.Net.Types.{Message, request_header, msg_footer, msg_size}

-- `SocketCodes`
pub data SocketCode : Type 0 where
  msg_received msg_timeout msg_no_format msg_out_of_bound : SocketCode

-- `before` is the byte in front of a message's buffer, which the code may read as `msg[-1]`.
pub record Socket : Type 0 where
  pub port : Port
  pub logger : Port
  pub before : ℕ

unfoldable pub send : Socket → Message → World → World
send s m w = write_block s.port m w

-- `int time = millis() - init_time` with the 16 bits of an `int`, then converted to `uint32_t` for
-- the comparison with the timeout: a negative value becomes a large one.
unfoldable pub int_elapsed : ℕ → ℕ → ℕ
int_elapsed init now =
    let t = u16 (u16 now + 65536 - u16 init) in if ltb t 32768 then t else t + 4294901760

pub record Listen : Type 0 where
  pub socket : Socket
  pub header : ℕ
  pub footer : ℕ
  pub size : ℕ
  pub timeout : ℕ
  pub init_time : ℕ

-- The time of a round, at its end.
abbrev pub round_time : Listen → World → ℕ × World
round_time c w = let (now, w') = millis w in (int_elapsed c.init_time now, w')

-- `if (port->available() > 0) { … }` of the first loop.
abbrev pub first_byte : Listen → List ℕ → World → List ℕ × World
first_byte c msg w =
    let (n, w1) = available c.socket.port w in
    let (b, w2) = read c.socket.port w1 in
    if positive n then (set msg 0 b, write c.socket.logger b w2) else (msg, w1)

abbrev pub awaits_on : Listen → List ℕ → ℕ → Bool
awaits_on c msg time = (get_or msg 0 0 != c.header) && ltb time c.timeout

-- The first loop: until the header stands in the first byte, or the time is over. `none` is fuel
-- that ran out.
unfoldable pub await_header : ℕ → Listen → List ℕ → World → Option (List ℕ × World)
await_header zero c msg w = none
await_header (suc fuel) c msg w =
    let (msg', w1) = first_byte c msg w in
    let (time, w2) = round_time c w1 in
    let again = await_header fuel c msg' w2 in
    if awaits_on c msg' time then again else some (msg', w2)

-- `if (port->available() > 0) { … }` of the second loop, with `pointer`.
abbrev pub next_byte : Listen → List ℕ → ℕ → World → List ℕ × ℕ × World
next_byte c msg pointer w =
    let (n, w1) = available c.socket.port w in
    let (b, w2) = read c.socket.port w1 in
    if positive n then (set msg pointer b, u8 (pointer + 1), w2) else (msg, pointer, w1)

-- `msg[pointer - 1]`
abbrev pub last_byte : Listen → List ℕ → ℕ → ℕ
last_byte c msg zero = c.socket.before
last_byte c msg (suc p) = get_or msg p 0

abbrev pub collects_on : Listen → List ℕ → ℕ → ℕ → Bool
collects_on c msg pointer time =
    (last_byte c msg pointer != c.footer) && (ltb pointer c.size && ltb time c.timeout)

-- The second loop, with the values of `msg`, `pointer` and `time` at its end.
unfoldable pub collect : ℕ → Listen → List ℕ → ℕ → World → Option (List ℕ × ℕ × ℕ × World)
collect zero c msg pointer w = none
collect (suc fuel) c msg pointer w =
    let (msg', pointer', w1) = next_byte c msg pointer w in
    let (time, w2) = round_time c w1 in
    let again = collect fuel c msg' pointer' w2 in
    if collects_on c msg' pointer' time then again else some (msg', pointer', time, w2)

-- The code that `listenMsg` returns.
unfoldable pub listen_code : Listen → List ℕ → ℕ → ℕ → SocketCode
listen_code c msg pointer time =
    if (pointer == c.size) && (get_or msg (c.size - 1) 0 == c.footer)
    then msg_received
    else (if leb c.size pointer
        then msg_out_of_bound
        else (if leb c.timeout time then msg_timeout else msg_no_format))

abbrev pub first_matched : List ℕ
first_matched = b'f' ∷ b'i' ∷ b'r' ∷ b's' ∷ b't' ∷ []

abbrev pub time_text : List ℕ
time_text = b'T' ∷ b'i' ∷ b'm' ∷ b'e' ∷ []

abbrev pub finish : Listen → List ℕ × ℕ × ℕ × World → SocketCode × List ℕ × World
finish c (msg, pointer, time, w) = (
  listen_code c msg pointer time,
  msg,
  write c.socket.logger time (write_text c.socket.logger time_text w),
)

abbrev pub finished :
    Listen → Option (List ℕ × ℕ × ℕ × World) → Option (SocketCode × List ℕ × World)
finished c none = none
finished c (some r) = some (finish c r)

abbrev pub then_collect :
    ℕ → Listen → Option (List ℕ × World) → Option (SocketCode × List ℕ × World)
then_collect fuel c none = none
then_collect fuel c (some (msg, w)) =
    finished c (collect fuel c msg 0 (write_text c.socket.logger first_matched w))

-- What `listenMsg` listens for, once the clock is read for the first time.
abbrev pub listen_of : Socket → ℕ → ℕ → ℕ → ℕ → ℕ → Listen
listen_of s header footer size timeout now = record {
  socket = s;
  header = header;
  footer = footer;
  size = size;
  timeout = timeout;
  init_time = u16 now;
}

-- The statements after the last `return` are never reached.
unfoldable pub listen_msg :
    ℕ → Socket → ℕ → ℕ → ℕ → ℕ → World → Option (SocketCode × List ℕ × World)
listen_msg fuel s header footer size timeout w =
    let (now, w1) = millis w in
    let c = listen_of s header footer size timeout now in
    then_collect fuel c (await_header fuel c (replicate size 0) w1)

-- Both overloads of `process` listen for the header of a request.
unfoldable pub process : ℕ → Socket → ℕ → World → Option (SocketCode × Message × World)
process fuel s timeout w = listen_msg fuel s request_header msg_footer msg_size timeout w

-- The parts of what `process` returns: the code with the message, and the world.
abbrev pub report : Option (SocketCode × Message × World) → Option (SocketCode × Message)
report none = none
report (some (code, m, w)) = some (code, m)

abbrev pub world_after : World → Option (SocketCode × Message × World) → World
world_after w none = w
world_after w (some (code, m, w')) = w'
