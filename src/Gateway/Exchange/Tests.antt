-- ===== src/Gateway/Exchange/Tests.antt =====
-- A slave and a master that are asked and answered in frames, and the slave's own answer on the wire.
use dread.Base.{
  ◌*◌, ℕ, zero, suc, ◌+◌, ◌<◌, ◌≡◌, ◌≢◌, ◌%◌, refl, ap, true, Option, none, some, List, [], ◌∷◌,
  ◌++◌, u32, replicate, arith, if◌then◌else◌, ◌==◌, map, append-nil,
}
use dread.Base.Avoiding.{Avoids, Avoids-replicate}
use dread.Hardware.{millis, World, Effect}
use dread.Hid.{Hid}
use dread.Locale.{Locale, get_date_time, print_number}
use dread.Net.Types.{Message, set_kind, request_get_record, request_header, msg_footer, msg_size}
use dread.Net.Socket.{
  Socket, process, listen_msg, listen_of, await_header, collect, listen_code, int_elapsed, send,
}
use dread.Net.Socket.Arrivals.{gives, future}
use dread.Net.Socket.Collecting.{EndsIn, EndsIn-replicate, InTime}
use dread.Net.Socket.Frames.{Comes}
use dread.Net.Socket.Shortage.{StaysOver}
use dread.Net.Manager
use dread.Net.Manager.{
  available_addresses, first_nonzero, next_address, scan, get_free_address, get_address, contains,
  add_address,
}
use dread.Net.Manager.Validity.{IsValid, new-IsValid, add_address-IsValid}
use dread.Persistence.Stream.{Stream, new, available, read}
use dread.Persistence.Stream.Fifo
use dread.Persistence.Stream.Fifo.{contents, segment}
use dread.Persistence.Interface.{store_one, write_transaction}
use dread.Persistence.Book
use dread.Persistence.Book.{book}
use dread.Gateway.Client.{
  record_of, Client, Poll, poll_records, scan_net, request_record, after_response, with_next,
}
use dread.Gateway.Client.Entering.{asked as last_request}
use dread.Gateway.Client.Answers.{poll_records-registers, poll_records-stores}
use dread.Gateway.Server.{Server, Listening, listen, session}
use dread.Gateway.Server.Lines.{Lines, Line, joined, responses, place}
use dread.Gateway.Server.Records.{bytes, book-Viewed}
use dread.Gateway.Server.Hearing.{listen-sends}
use dread.Gateway.Exchange.{Wire, AllAvoid, sent, exchange-unheard}

abbrev bus : Socket
bus = record { port = 1; logger = 2; before = 0 }

abbrev slave : Server
slave = record { socket = bus; logger = 2; name = b'S' ∷ [] }

abbrev leds : Hid
leds = record { buzz_pin = 1; red_led_pin = 2; greenblue_led_pin = 3; led_register = 0 }

abbrev blank : Message
blank = replicate 20 0

-- Two lines of two bytes.
abbrev letters : Stream
letters = record (new (65 ∷ 10 ∷ 66 ∷ 10 ∷ replicate 508 0) 512) { tl = 4 }

abbrev asked : Listening Stream
asked = record {
  address = 255;
  store = letters;
  leds = leds;
  request = set_kind request_get_record blank;
  response = blank;
}

letters-Lines : Lines ((65 ∷ 10 ∷ []) ∷ (66 ∷ 10 ∷ []) ∷ [])
unfolding Lines Line EndsIn
letters-Lines =
    ((((λ e. omega arith), refl), omega arith), ((((λ e. omega arith), refl), omega arith), tt))

letters-bytes : bytes letters ≡ joined ((65 ∷ 10 ∷ []) ∷ (66 ∷ 10 ∷ []) ∷ [])
unfolding bytes contents segment available joined
letters-bytes = refl

-- A message in its frame, and a clock that goes on by one at each reading.
abbrev framed : Message → World
framed m = record {
  clock = λ n. n;
  arrivals = λ n p. if n == 1 then request_header ∷ m else [];
  replies = λ n. 0;
  ticks = 0;
  polls = 0;
  transfers = 0;
  rx = λ p. [];
  trace = [];
}

in_time : (n : ℕ) → n < 22 → int_elapsed 0 (u32 (1 + n)) < 1000
unfolding int_elapsed
in_time n l = ground arith

-- The master's request for the records, and the answer of a slave with the address 7.
abbrev request : Message
request = 7 ∷ 2 ∷ replicate 17 0 ++ (33 ∷ [])

abbrev answer : Message
answer = 7 ∷ 1 ∷ replicate 17 0 ++ (33 ∷ [])

request-Comes : Comes 22 bus 1000 (framed request) request
unfolding Avoids InTime future gives EndsIn
request-Comes = record {
  noise = [];
  clean = λ e. omega arith;
  avoids = tt;
  size = refl;
  ends = ((λ e. omega arith), ((λ e. omega arith), EndsIn-replicate 33 17 0 (λ e. omega arith)));
  come = refl;
  time = in_time;
}

answer-Comes : Comes 22 bus 1000 (framed answer) answer
unfolding Avoids InTime future gives EndsIn
answer-Comes = record {
  noise = [];
  clean = λ e. omega arith;
  avoids = tt;
  size = refl;
  ends = ((λ e. omega arith), ((λ e. omega arith), EndsIn-replicate 33 17 0 (λ e. omega arith)));
  come = refl;
  time = in_time;
}

listen-sends_example :
    (s' : Listening Stream) × (w' : World) × (listen slave book 25 blank asked (framed request)
      ≡ some (s', w'))
    × (bytes s'.store ≡ [])
    × ((before : List Effect) × (w'.trace
          ≡ before ++ responses 1 255 blank ((65 ∷ 10 ∷ []) ∷ (66 ∷ 10 ∷ []) ∷ [])))
listen-sends_example =
    listen-sends book Fifo.IsValid bytes book-Viewed slave 22 25 blank asked (framed request)
      request (65 ∷ 10 ∷ []) ((66 ∷ 10 ∷ []) ∷ []) (omega arith) (omega arith) (omega arith)
      request-Comes refl (refl, refl, omega arith, omega arith) letters-Lines letters-bytes

abbrev master : Client
master = record { socket = bus; logger = 2 }

abbrev midnight : Locale
midnight = record { secs = 0; mins = 0; hrs = 0; days = 1; months = 1; year = 14 }

abbrev hearing : Poll Stream
hearing = record {
  manager = Manager.new;
  store = letters;
  req = blank;
  res = blank;
  datetime = replicate 14 0;
}

new-free : Manager.new.free_addresses ≢ 0
unfolding Manager.new
new-free = λ e. omega arith

poll_records-registers_example :
    (s' : Poll Stream) × (w' : World) × (poll_records master book midnight 25 hearing
        (framed answer)
      ≡ some (s', w'))
    × (contains s'.manager 7 ≡ true)
poll_records-registers_example =
    poll_records-registers master book midnight 22 25 hearing (framed answer) answer (omega arith)
      new-IsValid new-free answer-Comes refl refl (λ e. omega arith)

-- The bytes that wait at every port.
abbrev waiting : List ℕ → World
waiting bs = record (framed []) { arrivals = λ n p. []; rx = λ p. bs; clock = λ n. n * 600 }

abbrev session_of : Option (Listening Stream × World) → Listening Stream × World
session_of none = (asked, waiting [])
session_of (some r) = r

abbrev served : Listening Stream × World
served = session_of (session slave book 2 asked (waiting []))

served_lem : session slave book 2 asked (waiting []) ≡ some served
unfolding session book available send read
served_lem = refl

abbrev log : List Effect
log = responses 1 255 blank ((65 ∷ 10 ∷ []) ∷ (66 ∷ 10 ∷ []) ∷ [])

served-log : served.1.trace ≡ [] ++ log
unfolding session book available send responses read place
served-log = refl

abbrev on_wire : World
on_wire = waiting (sent 1 log)

abbrev polled_of : Option (Poll Stream × World) → Poll Stream × World
polled_of none = (hearing, waiting [])
polled_of (some r) = r

abbrev polled : Poll Stream × World
polled = polled_of (poll_records master book midnight 3 hearing on_wire)

polled_lem : poll_records master book midnight 3 hearing on_wire ≡ some polled
unfolding poll_records scan_net available_addresses first_nonzero request_record after_response
    with_next next_address scan get_free_address get_address Manager.new process listen_msg
    await_header collect listen_code int_elapsed send sent responses
polled_lem = refl

gives-front :
    (k n : ℕ) (q : List ℕ)
    → (rest : List ℕ) × (map (λ b. b % 256) q ≡ gives k (λ n. []) n q ++ rest)
unfolding gives
gives-front zero n q = (map (λ b. b % 256) q, refl)
gives-front (suc k) n [] = gives-front k (n + 1) []
gives-front (suc k) n (b ∷ q) =
    let (rest, e) = gives-front k (n + 1) q in (rest, rw (append-nil q) (ap (λ l. (b % 256) ∷ l) e))

wired : Wire 1 on_wire (sent 1 log)
unfolding Wire future sent responses place
wired k = gives-front k 0 (sent 1 log)

letters-Avoid : AllAvoid 64 ((65 ∷ 10 ∷ []) ∷ (66 ∷ 10 ∷ []) ∷ [])
unfolding AllAvoid Avoids
letters-Avoid = (
  ((λ e. omega arith), ((λ e. omega arith), tt)),
  (((λ e. omega arith), ((λ e. omega arith), tt)), tt),
)

on_wire-StaysOver :
    StaysOver (listen_of bus request_header msg_footer msg_size 1000 0) (millis on_wire).1
unfolding StaysOver int_elapsed
on_wire-StaysOver zero before o = absurd (omega (arith, o))
on_wire-StaysOver (suc zero) before o = omega arith
on_wire-StaysOver (suc (suc n)) before o =
    let early = before 1 (omega arith) in absurd (omega (arith, early))

exchange-unheard_example : (polled.0.manager ≡ hearing.manager) × (polled.0.store ≡ hearing.store)
exchange-unheard_example =
    exchange-unheard book Fifo.IsValid bytes book-Viewed slave 2 asked served.0 (waiting [])
      served.1 log (65 ∷ 10 ∷ []) ((66 ∷ 10 ∷ []) ∷ []) book midnight master 3 hearing polled.0
      on_wire polled.1 refl (refl, refl, omega arith, omega arith) letters-Lines letters-bytes
      (omega arith) served_lem served-log wired (λ e. omega arith)
      (Avoids-replicate 64 20 0 (λ e. omega arith)) letters-Avoid new-IsValid on_wire-StaysOver
      polled_lem

-- A slave that the master knows answers with its records.
abbrev year_four : Locale
year_four = record { secs = 0; mins = 0; hrs = 0; days = 1; months = 1; year = 4 }

abbrev knowing : Poll Stream
knowing = record hearing { manager = (add_address Manager.new 7).0 }

abbrev date_of : Option (List ℕ) → List ℕ
date_of none = []
date_of (some d) = d

abbrev with_records : Message
with_records = 7 ∷ 2 ∷ 0 ∷ replicate 16 9 ++ (33 ∷ [])

with_records-Comes : Comes 22 bus 1000 (framed with_records) with_records
unfolding Avoids InTime future gives EndsIn
with_records-Comes = record {
  noise = [];
  clean = λ e. omega arith;
  avoids = tt;
  size = refl;
  ends = (
    (λ e. omega arith),
    ((λ e. omega arith), ((λ e. omega arith), EndsIn-replicate 33 16 9 (λ e. omega arith))),
  );
  come = refl;
  time = in_time;
}

knowing-IsValid : IsValid knowing.manager
knowing-IsValid = add_address-IsValid Manager.new 7 new-IsValid

knows : contains knowing.manager 7 ≡ true
unfolding contains Manager.new add_address Manager.probe_from
knows = refl

opens : (book.begin_transaction write_transaction letters).0 ≡ true
unfolding book Book.begin_transaction
opens = refl

abbrev midnight_text : List ℕ
midnight_text = date_of (get_date_time year_four (replicate 14 0))

dates : get_date_time year_four (replicate 14 0) ≡ some midnight_text
unfolding get_date_time print_number
dates = refl

poll_records-stores_example :
    (s' : Poll Stream) × (w' : World) × (poll_records master book year_four 25 knowing
        (framed with_records)
      ≡ some (s', w'))
    × ((w1 : World) × (s'.store
          ≡ (store_one book (record_of (last_request knowing), midnight_text, 13) (letters, w1)).0))
poll_records-stores_example =
    poll_records-stores master book year_four 22 25 knowing (framed with_records) with_records
      midnight_text (omega arith) knowing-IsValid with_records-Comes refl refl knows opens dates
