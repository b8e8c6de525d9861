-- ===== src/Net/Socket/Tests.antt =====
-- A message that arrives in one piece, and the theorems about `process` at that world.
use dread.Base.{
  map, ◌*◌, ℕ, zero, suc, ◌+◌, ◌≢◌, Option, none, inl, length, append-nil, ◌<◌, ◌≤◌, ◌≡◌, refl,
  some, List, [], ◌∷◌, ◌++◌, ◌==◌, u32, if◌then◌else◌, replicate, arith, dec_lt,
}
use dread.Base.Avoiding.{Avoids}
use dread.Hardware.{wrote, World, millis}
use dread.Hardware.Output.{print_number, IsDigits, value, print_number-decimal}
use dread.Net.Types.{Message, request_header, msg_footer, msg_size}
use dread.Net.Socket.{
  Socket, SocketCode, listen_of, msg_received, msg_timeout, process, collect, await_header,
  listen_msg, listen_code, report, world_after, int_elapsed,
}
use dread.Net.Socket.Arrivals.{future, gives}
use dread.Net.Socket.Collecting.{EndsIn-replicate, InTime}
use dread.Net.Socket.Frames.{Comes, process-frame}
use dread.Net.Socket.Receive.{Received, process-Received}
use dread.Net.Socket.Shortage.{AtMost, StaysOver}
use dread.Net.Socket.Silence.{Unframed, process-Unframed}
use dread.Net.Socket.Ending.{ClockRuns, process-returns}

-- Nineteen bytes and the footer.
abbrev message : Message
message = replicate 19 7 ++ (33 ∷ [])

abbrev bus : Socket
bus = record { port = 1; logger = 2; before = 0 }

-- The bytes arrive before the first poll, and the clock goes on by one at each reading.
abbrev arriving : List ℕ → World
arriving bytes = record {
  clock = λ n. n;
  arrivals = λ n p. if (n == 0) then (if p == 1 then bytes else []) else [];
  replies = λ n. 0;
  ticks = 0;
  polls = 0;
  transfers = 0;
  rx = λ p. [];
  trace = [];
}

-- The header `'@'` is dropped: the message is what follows it.
message_arrives :
    report (process 64 bus 1000 (arriving (64 ∷ message))) ≡ some (msg_received, message)
unfolding process listen_msg await_header collect listen_code int_elapsed
message_arrives = refl

-- What the program's own `send` puts out has no header, so it is not seen.
own_message_lost :
    report (process 64 bus 30 (arriving message)) ≡ some (msg_timeout, 33 ∷ replicate 19 0)
unfolding process listen_msg await_header collect listen_code int_elapsed
own_message_lost = refl

process-Received_example :
    Received 1 2 msg_footer msg_size
      (arriving (64 ∷ message))
      message
      (world_after (arriving (64 ∷ message)) (process 64 bus 1000 (arriving (64 ∷ message))))
process-Received_example = process-Received 64 bus 1000 (arriving (64 ∷ message)) message_arrives

elapsed-lt :
    (init now : ℕ) → int_elapsed init (u32 now) < 10 → 10 ≤ int_elapsed init (u32 (now + 10))
unfolding int_elapsed
elapsed-lt init now h = ground arith

runs : (w : World) → ((n : ℕ) → w.clock n ≡ n) → ClockRuns 16 10 w
runs w e init n = elim (dec_lt (int_elapsed init (u32 (n + 0))) 10) [
  | yes l ↦ (10, omega arith, rw (e (n + 10)) (late init n l))
  | no g ↦ (0, omega arith, rw (e (n + 0)) (omega arith))
]
  where
    late : (init n : ℕ) → int_elapsed init (u32 (n + 0)) < 10 → 10 ≤ int_elapsed init (u32 (n + 10))
    late init n h = let z : n + 0 ≡ n = omega arith in elapsed-lt init n (rw z at h)

process-returns_example :
    (r : SocketCode × Message × World) × (process 16 bus 10 (arriving message) ≡ some r)
process-returns_example =
    process-returns 16 bus 10 (arriving message) (runs (arriving message) (λ n. refl))

print_number-decimal_example :
    (ds : List ℕ) × IsDigits ds
    × (value ds 0 ≡ 70605)
    × (◌≡◌ {A = ℕ} 70605 0 → ds ≡ [])
    × ((print_number 2 70605 (arriving [])).trace ≡ [] ++ map (λ d. wrote 2 (b'0' + d)) ds)
print_number-decimal_example = print_number-decimal 2 70605 (arriving []) (omega arith)

-- Noise in front of the header, and a pause before the message.
abbrev noisy : World
noisy = record (arriving []) {
  arrivals = λ n p.
      if p == 1 then (if n == 0 then 5 ∷ 64 ∷ [] else (if n == 3 then message else [])) else [];
}

noisy-InTime : (n : ℕ) → n < 23 → int_elapsed 0 (u32 (1 + n)) < 1000
unfolding int_elapsed
noisy-InTime n l = ground arith

noisy-Comes : Comes 23 bus 1000 noisy message
unfolding Avoids InTime future gives
noisy-Comes = record {
  noise = 5 ∷ [];
  clean = λ e. omega arith;
  avoids = ((λ e. omega arith), tt);
  size = refl;
  ends = EndsIn-replicate 33 19 7 (λ e. omega arith);
  come = refl;
  time = noisy-InTime;
}

process-frame_example : report (process 30 bus 1000 noisy) ≡ some (msg_received, message)
process-frame_example = process-frame 23 30 bus 1000 noisy message (omega arith) noisy-Comes

-- The twenty bytes of a `send`, and then nothing.
abbrev unframed : World
unframed = record (arriving []) {
  rx = λ p. if p == 1 then message else [];
  arrivals = λ n p. [];
  clock = λ n. n * 600;
}

gives-length : (k n : ℕ) (q : List ℕ) → length (gives k (λ n. []) n q) ≤ length q
unfolding gives
gives-length zero n q = omega arith
gives-length (suc k) n [] = gives-length k (n + 1) []
gives-length (suc k) n (b ∷ q) =
    rw (append-nil q) (let l = gives-length k (n + 1) q in omega (arith, l))

unframed-Unframed : Unframed 1 unframed
unfolding Unframed AtMost future
unframed-Unframed = inl λ k. gives-length k 0 message

unframed-StaysOver :
    StaysOver (listen_of bus request_header msg_footer msg_size 1000 0) (millis unframed).1
unfolding StaysOver int_elapsed
unframed-StaysOver zero before o = absurd (omega (arith, o))
unframed-StaysOver (suc zero) before o = omega arith
unframed-StaysOver (suc (suc n)) before o =
    let early = before 1 (omega arith) in absurd (omega (arith, early))

abbrev result_of : Option (SocketCode × Message × World) → SocketCode × Message × World
result_of none = (msg_received, [], unframed)
result_of (some r) = r

abbrev heard : SocketCode × Message × World
heard = result_of (process 3 bus 1000 unframed)

heard_lem : process 3 bus 1000 unframed ≡ some heard
unfolding process listen_msg await_header collect listen_code int_elapsed
heard_lem = refl

process-Unframed_example : heard.0 ≢ msg_received
process-Unframed_example =
    process-Unframed 3 bus 1000 unframed heard.2 heard.0 heard.1 unframed-Unframed
      unframed-StaysOver heard_lem
