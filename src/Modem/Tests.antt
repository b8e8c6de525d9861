-- ===== src/Modem/Tests.antt =====
-- A command to a modem.
use dread.Base.{
  ℕ, ◌*◌, ◌≡◌, refl, Bool, true, false, Option, none, some, List, [], ◌∷◌, ◌++◌, ◌==◌,
  if◌then◌else◌, arith,
}
use dread.Base.Avoiding.{Avoids}
use dread.Hardware.{World}
use dread.Modem.{Sim900, ok_text, wait_for, wait_loop, match_response, advance}
use dread.Modem.Matching.{received}
use dread.Modem.Waiting.{wait_for-response}

abbrev gprs : Sim900
gprs = record { hard_port = 1; soft_port = 2 }

abbrev idle : World
idle = record {
  clock = λ n. n;
  arrivals = λ n p. [];
  replies = λ n. 0;
  ticks = 0;
  polls = 0;
  transfers = 0;
  rx = λ p. [];
  trace = [];
}

-- A byte that does not belong to the response, and then "OK".
abbrev replying : World
replying = record {
  clock = λ n. n * 1000;
  arrivals = λ n p. if n == 2 then b'x' ∷ ok_text else [];
  replies = λ n. 0;
  ticks = 0;
  polls = 0;
  transfers = 0;
  rx = λ p. [];
  trace = [];
}

abbrev result_of : Option (Bool × World) → Bool × World
result_of none = (false, replying)
result_of (some r) = r

abbrev waited : Bool × World
waited = result_of (wait_for gprs 9 ok_text 5000 replying)

waited_lem : wait_for gprs 9 ok_text 5000 replying ≡ some (true, waited.1)
unfolding wait_for wait_loop match_response advance
waited_lem = refl

ok_text-Avoids : Avoids 13 ok_text
unfolding Avoids
ok_text-Avoids = ((λ e. omega arith), ((λ e. omega arith), tt))

wait_for-response_example :
    (between : List ℕ) × (received 1 waited.1.trace
      ≡ (received 1 replying.trace ++ between) ++ ok_text)
wait_for-response_example =
    wait_for-response gprs 9 5000 ok_text replying waited.1 ok_text-Avoids (omega arith)
      (omega arith) waited_lem
