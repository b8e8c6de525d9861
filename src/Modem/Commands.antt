-- ===== src/Modem/Commands.antt =====
-- Modules/GPRS/Sim900.cpp: commands and responses over a serial port. A command or an expected response
-- is the list of the bytes in front of its end mark, the byte 13.
use dread.Base.{
  ℕ, zero, suc, ◌+◌, Bool, false, none, some, List, [], ◌∷◌, ◌==◌, ◌&&◌, ltb, u8, sub_u32, not,
  positive, if◌then◌else◌, get_or,
}
use dread.Hardware.{
  World, Port, millis, available, read, write, flush, digital_write, pin_mode, delay,
}
use dread.Hardware.Output.{println, write_each, print_number}
use dread.Hardware.Monad.{M, bind_run, ◌>>=◌, ◌>>◌, pure, run, ask}

pub record Sim900 : Type 0 where
  pub hard_port : Port
  pub soft_port : Port

-- "AT+" and "Connecting"
abbrev pub at : List ℕ
at = b'A' ∷ b'T' ∷ b'+' ∷ []

abbrev pub connect : List ℕ
connect = b'C' ∷ b'o' ∷ b'n' ∷ b'n' ∷ b'e' ∷ b'c' ∷ b't' ∷ b'i' ∷ b'n' ∷ b'g' ∷ []

-- The byte at a place of an expected response.
abbrev pub byte_at : List ℕ → ℕ → ℕ
byte_at s ptr = get_or s ptr 13

-- How a received byte moves the place in the response.
unfoldable pub advance : List ℕ → ℕ → ℕ → ℕ
advance expected ptr b = if b == byte_at expected ptr then u8 (ptr + 1) else 0

module _ (s : Sim900) where
  unfoldable pub begin : ℕ → ℕ → World → World
  begin rst_pin nopowerdown_pin w =
      let w1 = println s.soft_port (write_each s.soft_port connect w) in
      let w2 = pin_mode nopowerdown_pin 1 (pin_mode rst_pin 1 w1) in
      let w3 = digital_write nopowerdown_pin 1 (digital_write rst_pin 1 w2) in
      digital_write rst_pin 0 (delay 50 w3)

  -- `printP`
  unfoldable pub print_p : List ℕ → World → World
  print_p cmd w = write_each s.hard_port cmd w

  unfoldable pub at_cmd : List ℕ → World → World
  unfolding print_p
  at_cmd cmd w = println s.hard_port (print_p cmd (print_p at (flush s.hard_port w)))

  unfoldable pub at_cmd_c : List ℕ → World → World
  at_cmd_c cmd w = println s.hard_port (write_each s.hard_port cmd (flush s.hard_port w))

  -- The loop of `matchResponse` and of `matchResponseC`, with the result so far: it ends when no byte
  -- is there, or the response is complete. The result, and the place at the end.
  unfoldable pub match_response : ℕ → List ℕ → ℕ → Bool → M (Bool × ℕ)
  match_response zero expected ptr result w = none
  match_response (suc fuel) expected ptr result w =
      let (n, w1) = available s.hard_port w in
      let (b, w2) = read s.hard_port w1 in
      let ptr' = advance expected ptr b in
      let rest =
        match_response fuel expected ptr' (byte_at expected ptr' == 13) (write s.soft_port b w2) in
      if positive n && not result then rest else some ((result, ptr), w1)

  -- The loop of `waitFor` and of `waitForC`.
  unfoldable pub wait_loop : ℕ → List ℕ → ℕ → ℕ → ℕ → Bool → M Bool
  wait_loop zero expected timeout time ptr success w = none
  wait_loop (suc fuel) expected timeout time ptr success w =
      let (now, w1) = millis w in
      let rest =
        bind_run (match_response fuel expected ptr false w1)
          λ r. wait_loop fuel expected timeout time r.1 r.0 in
      if ltb (sub_u32 now time) timeout && not success then rest else some (success, w1)

  unfoldable pub wait_for : ℕ → List ℕ → ℕ → M Bool
  wait_for fuel expected timeout = do
    time ← ask millis
    success ← wait_loop fuel expected timeout time 0 false
    run (println s.soft_port)
    pure success

  unfoldable pub set_at_cmd : ℕ → List ℕ → List ℕ → ℕ → M Bool
  unfolding at_cmd
  set_at_cmd fuel cmd expected timeout = do run (at_cmd cmd); wait_for fuel expected timeout

  unfoldable pub set_at_parameter : ℕ → List ℕ → List ℕ → List ℕ → ℕ → M Bool
  unfolding print_p
  set_at_parameter fuel cmd expected parameter timeout = do
    run (λ w. print_p cmd (print_p at (flush s.hard_port w)))
    run (write_each s.hard_port parameter)
    run (println s.hard_port)
    wait_for fuel expected timeout

  unfoldable pub set_at_number : ℕ → List ℕ → List ℕ → ℕ → ℕ → M Bool
  unfolding print_p
  set_at_number fuel cmd expected number timeout = do
    run (λ w. print_p cmd (print_p at (flush s.hard_port w)))
    run (λ w. println s.hard_port (print_number s.hard_port number w))
    run (λ w. println s.soft_port (print_number s.soft_port number w))
    wait_for fuel expected timeout

  -- One byte from a port to the other, if there is one.
  abbrev pub forward : Port → Port → World → World
  forward from to w =
      let (n, w1) = available from w in
      let (b, w2) = read from w1 in if positive n then write to b w2 else w1

  unfoldable pub hard2soft : World → World
  hard2soft w = forward s.hard_port s.soft_port w

  unfoldable pub soft2hard : World → World
  soft2hard w = forward s.soft_port s.hard_port w

  -- `receiveStream`: the bytes in their order of arrival.
  unfoldable pub receive_stream : ℕ → ℕ → M (List ℕ)
  receive_stream zero length_left w = none
  receive_stream (suc fuel) zero w = some ([], w)
  receive_stream (suc fuel) (suc length_left) w =
      let (n, w1) = available s.hard_port w in
      let (b, w2) = read s.hard_port w1 in
      let next =
        bind_run (receive_stream fuel length_left (write s.soft_port b w2)) λ bs. pure (b ∷ bs) in
      let again = receive_stream fuel (suc length_left) w1 in if positive n then next else again
