-- ===== src/Net/Socket/Ending.antt =====
-- When `listenMsg` ends.
use dread.Base.{
  ℕ, zero, suc, ◌+◌, ◌<◌, ◌≤◌, ◌≡◌, refl, ap, ◌∙◌, inl, inr, Bool, true, false, some, List, ltb,
  ◌&&◌, u32, replicate, arith, Bool-cases,
}
use native.Mathlib.Nat.{add-zero, add_assoc}
use dread.Hardware.{World, millis}
use dread.Hardware.Output.{write_text}
use dread.Net.Types.{Message, request_header, msg_footer, msg_size}
use dread.Net.Socket.{
  Socket, SocketCode, Listen, collect, await_header, listen_msg, process, listen_of, finish,
  finished, collects_on, awaits_on, then_collect, first_matched, int_elapsed,
}
use dread.Net.Socket.Rounds.{
  first_round, first_round-clock, await_header-stop, await_header-next, second_round,
  second_round-clock, collect-stop, collect-next,
}

-- At the n-th reading of the clock the timeout is over.
abbrev pub Over : Listen → World → ℕ → Type 0
Over c w n = c.timeout ≤ int_elapsed c.init_time (u32 (w.clock n))

and-false : (x y : Bool) → y ≡ false → x && y ≡ false
and-false true y e = e
and-false false y e = refl

late : (t n : ℕ) → t ≤ n → ltb n t ≡ false
late t n h = ground arith

await_header-ends :
    (k fuel : ℕ) (c : Listen) (msg : List ℕ) (w : World)
    → k < fuel
    → Over c w (w.ticks + k)
    → (r : List ℕ × World) × (await_header fuel c msg w ≡ some r) × (r.1.clock ≡ w.clock)
await_header-ends k zero c msg w l o = absurd (omega arith)
await_header-ends zero (suc fuel) c msg w l o =
    let f = first_round c msg w in
    let k = first_round-clock c msg w in
    (
      (f.0, f.2),
      await_header-stop c msg w fuel
          (and-false _ _ (late c.timeout f.1 (rw (k.0, ← add-zero w.ticks) o))),
      k.1,
    )
await_header-ends (suc k) (suc fuel) c msg w l o =
    let f = first_round c msg w in
    let clk = first_round-clock c msg w in
    elim (Bool-cases (awaits_on c f.0 f.1)) [
      | inr off ↦ ((f.0, f.2), await_header-stop c msg w fuel off, clk.1)
      | inl on ↦
          let (r, e, same) =
            await_header-ends k fuel c f.0 f.2 (omega arith)
              (rw (clk.1, clk.2, add_assoc, one_add) o) in
          (r, await_header-next c msg w fuel on ∙ e, same ∙ clk.1)
    ]
  where
    one_add : 1 + k ≡ suc k
    one_add = omega arith

collect-ends :
    (k fuel : ℕ) (c : Listen) (msg : List ℕ) (p : ℕ) (w : World)
    → k < fuel
    → Over c w (w.ticks + k)
    → (r : List ℕ × ℕ × ℕ × World) × (collect fuel c msg p w ≡ some r)
collect-ends k zero c msg p w l o = absurd (omega arith)
collect-ends zero (suc fuel) c msg p w l o =
    let s = second_round c msg p w in
    let k = second_round-clock c msg p w in
    (
      s,
      collect-stop c msg p w fuel
          (and-false _ _ (and-false _ _ (late c.timeout s.2 (rw (k.0, ← add-zero w.ticks) o)))),
    )
collect-ends (suc k) (suc fuel) c msg p w l o =
    let s = second_round c msg p w in
    let clk = second_round-clock c msg p w in
    elim (Bool-cases (collects_on c s.0 s.1 s.2)) [
      | inr off ↦ (s, collect-stop c msg p w fuel off)
      | inl on ↦
          let (r, e) =
            collect-ends k fuel c s.0 s.1 s.3 (omega arith)
              (rw (clk.1, clk.2, add_assoc, one_add) o) in
          (r, collect-next c msg p w fuel on ∙ e)
    ]
  where
    one_add : 1 + k ≡ suc k
    one_add = omega arith

-- From every reading of the clock on, the timeout is over within `fuel` readings: the clock goes on,
-- and no wait is longer than the fuel.
abbrev pub ClockRuns : ℕ → ℕ → World → Type 0
ClockRuns fuel timeout w =
    (init n : ℕ) → (k : ℕ) × (k < fuel) × (timeout ≤ int_elapsed init (u32 (w.clock (n + k))))

-- While the clock runs, `process` returns, whatever arrives at the port.
pub process-returns :
    (fuel : ℕ) (s : Socket) (timeout : ℕ) (w : World)
    → ClockRuns fuel timeout w
    → (r : SocketCode × Message × World) × (process fuel s timeout w ≡ some r)
unfolding process listen_msg
process-returns fuel s timeout w runs =
    let first = runs c.init_time (w.ticks + 1) in
    let (r, e, same) =
      await_header-ends first.0 fuel c (replicate 20 0) (millis w).1 first.1 first.2 in
    let w1 = write_text s.logger first_matched r.1 in
    let second = runs c.init_time w1.ticks in
    let (q, e') = collect-ends second.0 fuel c r.0 0 w1 second.1 (rw same second.2) in
    (finish c q, ap (then_collect fuel c) e ∙ ap (finished c) e')
  where
    c : Listen
    c = listen_of s request_header msg_footer msg_size timeout (millis w).0
