-- ===== src/Net/Socket/Rounds.antt =====
-- The rounds of the two loops of `listenMsg`: the state after one, and what the loop does then.
use dread.Base.{ℕ, suc, ◌+◌, ◌≡◌, refl, true, false, some, List, [], ◌∷◌, ◌++◌, u32, ap₂, arith}
use dread.Hardware.{World}
use dread.Net.Socket.{
  Listen, next_byte, collect, first_byte, await_header, collects_on, awaits_on, round_time,
  int_elapsed,
}

first_byte-clock :
    (c : Listen) (msg : List ℕ) (w : World)
    → ((first_byte c msg w).1.clock ≡ w.clock) × ((first_byte c msg w).1.ticks ≡ w.ticks)
first_byte-clock c msg w = go (w.rx c.socket.port ++ w.arrivals w.polls c.socket.port) refl
  where
    go :
        (l : List ℕ)
        → w.rx c.socket.port ++ w.arrivals w.polls c.socket.port ≡ l
        → ((first_byte c msg w).1.clock ≡ w.clock) × ((first_byte c msg w).1.ticks ≡ w.ticks)
    go [] e = rw e (refl, refl)
    go (b ∷ bs) e = rw e (refl, refl)

next_byte-clock :
    (c : Listen) (msg : List ℕ) (p : ℕ) (w : World)
    → ((next_byte c msg p w).2.clock ≡ w.clock) × ((next_byte c msg p w).2.ticks ≡ w.ticks)
next_byte-clock c msg p w = go (w.rx c.socket.port ++ w.arrivals w.polls c.socket.port) refl
  where
    go :
        (l : List ℕ)
        → w.rx c.socket.port ++ w.arrivals w.polls c.socket.port ≡ l
        → ((next_byte c msg p w).2.clock ≡ w.clock) × ((next_byte c msg p w).2.ticks ≡ w.ticks)
    go [] e = rw e (refl, refl)
    go (b ∷ bs) e = rw e (refl, refl)

module _ (c : Listen) (msg : List ℕ) (w : World) where
  -- The state after a round of the first loop, and the time that it compares.
  abbrev pub first_round : List ℕ × ℕ × World
  first_round =
      let (msg', w1) = first_byte c msg w in let (time, w2) = round_time c w1 in (msg', time, w2)

  pub first_round-clock :
      (first_round.1 ≡ int_elapsed c.init_time (u32 (w.clock w.ticks)))
      × (first_round.2.clock ≡ w.clock)
      × (first_round.2.ticks ≡ w.ticks + 1)
  first_round-clock =
      let k = first_byte-clock c msg w in
      (ap₂ (λ f n. int_elapsed c.init_time (u32 (f n))) k.0 k.1, k.0, omega (arith, k.1))

  pub await_header-stop :
      (fuel : ℕ)
      → awaits_on c first_round.0 first_round.1 ≡ false
      → await_header (suc fuel) c msg w ≡ some (first_round.0, first_round.2)
  unfolding await_header
  await_header-stop fuel off = rw off

  pub await_header-next :
      (fuel : ℕ)
      → awaits_on c first_round.0 first_round.1 ≡ true
      → await_header (suc fuel) c msg w ≡ await_header fuel c first_round.0 first_round.2
  unfolding await_header
  await_header-next fuel on = rw on

module _ (c : Listen) (msg : List ℕ) (p : ℕ) (w : World) where
  -- The state after a round of the second loop, and the time that it compares.
  abbrev pub second_round : List ℕ × ℕ × ℕ × World
  second_round =
      let (msg', p', w1) = next_byte c msg p w in
      let (time, w2) = round_time c w1 in (msg', p', time, w2)

  pub second_round-clock :
      (second_round.2 ≡ int_elapsed c.init_time (u32 (w.clock w.ticks)))
      × (second_round.3.clock ≡ w.clock)
      × (second_round.3.ticks ≡ w.ticks + 1)
  second_round-clock =
      let k = next_byte-clock c msg p w in
      (ap₂ (λ f n. int_elapsed c.init_time (u32 (f n))) k.0 k.1, k.0, omega (arith, k.1))

  pub collect-stop :
      (fuel : ℕ)
      → collects_on c second_round.0 second_round.1 second_round.2 ≡ false
      → collect (suc fuel) c msg p w ≡ some second_round
  unfolding collect
  collect-stop fuel off = rw off

  pub collect-next :
      (fuel : ℕ)
      → collects_on c second_round.0 second_round.1 second_round.2 ≡ true
      → collect (suc fuel) c msg p w ≡ collect fuel c second_round.0 second_round.1 second_round.3
  unfolding collect
  collect-next fuel on = rw on
