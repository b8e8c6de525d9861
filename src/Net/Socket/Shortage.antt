-- ===== src/Net/Socket/Shortage.antt =====
-- What `listenMsg` does when too few bytes come: a header and the 20 bytes of a message are 21.
use dread.Base.{
  ℕ, zero, suc, ◌+◌, ◌<◌, ◌≤◌, ◌≡◌, ◌≢◌, ◌⊎◌, inl, inr, refl, sym, ap, subst, ◌∙◌, true, false,
  Option, none, some, List, u32, get_or, length, arith, Bool-cases, some_inj, u8,
}
use dread.Hardware.{World, Port}
use dread.Net.Socket.{
  SocketCode, msg_received, Listen, await_header, collect, awaits_on, collects_on, int_elapsed,
  finished,
}
use dread.Net.Socket.Rounds.{
  first_round, first_round-clock, await_header-stop, await_header-next, second_round,
  second_round-clock, collect-stop, collect-next,
}
use dread.Net.Socket.Arrivals.{future, Reads, put, moved, first_round-Reads, second_round-Reads}
use dread.Net.Socket.Receive.{listen_code_received}

-- However many rounds there are, at most `n` bytes are read.
unfoldable pub AtMost : ℕ → Port → World → Type 0
AtMost n p w = (k : ℕ) → length (future k p w) ≤ n

abbrev used : Option ℕ → ℕ
used none = 0
used (some b) = 1

-- What a round reads is one less to come.
Reads-AtMost :
    (n : ℕ) (p : Port) (w w' : World) (o : Option ℕ)
    → Reads p w w' o
    → AtMost n p w
    → (m : ℕ) × (used o + m ≡ n) × AtMost m p w'
unfolding Reads AtMost
Reads-AtMost n p w w' none r h = (n, omega arith, λ k. subst (λ l. length l ≤ n) (r k) (h (suc k)))
Reads-AtMost zero p w w' (some b) r h =
    let z : suc (length (future 0 p w')) ≤ 0 = subst (λ l. length l ≤ 0) (r 0) (h 1) in
    absurd (omega (arith, z))
Reads-AtMost (suc n) p w w' (some b) r h = (
  n,
  omega arith,
  λ k.
      let z : suc (length (future k p w')) ≤ suc n =
        subst (λ l. length l ≤ suc n) (r k) (h (suc k)) in
      omega (arith, z),
)

-- The place at the end of the second loop.
collect-AtMost :
    (fuel : ℕ) (c : Listen) (msg : List ℕ) (p n : ℕ) (w : World) (r : List ℕ × ℕ × ℕ × World)
    → p + n < 256
    → AtMost n c.socket.port w
    → collect fuel c msg p w ≡ some r
    → r.1 ≤ p + n
unfolding collect
collect-AtMost zero c msg p n w r l h e = cc
collect-AtMost (suc fuel) c msg p n w r l h e =
    let s = second_round c msg p w in
    let (o, reads, m, q) = second_round-Reads c msg p w in
    let (n', u, h') = Reads-AtMost n c.socket.port w s.3 o reads h in
    let place : s.1 + n' ≤ p + n = moved-le p n n' s.1 o q u l in
    elim (Bool-cases (collects_on c s.0 s.1 s.2)) [
      | inl on ↦
          let le =
            collect-AtMost fuel c s.0 s.1 n' s.3 r (omega (arith, place, l)) h'
              (sym (collect-next c msg p w fuel on) ∙ e) in
          omega (arith, le, place)
      | inr off ↦
          let same : some s ≡ some r = sym (collect-stop c msg p w fuel off) ∙ e in
          let at : s.1 ≡ r.1 = ap (λ t. t.1) (some_inj same) in omega (arith, at, place)
    ]
  where
    moved-le :
        (p n n' q : ℕ) (o : Option ℕ)
        → q ≡ moved p o
        → used o + n' ≡ n
        → p + n < 256
        → q + n' ≤ p + n
    moved-le p n n' q none e u l = omega arith
    moved-le p n n' q (some b) e u l =
        let z : u8 (p + 1) ≡ p + 1 = omega arith in omega (arith, e, z)

-- The time of the reading of the clock after `i` more, as it is compared.
abbrev time_at : Listen → World → ℕ → ℕ
time_at c w i = int_elapsed c.init_time (u32 (w.clock (w.ticks + i)))

-- The next reading of the clock comes after the timeout.
unfoldable pub OverNext : Listen → World → Type 0
OverNext c w = c.timeout ≤ time_at c w 0

-- The reading behind the first one after the timeout comes after it, too.
unfoldable pub StaysOver : Listen → World → Type 0
StaysOver c w =
    (n : ℕ)
    → ((j : ℕ) → j < n → time_at c w j < c.timeout)
    → c.timeout ≤ time_at c w n
    → c.timeout ≤ time_at c w (suc n)

-- The first loop ends with a header, which is a byte that was read, or after the timeout.
unfoldable pub Waited : Listen → ℕ → World → Type 0
Waited c n w = ((m : ℕ) × (suc m ≡ n) × AtMost m c.socket.port w) ⊎ OverNext c w

pub by_time :
    (c : Listen) (msg : List ℕ) (time : ℕ)
    → awaits_on c msg time ≡ false
    → (get_or msg 0 0 ≡ c.header) ⊎ (c.timeout ≤ time)
by_time c msg time e = ground arith

not_yet :
    (c : Listen) (msg : List ℕ) (time : ℕ) → awaits_on c msg time ≡ true → get_or msg 0 0 ≢ c.header
not_yet c msg time e = ground arith

pub in_time :
    (c : Listen) (msg : List ℕ) (time : ℕ) → awaits_on c msg time ≡ true → time < c.timeout
in_time c msg time e = ground arith

-- A round of the first loop reads the clock once.
module _ (c : Listen) (msg : List ℕ) (w : World) where
  first_round-time : (first_round c msg w).1 ≡ time_at c w 0
  first_round-time =
      let z : w.ticks + 0 ≡ w.ticks = omega arith in
      (first_round-clock c msg w).0 ∙ ap (λ n. int_elapsed c.init_time (u32 (w.clock n))) (sym z)

  time_at-next : (i : ℕ) → time_at c (first_round c msg w).2 i ≡ time_at c w (suc i)
  time_at-next i =
      let (now, clk, tick) = first_round-clock c msg w in
      let z : (w.ticks + 1) + i ≡ w.ticks + suc i = omega arith in rw (clk, tick, z) refl

  pub StaysOver-next :
      StaysOver c w → (first_round c msg w).1 < c.timeout → StaysOver c (first_round c msg w).2
  unfolding StaysOver
  StaysOver-next h l n before o =
      subst (λ t. c.timeout ≤ t) (sym (time_at-next (suc n)))
        (h (suc n) earlier (subst (λ t. c.timeout ≤ t) (time_at-next n) o))
    where
      earlier : (j : ℕ) → j < suc n → time_at c w j < c.timeout
      earlier zero b = subst (λ t. t < c.timeout) first_round-time l
      earlier (suc j) b = subst (λ t. t < c.timeout) (time_at-next j) (before j (omega arith))

  -- A round whose time is over, and what follows.
  pub over-after :
      StaysOver c w → c.timeout ≤ (first_round c msg w).1 → OverNext c (first_round c msg w).2
  unfolding StaysOver OverNext
  over-after over late =
      subst (λ t. c.timeout ≤ t) (sym (time_at-next 0))
        (over 0 (λ j l. absurd (omega arith)) (subst (λ t. c.timeout ≤ t) first_round-time late))

-- The round in which the first loop ends.
module _ (c : Listen) (msg : List ℕ) (n m : ℕ) (w : World) where
  abbrev f : List ℕ × ℕ × World
  f = first_round c msg w

  ended :
      (o : Option ℕ)
      → f.0 ≡ put msg 0 o
      → used o + m ≡ n
      → AtMost m c.socket.port f.2
      → get_or msg 0 0 ≢ c.header
      → StaysOver c w
      → (get_or f.0 0 0 ≡ c.header) ⊎ (c.timeout ≤ f.1)
      → (n' : ℕ) × (n' ≤ n) × Waited c n' f.2
  unfolding StaysOver OverNext Waited
  ended none e u h x over (inl y) = absurd (x (ap (λ l. get_or l 0 0) (sym e) ∙ y))
  ended (some b) e u h x over (inl y) = (n, omega arith, inl (m, omega (arith, u), h))
  ended o e u h x over (inr y) = (m, omega (arith, u), inr (over-after c msg w over y))

pub await_header-Waited :
    (fuel : ℕ) (c : Listen) (msg : List ℕ) (n : ℕ) (w : World) (r : List ℕ × World)
    → get_or msg 0 0 ≢ c.header
    → AtMost n c.socket.port w
    → StaysOver c w
    → await_header fuel c msg w ≡ some r
    → (n' : ℕ) × (n' ≤ n) × Waited c n' r.1
unfolding await_header StaysOver OverNext Waited
await_header-Waited zero c msg n w r x h over e = cc
await_header-Waited (suc fuel) c msg n w r x h over e =
    let g = first_round c msg w in
    let (o, reads, put_) = first_round-Reads c msg w in
    let (m, u, h') = Reads-AtMost n c.socket.port w g.2 o reads h in
    elim (Bool-cases (awaits_on c g.0 g.1)) [
      | inl on ↦
          let (n', l, q) =
            await_header-Waited fuel c g.0 m g.2 r (not_yet c g.0 g.1 on) h'
              (StaysOver-next c msg w over (in_time c g.0 g.1 on))
              (sym (await_header-next c msg w fuel on) ∙ e) in
          (n', omega (arith, l, u), q)
      | inr off ↦
          let same : some (g.0, g.2) ≡ some r = sym (await_header-stop c msg w fuel off) ∙ e in
          subst (λ t. (n' : ℕ) × (n' ≤ n) × Waited c n' t.1) (some_inj same)
            (ended c msg n m w o put_ u h' x over (by_time c g.0 g.1 off))
    ]

too_late :
    (c : Listen) (msg : List ℕ) (p time : ℕ) → c.timeout ≤ time → collects_on c msg p time ≡ false
too_late c msg p time l = ground arith

at_once :
    (fuel : ℕ) (c : Listen) (msg : List ℕ) (w : World) (r : List ℕ × ℕ × ℕ × World)
    → OverNext c w
    → collect fuel c msg 0 w ≡ some r
    → r.1 < 2
unfolding collect OverNext
at_once zero c msg w r over e = cc
at_once (suc fuel) c msg w r over e =
    let s = second_round c msg 0 w in
    let (o, reads, m, q) = second_round-Reads c msg 0 w in
    let (now, clk, tick) = second_round-clock c msg 0 w in
    let z : w.ticks + 0 ≡ w.ticks = omega arith in
    let late : c.timeout ≤ s.2 = rw now (rw z at over) in
    let same : some s ≡ some r =
      sym (collect-stop c msg 0 w fuel (too_late c s.0 s.1 s.2 late)) ∙ e in
    let at : s.1 ≡ r.1 = ap (λ t. t.1) (some_inj same) in few o (sym at ∙ q)
  where
    few : {a : ℕ} (o : Option ℕ) → a ≡ moved 0 o → a < 2
    few none e = omega (arith, e)
    few (some b) e = omega (arith, e)

-- With the first loop's end, the second does not come to the end of the buffer.
collect-short :
    (fuel : ℕ) (c : Listen) (msg : List ℕ) (n : ℕ) (w : World) (r : List ℕ × ℕ × ℕ × World)
    → n ≤ 20
    → Waited c n w
    → collect fuel c msg 0 w ≡ some r
    → r.1 < 20
unfolding Waited
collect-short fuel c msg n w r l (inl (m, e, h)) e' =
    let z = collect-AtMost fuel c msg 0 m w r (omega (arith, e, l)) h e' in omega (arith, z, e, l)
collect-short fuel c msg n w r l (inr over) e' =
    let z = at_once fuel c msg w r over e' in omega (arith, z)

pub finished-short :
    (fuel : ℕ) (c : Listen) (msg : List ℕ) (n : ℕ) (w : World) (q : SocketCode × List ℕ × World)
    → c.size ≡ 20
    → n ≤ 20
    → Waited c n w
    → finished c (collect fuel c msg 0 w) ≡ some q
    → q.0 ≢ msg_received
finished-short fuel c msg n w q size l waited e x = go (collect fuel c msg 0 w) refl e
  where
    go :
        (o : Option (List ℕ × ℕ × ℕ × World))
        → collect fuel c msg 0 w ≡ o
        → finished c o ≡ some q
        → ⊥
    go none e' f = cc
    go (some r) e' f =
        let place = collect-short fuel c msg n w r l waited e' in
        let code = listen_code_received c r.0 r.1 r.2 (ap (λ t. t.0) (some_inj f) ∙ x) in
        let all = code.0 in omega (arith, place, all, size)
