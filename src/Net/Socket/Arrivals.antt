-- ===== src/Net/Socket/Arrivals.antt =====
-- The bytes that the rounds of `listenMsg` find at the port: each polls once, and reads if a byte is there.
use dread.Base.{
  ℕ, zero, suc, ◌+◌, ◌≡◌, refl, true, Option, none, some, List, [], ◌∷◌, ◌++◌, ◌==◌, u8, set,
  ==_true,
}
use dread.Hardware.{World, Port}
use dread.Net.Socket.{Listen}
use dread.Net.Socket.Rounds.{first_round, second_round}

-- What a round reads of the bytes that wait, in front of what the further rounds read of the others.
abbrev given : List ℕ → (List ℕ → List ℕ) → List ℕ
given [] further = further []
given (b ∷ q) further = u8 b ∷ further q

-- The bytes that `k` rounds read, from the poll number `n` on, with the bytes `q` waiting.
unfoldable pub gives : ℕ → (ℕ → List ℕ) → ℕ → List ℕ → List ℕ
gives zero a n q = []
gives (suc k) a n q = given (q ++ a n) (gives k a (n + 1))

-- The bytes that the next `k` rounds at a port read.
unfoldable pub future : ℕ → Port → World → List ℕ
unfolding gives
future k p w = gives k (λ n. w.arrivals n p) w.polls (w.rx p)

abbrev pub consed : Option ℕ → List ℕ → List ℕ
consed none bs = bs
consed (some b) bs = b ∷ bs

-- The round from `w` to `w'` reads this.
unfoldable pub Reads : Port → World → World → Option ℕ → Type 0
Reads p w w' o = (k : ℕ) → future (suc k) p w ≡ consed o (future k p w')

abbrev pub put : List ℕ → ℕ → Option ℕ → List ℕ
put msg p none = msg
put msg p (some b) = set msg p b

abbrev pub moved : ℕ → Option ℕ → ℕ
moved p none = p
moved p (some b) = u8 (p + 1)

pub first_round-Reads :
    (c : Listen) (msg : List ℕ) (w : World)
    → let r = first_round c msg w in
      (o : Option ℕ) × Reads c.socket.port w r.2 o × (r.0 ≡ put msg 0 o)
unfolding Reads future gives
first_round-Reads c msg w = go (w.rx c.socket.port ++ w.arrivals w.polls c.socket.port) refl
  where
    here : (c.socket.port == c.socket.port) ≡ true
    here = ==_true refl

    go :
        (l : List ℕ)
        → w.rx c.socket.port ++ w.arrivals w.polls c.socket.port ≡ l
        → let r = first_round c msg w in
          (o : Option ℕ) × Reads c.socket.port w r.2 o × (r.0 ≡ put msg 0 o)
    go [] e = rw e (none, (λ k. rw e refl), refl)
    go (b ∷ q) e = rw (e, here) (some (u8 b), (λ k. refl), refl)

pub second_round-Reads :
    (c : Listen) (msg : List ℕ) (p : ℕ) (w : World)
    → let r = second_round c msg p w in
      (o : Option ℕ) × Reads c.socket.port w r.3 o × (r.0 ≡ put msg p o) × (r.1 ≡ moved p o)
unfolding Reads future gives
second_round-Reads c msg p w = go (w.rx c.socket.port ++ w.arrivals w.polls c.socket.port) refl
  where
    here : (c.socket.port == c.socket.port) ≡ true
    here = ==_true refl

    go :
        (l : List ℕ)
        → w.rx c.socket.port ++ w.arrivals w.polls c.socket.port ≡ l
        → let r = second_round c msg p w in
          (o : Option ℕ) × Reads c.socket.port w r.3 o × (r.0 ≡ put msg p o) × (r.1 ≡ moved p o)
    go [] e = rw e (none, (λ k. rw e refl), refl, refl)
    go (b ∷ q) e = rw (e, here) (some (u8 b), (λ k. refl), refl, refl)
