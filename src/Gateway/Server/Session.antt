-- ===== src/Gateway/Server/Session.antt =====
-- The session loop of the slave: when it ends, and what it leaves.
use dread.Base.{
  ℕ, zero, suc, ◌-◌, ◌<◌, ◌≤◌, ◌≡◌, ◌≢◌, refl, sym, ap, subst, ◌∙◌, Bool, true, false, Option, none,
  some, ◌==◌, ◌⊎◌, inl, inr, positive, if◌then◌else◌, set, arith, ==_true, ==_false, ℕ_discrete,
}
use dread.Hardware.{World}
use dread.Hardware.Output.{write_text}
use dread.Net.Types.{Message, kind, request_ack, request_get_record}
use dread.Net.Socket.{send}
use dread.Persistence.Interface.{Persistence, byte_of}
use dread.Gateway.Server.{
  Server, Listening, fill, response_for, answered, get_record, unhandled, round, go_on, session,
}

-- What the session relies on of a reader: a byte read is one that no longer waits.
pub record Reader {S : Type 0} (p : Persistence S) (IsFine : S → Type 0) : Type 0 where
  pub keeps : (st : S) → IsFine st → IsFine (p.read st).1
  pub counts :
      (st : S) → IsFine st → p.available st ≢ 0 → suc (p.available (p.read st).1) ≡ p.available st

positive-true : (n : ℕ) → n ≢ 0 → positive n ≡ true
positive-true zero h = absurd (h refl)
positive-true (suc n) h = refl

-- A request of a kind that the slave does not know keeps it in the session loop: no fuel is enough.
pub session-unknown :
    (c : Server) {S : Type 0} (p : Persistence S) (fuel : ℕ) (s : Listening S) (w : World)
    → kind s.request ≢ request_ack
    → kind s.request ≢ request_get_record
    → session c p fuel s w ≡ none
unfolding session round
session-unknown c p zero s w a g = refl
session-unknown c p (suc fuel) s w a g =
    rw (==_false a, ==_false g) (session-unknown c p fuel s (write_text c.logger unhandled w) a g)

-- A request for the records takes the second branch.
pub round-get_record :
    {S : Type 0} (p : Persistence S) (c : Server) (s : Listening S) (w : World)
    → kind s.request ≡ request_get_record
    → round c p s w ≡ get_record c p s w
unfolding round
round-get_record p c s w k =
    let a : (kind s.request == request_ack) ≡ false = ==_false (λ e. omega arith) in
    rw (a, ==_true k) refl

module _ {S : Type 0} (p : Persistence S) (IsFine : S → Type 0) (reader : Reader p IsFine) where
  -- What the inner loop leaves of at most `room` waiting bytes: none, or fewer than `n`.
  Filled : ℕ → Option (Message × S) → Type 0
  Filled n o =
      (raw' : Message) × (st' : S) × (o ≡ some (raw', st'))
      × IsFine st'
      × ((p.available st' ≡ 0) ⊎ (p.available st' < n))

  Filled-later : (n m : ℕ) (o : Option (Message × S)) → n < m → Filled n o → Filled m o
  unfolding Filled
  Filled-later n m o l (raw', st', e, f, inl z) = (raw', st', e, f, inl z)
  Filled-later n m o l (raw', st', e, f, inr k) = (raw', st', e, f, inr (omega arith))

  Filled-here :
      (n : ℕ) (raw : Message) (st : S) → IsFine st → p.available st < n → Filled n (some (raw, st))
  unfolding Filled
  Filled-here n raw st f l = (raw, st, refl, f, inr l)

  Filled-if :
      (n : ℕ) (b : Bool) (o o' : Option (Message × S))
      → Filled n o
      → Filled n o'
      → Filled n (if b then o else o')
  Filled-if n true o o' f g = f
  Filled-if n false o o' f g = g

  Filled-empty :
      (n : ℕ) (raw : Message) (st : S) → IsFine st → p.available st ≡ 0 → Filled n (some (raw, st))
  unfolding Filled
  Filled-empty n raw st f e = (raw, st, refl, f, inl e)

  -- One byte read, then the rest of the loop.
  read_one : ℕ → Message → S → Option (Message × S)
  read_one room raw st =
      let r = p.read st in
      let raw1 = set raw (20 - suc room) (byte_of r.0) in
      if byte_of r.0 == b'\n' then some (raw1, r.1) else fill p room raw1 r.1

  fill-zero :
      (raw : Message) (st : S)
      → p.available st ≡ 0
      → (room : ℕ) → fill p room raw st ≡ some (raw, st)
  unfolding fill
  fill-zero raw st e zero = rw e refl
  fill-zero raw st e (suc room) = rw e refl

  fill-suc :
      (room : ℕ) (raw : Message) (st : S)
      → p.available st ≢ 0
      → fill p (suc room) raw st ≡ read_one room raw st
  unfolding fill read_one
  fill-suc room raw st n = rw (positive-true (p.available st) n) refl

  fill-Filled :
      (room : ℕ) (raw : Message) (st : S)
      → IsFine st
      → p.available st ≤ room
      → Filled (p.available st) (fill p room raw st)
  unfolding read_one
  fill-Filled zero raw st f l =
      let e : p.available st ≡ 0 = omega arith in
      subst (Filled (p.available st)) (sym (fill-zero raw st e 0))
        (Filled-empty (p.available st) raw st f e)
  fill-Filled (suc room) raw st f l = elim (ℕ_discrete (p.available st) 0) [
    | yes e ↦
        subst (Filled (p.available st)) (sym (fill-zero raw st e (suc room)))
          (Filled-empty (p.available st) raw st f e)
    | no n ↦
        let r = p.read st in
        let raw1 = set raw (20 - suc room) (byte_of r.0) in
        let counted = reader.counts st f n in
        let f1 = reader.keeps st f in
        subst (Filled (p.available st)) (sym (fill-suc room raw st n)) (
          Filled-if (p.available st) (byte_of r.0 == b'\n') (some (raw1, r.1))
            (fill p room raw1 r.1) (Filled-here (p.available st) raw1 r.1 f1 (omega arith))
            (Filled-later (p.available r.1) (p.available st) (fill p room raw1 r.1) (omega arith)
              (fill-Filled room raw1 r.1 f1 (omega arith))))
  ]

  Drained : Option (Listening S × World) → Type 0
  Drained o = (s' : Listening S) × (w' : World) × (o ≡ some (s', w')) × (p.available s'.store ≡ 0)

  go_on-Drained :
      (next : Listening S → World → Option (Listening S × World)) (s : Listening S) (w : World)
      → (p.available s.store ≢ 0 → Drained (next s w))
      → Drained (go_on next (some (s, positive (p.available s.store), w)))
  unfolding Drained
  go_on-Drained next s w h = elim (ℕ_discrete (p.available s.store) 0) [
    | yes e ↦ (s, w, rw e refl, e)
    | no n ↦
        subst (λ b. Drained (go_on next (some (s, b, w))))
          (sym (positive-true (p.available s.store) n)) (h n)
  ]

  -- Over a persistence whose reader obeys the laws of `Reader`: a request for the records ends the
  -- session, and leaves the reader empty, if at most the 17 bytes that a response has room for are
  -- waiting and the fuel is more than these bytes.
  pub session-drains :
      (c : Server) (fuel : ℕ) (s : Listening S) (w : World)
      → kind s.request ≡ request_get_record
      → IsFine s.store
      → p.available s.store ≤ 17
      → p.available s.store < fuel
      → (s' : Listening S) × (w' : World) × (session c p fuel s w ≡ some (s', w'))
        × (p.available s'.store ≡ 0)
  unfolding session get_record Filled Drained
  session-drains c zero s w k f l lf = absurd (omega arith)
  session-drains c (suc fuel) s w k f l lf =
      let m = response_for c p s in
      let (raw', st', e, f', left) = fill-Filled 17 m s.store f l in
      let s' : Listening S = record s { response = raw'; store = st' } in
      let w1 = send c.socket m w in
      subst (λ o. Drained (go_on (session c p fuel) o))
        (sym (round-get_record p c s w k ∙ ap (answered c p s w1) e))
        (go_on-Drained (session c p fuel) s' (send c.socket raw' w1)
          λ n. session-drains c fuel s' (send c.socket raw' w1) k f' (omega arith) (omega arith))
