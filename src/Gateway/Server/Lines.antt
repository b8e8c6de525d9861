-- ===== src/Gateway/Server/Lines.antt =====
-- What the slave sends when its reader has lines, each of which fits into a response.
use dread.Base.{
  ℕ, zero, suc, ◌-◌, ◌<◌, ◌≤◌, ◌≡◌, refl, sym, ap, subst, ◌∙◌, true, false, some, List, [], ◌∷◌,
  ◌++◌, append_assoc, positive, set, length, arith, ==_false,
}
use dread.Hardware.{World, Port, Effect, wrote_block}
use dread.Net.Types.{Message, kind, request_get_record, set_addr, set_kind, set_status, router_ok}
use dread.Net.Socket.{send}
use dread.Net.Socket.Collecting.{EndsIn}
use dread.Persistence.Interface.{Persistence, byte_of}
use dread.Gateway.Server.{
  Server, Listening, fill, response_for, answered, get_record, round, go_on, session,
}
use dread.Gateway.Server.Session.{round-get_record}

-- A reader whose bytes, in order, are `view`.
pub record Viewed {S : Type 0} (p : Persistence S) (IsFine : S → Type 0) (view : S → List ℕ)
    : Type 0 where
  pub keeps : (st : S) → IsFine st → IsFine (p.read st).1
  pub waits : (st : S) → IsFine st → p.available st ≡ length (view st)
  pub reads :
      (st : S) (b : ℕ) (bs : List ℕ)
      → IsFine st
      → view st ≡ b ∷ bs
      → (byte_of (p.read st).0 ≡ b) × (view (p.read st).1 ≡ bs)

-- The bytes written to a message from a place on.
unfoldable pub place : ℕ → List ℕ → Message → Message
place i [] m = m
place i (b ∷ bs) m = place (suc i) bs (set m i b)

-- A line ends in the newline, and has no other.
unfoldable pub Line : List ℕ → Type 0
Line l = EndsIn 10 l × (length l ≤ 17)

unfoldable pub Lines : List (List ℕ) → Type 0
Lines [] = Unit {0}
Lines (l ∷ ls) = Line l × Lines ls

unfoldable pub joined : List (List ℕ) → List ℕ
joined [] = []
joined (l ∷ ls) = l ++ joined ls

-- The head of a response, over what it held before.
abbrev pub head : ℕ → Message → Message
head address m = set_kind request_get_record (set_addr address (set_status router_ok m))

-- For each line a response without it, and then the same with the line from its fourth byte on.
unfoldable pub responses : Port → ℕ → Message → List (List ℕ) → List Effect
responses p address m [] = []
responses p address m (l ∷ ls) =
    let m1 = head address m in
    let m2 = place 3 l m1 in wrote_block p m1 ∷ wrote_block p m2 ∷ responses p address m2 ls

module _ {S : Type 0} (p : Persistence S) (IsFine : S → Type 0) (view : S → List ℕ)
    (viewed : Viewed p IsFine view) where
  some_wait :
      (st : S) (b : ℕ) (bs : List ℕ)
      → IsFine st
      → view st ≡ b ∷ bs
      → positive (p.available st) ≡ true
  some_wait st b bs f e = ap positive (viewed.waits st f ∙ ap length e)

  -- What the inner loop leaves: the line in its place, and the rest to read.
  Took : ℕ → Message → S → List ℕ → List ℕ → Type 0
  Took room raw st line rest =
      (st' : S) × (fill p room raw st ≡ some (place (20 - room) line raw, st'))
      × (view st' ≡ rest)
      × IsFine st'

  fill-line :
      (room : ℕ) (raw : Message) (st : S) (line rest : List ℕ)
      → IsFine st
      → EndsIn 10 line
      → length line ≤ room
      → room ≤ 17
      → view st ≡ line ++ rest
      → Took room raw st line rest
  unfolding Took EndsIn fill place
  fill-line room raw st [] rest f ends l small e = absurd ends
  fill-line zero raw st (b ∷ bs) rest f ends l small e = absurd (omega arith)
  fill-line (suc room) raw st (b ∷ []) rest f ends l small e =
      let (byte, left) = viewed.reads st b rest f e in
      let next : suc (20 - suc room) ≡ 20 - room = omega arith in
      ((p.read st).1, rw (some_wait st b rest f e, byte, ends) refl, left, viewed.keeps st f)
  fill-line (suc room) raw st (b ∷ b' ∷ bs) rest f ends l small e =
      let (byte, left) = viewed.reads st b ((b' ∷ bs) ++ rest) f e in
      let raw1 = set raw (20 - suc room) b in
      let next : suc (20 - suc room) ≡ 20 - room = omega (arith, small) in
      let (st', e', v, f') =
        fill-line room raw1 (p.read st).1 (b' ∷ bs) rest (viewed.keeps st f) ends.1
          (omega (arith, l)) (omega (arith, small)) left in
      (
        st',
        rw (some_wait st b ((b' ∷ bs) ++ rest) f e, byte, ==_false ends.0)
            (subst (λ i. fill p room raw1 (p.read st).1 ≡ some (place i (b' ∷ bs) raw1, st'))
              (sym next) e'),
        v,
        f',
      )

  -- What a round of the session does with the first line.
  round-Line :
      (c : Server) (s : Listening S) (w : World) (l rest : List ℕ)
      → kind s.request ≡ request_get_record
      → IsFine s.store
      → Line l
      → view s.store ≡ l ++ rest
      → let m1 = head s.address s.response in
        let m2 = place 3 l m1 in
        (st' : S) × (round c p s w
          ≡ some (
            record s { response = m2; store = st' },
            positive (p.available st'),
            send c.socket m2 (send c.socket m1 w),
          ))
        × (view st' ≡ rest)
        × IsFine st'
  unfolding get_record Line Took
  round-Line c s w l rest k f (ends, short) e =
      let m1 = response_for c p s in
      let (st', filled, left, f') = fill-line 17 m1 s.store l rest f ends short (omega arith) e in
      (st', round-get_record p c s w k ∙ ap (answered c p s (send c.socket m1 w)) filled, left, f')

  nonempty : (l rest : List ℕ) → Line l → positive (length (l ++ rest)) ≡ true
  unfolding Line EndsIn
  nonempty [] rest h = absurd h.0
  nonempty (b ∷ l) rest h = refl

  -- While lines wait, of at most 17 bytes each and with a newline only at their end, a request for the
  -- records is answered line by line: the session ends with any fuel that is at least the number of
  -- the lines, the reader is empty, and what was sent is, for each line in order, a response without it,
  -- and the same response with the line from its fourth byte on.
  pub session-sends :
      (c : Server) (fuel : ℕ) (s : Listening S) (w : World) (l : List ℕ) (ls : List (List ℕ))
      → kind s.request ≡ request_get_record
      → IsFine s.store
      → Lines (l ∷ ls)
      → view s.store ≡ joined (l ∷ ls)
      → length ls < fuel
      → (s' : Listening S) × (w' : World) × (session c p fuel s w ≡ some (s', w'))
        × (view s'.store ≡ [])
        × (w'.trace ≡ w.trace ++ responses c.socket.port s.address s.response (l ∷ ls))
  unfolding session Lines joined responses send
  session-sends c zero s w l ls k f h e n = absurd (omega arith)
  session-sends c (suc fuel) s w l [] k f h e n =
      let (st', r, left, f') = round-Line c s w l [] k f h.0 e in
      let none_wait : positive (p.available st') ≡ false =
        ap positive (viewed.waits st' f' ∙ ap length left) in
      let m1 = head s.address s.response in
      let m2 = place 3 l m1 in
      let s' : Listening S = record s { response = m2; store = st' } in
      let w' : World = send c.socket m2 (send c.socket m1 w) in
      (
        s',
        w',
        ap (go_on (session c p fuel)) r
            ∙ ap (λ b. go_on (session c p fuel) (some (s', b, w'))) none_wait,
        left,
        append_assoc w.trace (wrote_block c.socket.port m1 ∷ [])
            (wrote_block c.socket.port m2 ∷ []),
      )
  session-sends c (suc fuel) s w l (l' ∷ ls) k f h e n =
      let (st', r, left, f') = round-Line c s w l (joined (l' ∷ ls)) k f h.0 e in
      let more : positive (p.available st') ≡ true =
        ap positive (viewed.waits st' f' ∙ ap length left) ∙ nonempty l' (joined ls) h.1.0 in
      let m1 = head s.address s.response in
      let m2 = place 3 l m1 in
      let s1 : Listening S = record s { response = m2; store = st' } in
      let w1 : World = send c.socket m2 (send c.socket m1 w) in
      let (s', w', run_, empty, t) =
        session-sends c fuel s1 w1 l' ls k f' h.1 left (omega (arith, n)) in
      (
        s',
        w',
        ap (go_on (session c p fuel)) r
            ∙ ap (λ b. go_on (session c p fuel) (some (s1, b, w1))) more
            ∙ run_,
        empty,
        t
            ∙ append_assoc (w.trace ++ (wrote_block c.socket.port m1 ∷ []))
                (wrote_block c.socket.port m2 ∷ []) (responses c.socket.port s.address m2 (l' ∷ ls))
            ∙ append_assoc w.trace (wrote_block c.socket.port m1 ∷ [])
                (wrote_block c.socket.port m2 ∷ responses c.socket.port s.address m2 (l' ∷ ls)),
      )
