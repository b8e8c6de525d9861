-- ===== src/Gateway/Server/Empty.antt =====
-- What the slave's answers leave of a store that has nothing to read.
use dread.Base.{
  ℕ, zero, suc, ◌≡◌, refl, sym, ap, subst, ◌∙◌, Bool, true, false, Option, none, some, ◌==◌, ◌||◌,
  if◌then◌else◌,
}
use dread.Hardware.{World, write}
use dread.Hardware.Output.{write_text}
use dread.Hardware.Returns.{Returns, Returns-if}
use dread.Net.Types.{
  Message, kind, request_ack, request_get_record, router_timeout, router_not_registered,
}
use dread.Net.Socket.{send}
use dread.Persistence.Interface.{Persistence}
use dread.Gateway.Router.{listen_request, register_service}
use dread.Gateway.Server.{
  Server, Listening, fill, response_for, answered, get_record, unhandled, round, go_on, session,
  heard, then_listen, listen,
}

module _ {S : Type 0} (p : Persistence S) (empty : S) (nothing : p.available empty ≡ 0) where
  abbrev Same : Listening S → Type 0
  Same s = s.store ≡ empty

  -- A round that ends leaves the store as it was.
  SameRound : Option (Listening S × Bool × World) → Type 0
  SameRound none = Unit {0}
  SameRound (some (s, b, w)) = Same s

  SameRound-if :
      (b : Bool) (o o' : Option (Listening S × Bool × World))
      → SameRound o
      → SameRound o'
      → SameRound (if b then o else o')
  SameRound-if true o o' h h' = h
  SameRound-if false o o' h h' = h'

  fill-empty : (raw : Message) → fill p 17 raw empty ≡ some (raw, empty)
  unfolding fill
  fill-empty raw = rw nothing refl

  module _ (c : Server) where
    get_record-Same : (s : Listening S) (w : World) → Same s → SameRound (get_record c p s w)
    unfolding get_record SameRound
    get_record-Same s w e =
        let m = response_for c p s in
        let w1 = send c.socket m w in
        let read : fill p 17 m s.store ≡ some (m, empty) = ap (fill p 17 m) e ∙ fill-empty m in
        subst (λ o. SameRound (answered c p s w1 o)) (sym read) refl

    round-Same : (s : Listening S) (w : World) → Same s → SameRound (round c p s w)
    unfolding round SameRound
    round-Same s w e = SameRound-if (kind s.request == request_ack) (some (s, false, w)) _ e (
        SameRound-if (kind s.request == request_get_record) (get_record c p s w)
          (some (s, true, write_text c.logger unhandled w)) (get_record-Same s w e) e)

    go_on-Same :
        (next : Listening S → World → Option (Listening S × World))
        (o : Option (Listening S × Bool × World))
        → ((s : Listening S) (w : World) → Same s → Returns Same (next s w))
        → SameRound o
        → Returns Same (go_on next o)
    unfolding SameRound Returns
    go_on-Same next none h e = tt
    go_on-Same next (some (s, true, w)) h e = h s w e
    go_on-Same next (some (s, false, w)) h e = e

    session-Same :
        (fuel : ℕ) (s : Listening S) (w : World) → Same s → Returns Same (session c p fuel s w)
    unfolding session Returns
    session-Same zero s w e = tt
    session-Same (suc fuel) s w e =
        go_on-Same (session c p fuel) (round c p s w) (session-Same fuel) (round-Same s w e)

    heard-Same :
        (fuel : ℕ) (s : Listening S) (o : Option (ℕ × Message × World))
        → Same s
        → Returns Same (heard c p fuel s o)
    unfolding heard Returns
    heard-Same fuel s none e = tt
    heard-Same fuel s (some (rc, m, w)) e =
        Returns-if Same _ (some _) (session c p fuel _ _) (λ _. e) (λ _. session-Same fuel _ _ e)

    then_listen-Same :
        (fuel : ℕ) (s : Listening S) (o : Option (ℕ × ℕ × World))
        → Same s
        → Returns Same (then_listen c p fuel s o)
    unfolding then_listen Returns
    then_listen-Same fuel s none e = tt
    then_listen-Same fuel s (some (rc, address, w)) e =
        let s1 : Listening S = record s { address = address } in
        let request = listen_request fuel c.socket address 1000 w in
        Returns-if Same ((rc == router_not_registered) || (rc == router_timeout)) (some (s1, w))
          (heard c p fuel s1 request) (λ _. e) (λ _. heard-Same fuel s1 request e)

    -- Whatever the master asks, a call of `listen` that returns leaves a store with nothing to read as
    -- it was.
    pub listen-empty :
        (fuel : ℕ) (res : Message) (s : Listening S) (w : World)
        → s.store ≡ empty
        → Returns (λ s'. s'.store ≡ empty) (listen c p fuel res s w)
    unfolding listen
    listen-empty fuel res s w e =
        then_listen-Same fuel s
          (register_service fuel c.socket res s.address 1000
            (write c.logger 10 (write_text c.logger c.name w)))
          e
