-- ===== src/Gateway/Client/Entering.antt =====
-- A poll of the master as a client of the persistence.
use dread.Base.{
  ℕ, ◌≡◌, ◌⊎◌, inl, inr, refl, subst, Bool-cases, Bool, true, false, not, Option, none, some, List,
  ◌==◌, ◌!=◌, positive, if◌then◌else◌,
}
use dread.Hardware.{World, delay_us}
use dread.Hardware.Returns.{Returns, Returns-if, Returns-of, Returns-value}
use dread.Locale.{Locale, get_date_time}
use dread.Net.Types.{
  Message, addr, kind, status, router_ok, set_kind, set_addr, set_request_msg, broadcast_address,
  request_get_record, request_put_address,
}
use dread.Net.Socket.{
  SocketCode, msg_received, msg_timeout, msg_no_format, msg_out_of_bound, process,
}
use dread.Net.Manager.{
  NetManager, next_address, available_addresses, contains, add_address, get_address,
  get_free_address,
}
use dread.Persistence.Interface.{Persistence, store_one, write_transaction}
use dread.Gateway.Client.{
  Client, Poll, scan_net, request_record, record_of, send_ack, handle_get_record,
  handle_put_address, handle_response, after_response, with_next, poll_records, stored,
  handle_error,
}

-- The request that a poll sends last, as the state before the poll decides.
unfoldable pub asked : {S : Type 0} → Poll S → Message
asked s =
    let offered =
      set_request_msg (get_free_address s.manager)
        (set_kind request_put_address (set_addr broadcast_address s.req)) in
    let req = if available_addresses s.manager == 0 then s.req else offered in
    if positive (get_address s.manager)
    then set_request_msg 0 (set_kind request_get_record (set_addr (get_address s.manager) req))
    else req

-- An answer with records, from a slave that is registered.
unfoldable pub IsAnswer : NetManager → Message → Type 0
IsAnswer manager m =
    ((status m != router_ok) ≡ false)
    × ((kind m == request_get_record) ≡ true)
    × (contains manager (addr m) ≡ true)

-- A message was received, and it is an answer with records.
unfoldable pub IsAnswered : NetManager → Option (SocketCode × Message × World) → Type 0
IsAnswered manager o =
    (m : Message) × (w : World) × (o ≡ some (msg_received, m, w)) × IsAnswer manager m

module _ (c : Client) {S : Type 0} (p : Persistence S) (locale : Locale) where
  -- How a store follows another: nothing was done, or, where this is so, one entry was stored, with this
  -- record and the date that is made in this buffer, or its transaction could not begin.
  unfoldable pub Follows : Type 0 → ℕ → List ℕ → S → S → Type 0
  Follows A r dt st st' =
      let begun = p.begin_transaction write_transaction st in
      (st' ≡ st)
      ⊎ (A
          × (((begun.0 ≡ false) × (st' ≡ begun.1))
              ⊎ ((d : List ℕ) × (w : World) × (begun.0 ≡ true)
                  × (get_date_time locale dt ≡ some d)
                  × (st' ≡ (store_one p (r, d, 13) (st, w)).0))))

  Follows-map :
      (A B : Type 0) (r : ℕ) (dt : List ℕ) (st st' : S)
      → (A → B)
      → Follows A r dt st st'
      → Follows B r dt st st'
  unfolding Follows
  Follows-map A B r dt st st' f (inl e) = inl e
  Follows-map A B r dt st st' f (inr (a, x)) = inr (f a, x)

  unfoldable pub Took : Type 0 → Poll S → Poll S → Type 0
  Took A s s' = Follows A (record_of s.req) s.datetime s.store s'.store

  unchanged : (A : Type 0) (s s' : Poll S) → s'.store ≡ s.store → Took A s s'
  unfolding Took Follows
  unchanged A s s' e = inl e

  stored-Took :
      (A : Type 0) (s : Poll S) (w : World) (d : Option (List ℕ))
      → A
      → get_date_time locale s.datetime ≡ d
      → (p.begin_transaction write_transaction s.store).0 ≡ true
      → Returns (Took A s) (
          stored c p locale
            (record s { store = (p.begin_transaction write_transaction s.store).1 })
            w
            d)
  unfolding Returns Took Follows send_ack store_one
  stored-Took A s w none a e ok = tt
  stored-Took A s w (some d) a e ok = inr (a, inr (d, w, ok, e, rw ok refl))

  unopened-Took :
      (A : Type 0) (s : Poll S)
      → A
      → (p.begin_transaction write_transaction s.store).0 ≡ false
      → Took A s (record s { store = (p.begin_transaction write_transaction s.store).1 })
  unfolding Took Follows
  unopened-Took A s a no_ = inr (a, inl (no_, refl))

  get-Took :
      (A : Type 0) (s : Poll S) (w : World)
      → (contains s.manager (addr s.res) ≡ true → A)
      → Returns (Took A s) (handle_get_record c p locale s w)
  unfolding handle_get_record Returns
  get-Took A s w known =
      let Q : Poll S → Type 0 = Took A s in
      let s1 = record s { store = (p.begin_transaction write_transaction s.store).1 } in
      let w1 = delay_us 100 w in
      Returns-if Q (not (contains s.manager (addr s.res))) (some (s, w)) _
        (λ _. unchanged A s s refl)
        λ on.
          let a = known (not-false (contains s.manager (addr s.res)) on) in
          Returns-if Q (p.begin_transaction write_transaction s.store).0
            (stored c p locale s1 w1 (get_date_time locale s.datetime)) (some (s1, w1))
            (stored-Took A s w1 (get_date_time locale s.datetime) a refl) (unopened-Took A s a)
    where
      not-false : (b : Bool) → not b ≡ false → b ≡ true
      not-false true e = refl
      not-false false e = cc

  same-if :
      (st : S) (b : Bool) (x y : Poll S × World)
      → x.0.store ≡ st
      → y.0.store ≡ st
      → (if b then x else y).0.store ≡ st
  same-if st true x y h h' = h
  same-if st false x y h h' = h'

  handle_put_address-same :
      (s : Poll S) (w : World) → (handle_put_address c p locale s w).0.store ≡ s.store
  unfolding handle_put_address send_ack
  handle_put_address-same s w =
      let a = add_address s.manager (addr s.res) in
      same-if s.store a.1 (send_ack c p locale (record s { manager = a.0 }) w)
        (record s { manager = a.0 }, w) refl refl

  handle-Took :
      (s : Poll S) (w : World)
      → Returns (Took (IsAnswer s.manager s.res) s) (handle_response c p locale s w)
  unfolding handle_response handle_error Returns IsAnswer
  handle-Took s w =
      let A : Type 0 = IsAnswer s.manager s.res in
      let Q : Poll S → Type 0 = Took A s in
      Returns-if Q (status s.res != router_ok) (some (s, w)) _ (λ _. unchanged A s s refl)
        λ fine.
          Returns-if Q (kind s.res == request_get_record) (handle_get_record c p locale s w) _
            (λ asks. get-Took A s w λ known. (fine, asks, known))
            λ _.
              Returns-if Q (kind s.res == request_put_address)
                (some (handle_put_address c p locale s w)) (some _)
                (λ _.
                  unchanged A s (handle_put_address c p locale s w).0 (handle_put_address-same s w))
                λ _. unchanged A s s refl

  after-Took :
      (s : Poll S) (o : Option (SocketCode × Message × World))
      → Returns (Took (IsAnswered s.manager o) s) (after_response c p locale s o)
  unfolding after_response Returns Took IsAnswered
  after-Took s none = tt
  after-Took s (some (msg_received, m, w)) =
      let A : Type 0 = IsAnswer s.manager m in
      let B : Type 0 = IsAnswered s.manager (some (msg_received, m, w)) in
      let o = handle_response c p locale (record s { res = m }) w in
      Returns-of (Took B s) o λ s' w' e.
        Follows-map A B (record_of s.req) s.datetime s.store s'.store (λ a. (m, w, refl, a))
          (Returns-value (Took A (record s { res = m })) o s' w'
            (handle-Took (record s { res = m }) w) e)
  after-Took s (some (msg_timeout, m, w)) = unchanged _ s (record s { res = m }) refl
  after-Took s (some (msg_no_format, m, w)) = unchanged _ s (record s { res = m }) refl
  after-Took s (some (msg_out_of_bound, m, w)) = unchanged _ s (record s { res = m }) refl

  unfoldable pub sent_first : (s : Poll S) (w : World) → Poll S × World
  sent_first s w = let (s1, w1) = scan_net c p locale s w in request_record c p locale s1 w1

  pub sent_first-asked :
      (s : Poll S) (w : World)
      → ((sent_first s w).0.store ≡ s.store)
        × ((sent_first s w).0.req ≡ asked s)
        × ((sent_first s w).0.datetime ≡ s.datetime)
        × ((sent_first s w).0.manager ≡ s.manager)
  unfolding sent_first asked scan_net request_record
  sent_first-asked s w = elim (Bool-cases (available_addresses s.manager == 0)) [
    | inl full ↦ elim (Bool-cases (positive (get_address s.manager))) [
      | inl some_ ↦ rw (full, some_) (refl, refl, refl, refl)
      | inr none_ ↦ rw (full, none_) (refl, refl, refl, refl)
    ]
    | inr free ↦ elim (Bool-cases (positive (get_address s.manager))) [
      | inl some_ ↦ rw (free, some_) (refl, refl, refl, refl)
      | inr none_ ↦ rw (free, none_) (refl, refl, refl, refl)
    ]
  ]

  -- What the socket gives a poll.
  abbrev pub heard : ℕ → Poll S → World → Option (SocketCode × Message × World)
  heard fuel s w = process fuel c.socket 1000 (sent_first s w).1

  -- What a poll stores is not what the slave sent: whatever a slave answers, and whatever the persistence
  -- does, a poll that returns has left the store as it was, or an answer with records was received from
  -- a registered slave and one entry was stored by the protocol of the persistence, with the four
  -- bytes from `msg` on of the master's own last request as its record.
  pub poll_records-Follows :
      (fuel : ℕ) (s s' : Poll S) (w w' : World)
      → poll_records c p locale fuel s w ≡ some (s', w')
      → Follows
          (IsAnswered s.manager (heard fuel s w))
          (record_of (asked s))
          s.datetime
          s.store
          s'.store
  unfolding poll_records Took with_next sent_first
  poll_records-Follows fuel s s' w w' e =
      let r = scan_net c p locale s w in go (next_address r.0.manager) e
    where
      go :
          (o : Option Bool)
          → with_next c p locale fuel (scan_net c p locale s w).0 (scan_net c p locale s w).1 o
            ≡ some (s', w')
          → Follows
              (IsAnswered s.manager (heard fuel s w))
              (record_of (asked s))
              s.datetime
              s.store
              s'.store
      go none x = cc
      go (some b) x =
          let r = sent_first s w in
          let (store, req, date, manager) = sent_first-asked s w in
          let took =
            Returns-value (Took (IsAnswered r.0.manager (heard fuel s w)) r.0)
              (after_response c p locale r.0 (heard fuel s w)) s' w'
              (after-Took r.0 (heard fuel s w)) x in
          subst
            (λ st.
              Follows (IsAnswered s.manager (heard fuel s w)) (record_of (asked s)) s.datetime st
                s'.store)
            store
            (subst
              (λ d.
                Follows (IsAnswered s.manager (heard fuel s w)) (record_of (asked s)) d r.0.store
                  s'.store)
              date
              (subst
                (λ q.
                  Follows (IsAnswered s.manager (heard fuel s w)) (record_of q) r.0.datetime
                    r.0.store s'.store)
                req
                (subst
                  (λ a.
                    Follows (IsAnswered a (heard fuel s w)) (record_of r.0.req) r.0.datetime
                      r.0.store s'.store)
                  manager took)))
