-- ===== src/Gateway/Client/Polling.antt =====
-- What a poll of the master keeps, and what the answer to its offer of an address does.
use dread.Base.{
  ℕ, ◌≡◌, ◌≢◌, refl, inl, inr, ap, subst, ◌∙◌, Bool, true, false, not, Option, none, some, List, [],
  ◌∷◌, ◌++◌, ◌==◌, ◌!=◌, positive, if◌then◌else◌, ==_true, Bool-cases,
}
use dread.Hardware.{World, wrote_block}
use dread.Locale.{Locale}
use dread.Net.Types.{
  Message, addr, kind, status, router_ok, set_kind, set_addr, set_request_msg, broadcast_address,
  request_ack, request_get_record, request_put_address,
}
use dread.Net.Socket.{
  SocketCode, msg_received, msg_timeout, msg_no_format, msg_out_of_bound, process, send,
}
use dread.Net.Manager.{
  next_address, available_addresses, contains, add_address, get_address, get_free_address,
}
use dread.Net.Manager.Validity.{IsValid, add_address-IsValid}
use dread.Net.Manager.Registry.{accepted, contains-add_address}
use dread.Persistence.Interface.{Persistence}
use dread.Gateway.Client.{
  Client, Poll, scan_net, request_record, send_ack, handle_get_record, handle_put_address,
  handle_response, after_response, with_next, poll_records, stored, handle_error,
}

-- The address table of a result, if there is one, is well-formed.
Fine : {S : Type 0} → Option (Poll S × World) → Type 0
Fine none = Unit {0}
Fine (some (s, w)) = IsValid s.manager

Fine-if :
    {S : Type 0} (b : Bool) (o o' : Option (Poll S × World))
    → Fine o
    → Fine o'
    → Fine (if b then o else o')
Fine-if true o o' f g = f
Fine-if false o o' f g = g

IsValid-if :
    {S : Type 0} (b : Bool) (x y : Poll S × World)
    → IsValid x.0.manager
    → IsValid y.0.manager
    → IsValid (if b then x else y).0.manager
IsValid-if true x y f g = f
IsValid-if false x y f g = g

module _ (c : Client) {S : Type 0} (p : Persistence S) (locale : Locale) where
  Fine-stored :
      (s : Poll S) (w : World) (d : Option (List ℕ))
      → IsValid s.manager
      → Fine (stored c p locale s w d)
  unfolding stored send_ack Fine
  Fine-stored s w none v = tt
  Fine-stored s w (some d) v = v

  put-IsValid :
      (s : Poll S) (w : World)
      → IsValid s.manager
      → IsValid (handle_put_address c p locale s w).0.manager
  unfolding handle_put_address send_ack
  put-IsValid s w v =
      let a = add_address s.manager (addr s.res) in
      let v' = add_address-IsValid s.manager (addr s.res) v in
      IsValid-if a.1 _ (record s { manager = a.0 }, w) v' v'

  get-Fine : (s : Poll S) (w : World) → IsValid s.manager → Fine (handle_get_record c p locale s w)
  unfolding handle_get_record Fine
  get-Fine s w v =
      Fine-if (not (contains s.manager (addr s.res))) (some (s, w)) _ v
        (Fine-if _ _ (some _) (Fine-stored _ _ _ v) v)

  handle-Fine : (s : Poll S) (w : World) → IsValid s.manager → Fine (handle_response c p locale s w)
  unfolding handle_response handle_error Fine
  handle-Fine s w v = Fine-if (status s.res != router_ok) (some (s, w)) _ v (
      Fine-if (kind s.res == request_get_record) _ _ (get-Fine s w v)
        (Fine-if (kind s.res == request_put_address) _ _ (put-IsValid s w v) v))

  after-Fine :
      (s : Poll S) (o : Option (SocketCode × Message × World))
      → IsValid s.manager
      → Fine (after_response c p locale s o)
  unfolding after_response Fine
  after-Fine s none v = tt
  after-Fine s (some (msg_received, m, w)) v = handle-Fine (record s { res = m }) w v
  after-Fine s (some (msg_timeout, m, w)) v = v
  after-Fine s (some (msg_no_format, m, w)) v = v
  after-Fine s (some (msg_out_of_bound, m, w)) v = v

  request-IsValid :
      (s : Poll S) (w : World)
      → IsValid s.manager
      → IsValid (request_record c p locale s w).0.manager
  unfolding request_record
  request-IsValid s w v =
      let req' =
        set_request_msg 0 (set_kind request_get_record (set_addr (get_address s.manager) s.req)) in
      IsValid-if (positive (get_address s.manager)) (record s { req = req' }, send c.socket req' w)
        (s, w) v v

  scan-IsValid :
      (s : Poll S) (w : World) → IsValid s.manager → IsValid (scan_net c p locale s w).0.manager
  unfolding scan_net
  scan-IsValid s w v =
      let req' =
        set_request_msg (get_free_address s.manager)
          (set_kind request_put_address (set_addr broadcast_address s.req)) in
      IsValid-if (available_addresses s.manager == 0) (s, w)
        (record s { req = req' }, send c.socket req' w) v v

  next-Fine :
      (fuel : ℕ) (s : Poll S) (w : World) (o : Option Bool)
      → IsValid s.manager
      → Fine (with_next c p locale fuel s w o)
  unfolding with_next Fine
  next-Fine fuel s w none v = tt
  next-Fine fuel s w (some b) v =
      let r = request_record c p locale s w in
      after-Fine r.0 (process fuel c.socket 1000 r.1) (request-IsValid s w v)

  -- Whatever a slave answers, and whatever the persistence does, a poll that returns leaves the table of
  -- addresses well-formed if it was so before.
  pub poll_records-IsValid :
      (fuel : ℕ) (s s' : Poll S) (w w' : World)
      → IsValid s.manager
      → poll_records c p locale fuel s w ≡ some (s', w')
      → IsValid s'.manager
  unfolding poll_records Fine
  poll_records-IsValid fuel s s' w w' v e =
      let r = scan_net c p locale s w in
      subst Fine e (next-Fine fuel r.0 r.1 (next_address r.0.manager) (scan-IsValid s w v))

  -- An answer with a nonzero address registers it: afterwards the table contains the address. It is
  -- acknowledged, by a message of the kind `REQUEST_ACK`, exactly if the table took it up now.
  pub handle_put_address-registers :
      (s : Poll S) (w : World)
      → IsValid s.manager
      → s.manager.free_addresses ≢ 0
      → addr s.res ≢ 0
      → let r = handle_put_address c p locale s w in
        (contains r.0.manager (addr s.res) ≡ true)
        × (r.1.trace ≡ (
            if contains s.manager (addr s.res)
            then w.trace
            else w.trace ++ (wrote_block c.socket.port (set_kind request_ack s.req) ∷ [])))
  unfolding handle_put_address send_ack send
  handle_put_address-registers s w v f nz =
      let m = s.manager in
      let a = addr s.res in
      let same : (a == a) ≡ true = ==_true refl in
      let now = contains-add_address m a a v nz in
      elim (Bool-cases (contains m a)) [
        | inl c ↦
            let no_ : (add_address m a).1 ≡ false = accepted m a f ∙ ap not c in
            rw (no_, c) (now ∙ (rw (no_, c) refl), refl)
        | inr c ↦
            let yes_ : (add_address m a).1 ≡ true = accepted m a f ∙ ap not c in
            rw (yes_, c) (now ∙ (rw (yes_, c, same) refl), refl)
      ]
