-- ===== src/Gateway/Client/Answers.antt =====
-- A poll of the master over what comes at its port: an answer in its frame, or too few bytes.
use dread.Base.{
  ℕ, ◌≤◌, ◌≡◌, ◌≢◌, refl, sym, inl, inr, ap, ◌∙◌, Bool, true, false, Option, none, some, List, ◌==◌,
  positive, if◌then◌else◌, some_inj,
}
use dread.Hardware.{World, Effect, millis, delay_us}
use dread.Locale.{Locale, get_date_time}
use dread.Net.Types.{
  Message, addr, kind, status, router_ok, set_kind, set_addr, set_request_msg, broadcast_address,
  msg_size, msg_footer, request_header, request_get_record, request_put_address,
}
use dread.Net.Socket.{
  SocketCode, msg_received, msg_timeout, msg_no_format, msg_out_of_bound, process, report, send,
  listen_of,
}
use dread.Net.Socket.Frames.{Comes, Comes-trace, process-frame}
use dread.Net.Socket.Shortage.{StaysOver}
use dread.Net.Socket.Silence.{Unframed, process-Unframed, Unframed-trace, StaysOver-trace}
use dread.Net.Manager.{
  NetManager, next_address, available_addresses, contains, get_address, get_free_address,
}
use dread.Net.Manager.Validity.{IsValid}
use dread.Net.Manager.Cursor.{next_address_lem}
use dread.Persistence.Interface.{Persistence, store_one, write_transaction}
use dread.Gateway.Client.{
  Client, Poll, scan_net, request_record, record_of, send_ack, handle_get_record,
  handle_put_address, handle_response, after_response, with_next, poll_records,
}
use dread.Gateway.Client.Entering.{asked, sent_first, sent_first-asked}
use dread.Gateway.Client.Polling.{handle_put_address-registers}

module _ (c : Client) {S : Type 0} (p : Persistence S) (locale : Locale) where
  -- What a step that only sends leaves as it was: all but the request and the trace.
  Sent : Poll S → World → Poll S × World → Type 0
  Sent s w r =
      (req : Message) × (t : List Effect) × (r ≡ (record s { req = req }, record w { trace = t }))

  Sent-if :
      (s : Poll S) (w : World) (b : Bool) (x y : Poll S × World)
      → Sent s w x
      → Sent s w y
      → Sent s w (if b then x else y)
  Sent-if s w true x y h h' = h
  Sent-if s w false x y h h' = h'

  scan_net-Sent : (s : Poll S) (w : World) → Sent s w (scan_net c p locale s w)
  unfolding Sent scan_net send
  scan_net-Sent s w =
      let req' =
        set_request_msg (get_free_address s.manager)
          (set_kind request_put_address (set_addr broadcast_address s.req)) in
      Sent-if s w (available_addresses s.manager == 0) (s, w)
        (record s { req = req' }, send c.socket req' w) (s.req, w.trace, refl)
        (req', (send c.socket req' w).trace, refl)

  request_record-Sent : (s : Poll S) (w : World) → Sent s w (request_record c p locale s w)
  unfolding Sent request_record send
  request_record-Sent s w =
      let req' =
        set_request_msg 0 (set_kind request_get_record (set_addr (get_address s.manager) s.req)) in
      Sent-if s w (positive (get_address s.manager)) (record s { req = req' }, send c.socket req' w)
        (s, w) (req', (send c.socket req' w).trace, refl) (s.req, w.trace, refl)

  next_address-some : (m : NetManager) → IsValid m → (b : Bool) × (next_address m ≡ some b)
  next_address-some m v = elim (next_address_lem m v) [ inl x ↦ (true, x.0) | inr x ↦ (false, x.0) ]

  -- With a valid table, a poll is the handling of what `process` brings after the requests.
  polls :
      (fuel : ℕ) (s : Poll S) (w : World)
      → IsValid s.manager
      → (t : List Effect) × (poll_records c p locale fuel s w
          ≡ after_response c p locale
              (record s { req = asked s })
              (process fuel c.socket 1000 (record w { trace = t })))
  unfolding poll_records with_next Sent sent_first
  polls fuel s w v =
      let (req, t, e) = scan_net-Sent s w in
      let s1 : Poll S = record s { req = req } in
      let w1 : World = record w { trace = t } in
      let (b, n) = next_address-some s.manager v in
      let (req', t', e') = request_record-Sent s1 w1 in
      let own : req' ≡ asked s =
        ap (λ r. r.0.req) (sym e' ∙ sym (ap (λ r. request_record c p locale r.0 r.1) e))
        ∙ (sent_first-asked c p locale s w).1 in
      (
        t',
        ap (λ r. with_next c p locale fuel r.0 r.1 (next_address r.0.manager)) e
            ∙ ap (with_next c p locale fuel s1 w1) n
            ∙ ap (λ r. after_response c p locale r.0 (process fuel c.socket 1000 r.1)) e'
            ∙ ap
                (λ m.
                  after_response c p locale (record s { req = m })
                    (process fuel c.socket 1000 (record w { trace = t' })))
                own,
      )

  -- The handling of a message that was received.
  reported :
      (s : Poll S) (m : Message) (o : Option (SocketCode × Message × World))
      → report o ≡ some (msg_received, m)
      → (w : World) × (after_response c p locale s o
          ≡ handle_response c p locale (record s { res = m }) w)
  unfolding after_response
  reported s m none e = cc
  reported s m (some (code, m', w)) e =
      let same : (code, m') ≡ (msg_received, m) = some_inj e in
      (w, ap (λ (q : SocketCode × Message). after_response c p locale s (some (q.0, q.1, w))) same)

  -- What a message of another kind than `REQUEST_GET_RECORD` with the status `ROUTER_OK` does.
  handles_put :
      (s : Poll S) (w : World)
      → status s.res ≡ router_ok
      → kind s.res ≡ request_put_address
      → handle_response c p locale s w ≡ some (handle_put_address c p locale s w)
  unfolding handle_response
  handles_put s w ok k = rw (ok, k) refl

  -- A slave that answers a poll is registered, if its answer comes in its frame and in time: the poll
  -- returns, and the table contains the nonzero address that the answer of the kind `PUT_ADDRESS` and
  -- the status `ROUTER_OK` has, if the table was well-formed and had a free slot.
  pub poll_records-registers :
      (k fuel : ℕ) (s : Poll S) (w : World) (m : Message)
      → k ≤ fuel
      → IsValid s.manager
      → s.manager.free_addresses ≢ 0
      → Comes k c.socket 1000 w m
      → status m ≡ router_ok
      → kind m ≡ request_put_address
      → addr m ≢ 0
      → (s' : Poll S) × (w' : World) × (poll_records c p locale fuel s w ≡ some (s', w'))
        × (contains s'.manager (addr m) ≡ true)
  poll_records-registers k fuel s w m l v free h ok put nz =
      let (t, e) = polls fuel s w v in
      let s1 : Poll S = record s { req = asked s } in
      let got =
        process-frame k fuel c.socket 1000 (record w { trace = t }) m l
          (Comes-trace k c.socket 1000 w m t h) in
      let (w1, e1) = reported s1 m (process fuel c.socket 1000 (record w { trace = t })) got in
      let s2 : Poll S = record s1 { res = m } in
      let r = handle_put_address c p locale s2 w1 in
      let registered = handle_put_address-registers c p locale s2 w1 v free nz in
      (r.0, r.1, e ∙ e1 ∙ handles_put s2 w1 ok put, registered.0)

  -- An answer with records of a slave that the table contains, when the persistence can be opened.
  handles_get :
      (s : Poll S) (w : World) (d : List ℕ)
      → status s.res ≡ router_ok
      → kind s.res ≡ request_get_record
      → contains s.manager (addr s.res) ≡ true
      → (p.begin_transaction write_transaction s.store).0 ≡ true
      → get_date_time locale s.datetime ≡ some d
      → (s' : Poll S) × (w' : World) × (handle_response c p locale s w ≡ some (s', w'))
        × (s'.store ≡ (store_one p (record_of s.req, d, 13) (s.store, delay_us 100 w)).0)
  unfolding handle_response handle_get_record store_one send_ack
  handles_get s w d ok k known opened date =
      let st = (p.begin_transaction write_transaction s.store).1 in
      let (st', w') = p.write_record (record_of s.req) d 13 st (delay_us 100 w) in
      let (s2, w2) =
        send_ack c p locale (record s { store = p.commit_transaction st'; datetime = d })
          (delay_us 100 w') in
      (s2, w2, rw (ok, k, known, opened, date) refl, rw opened refl)

  -- A slave's answer with its records, which comes in its frame and in time, makes the master store one entry,
  -- if the slave is in the well-formed table, the persistence can be opened and the date fits its
  -- buffer: the poll returns, and the store is the one after begin, write and commit of the entry with
  -- the date that was made, and with the record that is not in the answer, but the four bytes from
  -- `msg` on of the master's own last request.
  pub poll_records-stores :
      (k fuel : ℕ) (s : Poll S) (w : World) (m : Message) (d : List ℕ)
      → k ≤ fuel
      → IsValid s.manager
      → Comes k c.socket 1000 w m
      → status m ≡ router_ok
      → kind m ≡ request_get_record
      → contains s.manager (addr m) ≡ true
      → (p.begin_transaction write_transaction s.store).0 ≡ true
      → get_date_time locale s.datetime ≡ some d
      → (s' : Poll S) × (w' : World) × (poll_records c p locale fuel s w ≡ some (s', w'))
        × ((w1 : World) × (s'.store ≡ (store_one p (record_of (asked s), d, 13) (s.store, w1)).0))
  poll_records-stores k fuel s w m d l v h ok get known opened date =
      let (t, e) = polls fuel s w v in
      let s1 : Poll S = record s { req = asked s } in
      let got =
        process-frame k fuel c.socket 1000 (record w { trace = t }) m l
          (Comes-trace k c.socket 1000 w m t h) in
      let (w1, e1) = reported s1 m (process fuel c.socket 1000 (record w { trace = t })) got in
      let (s', w', e2, stored) =
        handles_get (record s1 { res = m }) w1 d ok get known opened date in
      (s', w', e ∙ e1 ∙ e2, (delay_us 100 w1, stored))

  ignored :
      (s s' : Poll S) (w' : World) (o : Option (SocketCode × Message × World))
      → ((code : SocketCode) (m : Message) (w : World)
          → o ≡ some (code, m, w)
          → code ≢ msg_received)
      → after_response c p locale s o ≡ some (s', w')
      → (s'.manager ≡ s.manager) × (s'.store ≡ s.store)
  unfolding after_response
  ignored s s' w' none h e = cc
  ignored s s' w' (some (msg_received, m, w)) h e = absurd (h msg_received m w refl refl)
  ignored s s' w' (some (msg_timeout, m, w)) h e =
      let same = some_inj e in (ap (λ r. r.0.manager) (sym same), ap (λ r. r.0.store) (sym same))
  ignored s s' w' (some (msg_no_format, m, w)) h e =
      let same = some_inj e in (ap (λ r. r.0.manager) (sym same), ap (λ r. r.0.store) (sym same))
  ignored s s' w' (some (msg_out_of_bound, m, w)) h e =
      let same = some_inj e in (ap (λ r. r.0.manager) (sym same), ap (λ r. r.0.store) (sym same))

  -- A slave that answers a poll without a frame is not heard: if at most 20 bytes come, as from one call of
  -- the program's own `send`, or no byte that comes is the header, and the reading of the clock behind
  -- the first one after the timeout comes after it, too, then a poll that returns leaves a well-formed
  -- table of addresses and the persistence as they were.
  pub poll_records-unheard :
      (fuel : ℕ) (s s' : Poll S) (w w' : World)
      → IsValid s.manager
      → Unframed c.socket.port w
      → StaysOver
          (listen_of c.socket request_header msg_footer msg_size 1000 (millis w).0)
          (millis w).1
      → poll_records c p locale fuel s w ≡ some (s', w')
      → (s'.manager ≡ s.manager) × (s'.store ≡ s.store)
  poll_records-unheard fuel s s' w w' v few over e =
      let (t, e1) = polls fuel s w v in
      let w1 : World = record w { trace = t } in
      let listening = listen_of c.socket request_header msg_footer msg_size 1000 (millis w).0 in
      ignored (record s { req = asked s }) s' w' (process fuel c.socket 1000 w1)
        (λ code m w2 e2.
          process-Unframed fuel c.socket 1000 w1 w2 code m (Unframed-trace c.socket.port w t few)
            (StaysOver-trace listening (millis w).1 t over) e2)
        (sym e1 ∙ e)
