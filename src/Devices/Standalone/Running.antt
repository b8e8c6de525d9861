-- ===== src/Devices/Standalone/Running.antt =====
-- What holds of a standalone device however long it runs, and wherever the interrupts come.
use dread.Base.{◌++◌, ℕ, ◌≡◌, refl, Bool, some, List, ap, sym, subst, ◌∙◌, u16, ◌+◌}
use dread.Hardware.{World, pin_mode, write}
use dread.Hardware.Monad.{bind_run, pure}
use dread.Hardware.Returns.{
  Ends-anything, Returns, Returns-then, Returns-of, Returns-value, Ends, Ends-then,
}
use dread.Hid.{Hid}
use dread.Hid
use dread.Locale.{Locale}
use dread.Fsm.{Machine, State, Transition}
use dread.Connection.{new_handler, handle_connection_status}
use dread.Connection.Queue.{handle_connection_status-new}
use dread.Modem.{begin, is_connected}
use dread.Persistence.File.{FileStore, new_store, file_persistence}
use dread.Persistence.File.Library.{SdLibrary}
use dread.CardReader.{read_and_store}
use dread.CardReader.Storing.{read_and_store-keeps}
use dread.DreadClient.{upload_from_persistence}
use dread.Scheduler.{Scheduler, subscribe, call_subscriptions}
use dread.Scheduler
use dread.Scheduler.Chain.{Chain}
use dread.Devices.{
  modem, soft_serial, sc_ss, mfr_ss, gsm_rst, gsm_npwd, hid_buzz, hid_rld, hid_bld, mfr_key,
  upload_prefix, subscriptions, lift, config_hid, config_sd,
}
use dread.Devices.Timer.{IsTimed, calls_at, ticked-IsTimed, call_subscriptions-IsTimed}
use dread.Devices.Standalone.{
  Standalone, setup, config_timer, setup, Place, at_card, at_status, at_modem, at_upload,
  constructed, reading, rfid, answer, interrupt, carded, handled, step,
}
use dread.Devices.Standalone.Naming.{named-Stores}

module _ {F H : Type 0} (sd : SdLibrary F H) (locale : Locale)
    (run_guard : ℕ → Machine → State → Bool) (run_action : ℕ → Machine → Machine) where
  -- The states between the calls of `loop`, from the construction of the objects and the two
  -- subscriptions on: a call is made, or an interrupt comes.
  pub data Runs (store : FileStore F H) : Place → Standalone F H → World → Type 0 where
    started :
        (scheduler : Scheduler) (leds : Hid) (w w1 w2 : World)
        → subscriptions w ≡ some (scheduler, w1)
        → Runs store at_card (constructed scheduler store leds) w2
    stepped :
        (fuel garbage : ℕ) (stack : List ℕ) (unset : Transition) (closed : Bool) (a b : Place)
        (s s' : Standalone F H) (w w' : World)
        → Runs store a s w
        → step sd locale run_guard run_action fuel garbage stack unset closed a s w
          ≡ some ((b, s'), w')
        → Runs store b s' w'
    interrupted :
        (a : Place) (s s' : Standalone F H) (w w' : World)
        → Runs store a s w
        → interrupt s w ≡ some (s', w')
        → Runs store a s' w'

  -- What the set-up returns is a state from which the device runs.
  pub setup-Runs :
      (fuel : ℕ) (card : F) (file : H) (memory : List ℕ) (w : World)
      → Ends (λ s w'. Runs s.persistence at_card s w') (setup sd fuel card file memory w)
  unfolding setup Ends subscriptions subscribe Scheduler.new Scheduler.append_from
  setup-Runs fuel card file memory w =
      let (leds, w1) = Hid.new hid_buzz hid_rld hid_bld w in
      let (store, leds1) = new_store card file (upload_prefix ++ memory) leds in
      let w2 = pin_mode sc_ss 1 (config_timer (begin modem.sim900 gsm_rst gsm_npwd w1)) in
      Ends-then (λ c w3. Unit {0}) (λ s w'. Runs s.persistence at_card s w')
        (config_sd sd (write soft_serial b'.') fuel mfr_ss store.card (config_hid leds1) w2) _
        (Ends-anything _) λ c w3 u. Runs.started _ c.1 w w _ refl

  record Fine (name : List ℕ) (s : Standalone F H) : Type 0 where
    named : s.persistence.file_name ≡ name
    handler_new : s.handler ≡ new_handler
    timed : IsTimed s.scheduler

  carded-Fine :
      (name : List ℕ) (garbage : ℕ) (stack : List ℕ) (s : Standalone F H) (w : World)
      → Fine name s
      → Returns (Fine name) (carded sd locale run_guard run_action garbage stack s w)
  unfolding Returns
  carded-Fine name garbage stack s w h =
      let p = file_persistence sd soft_serial in
      let read = read_and_store rfid p locale soft_serial garbage stack mfr_key (reading s) w in
      Returns-then (λ r. r.store.file_name ≡ name) (Fine name) read _
        (Returns-of (λ r. r.store.file_name ≡ name) read
          λ r w1 e.
            read_and_store-keeps rfid p locale soft_serial (λ t. t.file_name ≡ name)
              (named-Stores sd soft_serial name) garbage stack mfr_key (reading s) r w w1 e h.named)
        λ r w1 e. record { named = e; handler_new = h.handler_new; timed = h.timed }

  handled-Fine :
      (name : List ℕ) (unset : Transition) (s : Standalone F H) (w : World)
      → Fine name s
      → Returns (Fine name) (handled sd locale run_guard run_action unset s w)
  unfolding Returns
  handled-Fine name unset s w h =
      let e =
        ap (handle_connection_status run_guard run_action unset) h.handler_new
        ∙ handle_connection_status-new run_guard run_action unset in
      subst (λ o. Returns (Fine name) (bind_run (lift o w) λ c. pure (record s { handler = c })))
        (sym e) (record { named = h.named; handler_new = refl; timed = h.timed })

  step-Fine :
      (name : List ℕ) (fuel garbage : ℕ) (stack : List ℕ) (unset : Transition) (closed : Bool)
      (a : Place) (s : Standalone F H) (w : World)
      → Fine name s
      → Returns
          (λ r. Fine name r.1)
          (step sd locale run_guard run_action fuel garbage stack unset closed a s w)
  unfolding step Returns upload_from_persistence is_connected
  step-Fine name fuel garbage stack unset closed at_card s w h =
      Returns-then (Fine name) (λ r. Fine name r.1)
        (carded sd locale run_guard run_action garbage stack s w) _
        (carded-Fine name garbage stack s w h) λ s1 w1 f. f
  step-Fine name fuel garbage stack unset closed at_status s w h =
      Returns-then (Fine name) (λ r. Fine name r.1)
        (handled sd locale run_guard run_action unset s w) _ (handled-Fine name unset s w h)
        λ s1 w1 f. f
  step-Fine name fuel garbage stack unset closed at_modem s w h = h
  step-Fine name fuel garbage stack unset closed at_upload s w h = record {
    named = h.named;
    handler_new = h.handler_new;
    timed = h.timed;
  }

  interrupt-Fine :
      (name : List ℕ) (s : Standalone F H) (w : World)
      → Fine name s
      → Returns (Fine name) (interrupt s w)
  unfolding interrupt Returns
  interrupt-Fine name s w h =
      subst (λ c. Returns (Fine name) (answer s c w))
        (sym (call_subscriptions-IsTimed s.scheduler h.timed))
        (record {
          named = h.named;
          handler_new = h.handler_new;
          timed =
              subst (λ c. IsTimed c.1) (call_subscriptions-IsTimed s.scheduler h.timed)
                (ticked-IsTimed s.scheduler h.timed);
        })

  subscriptions-IsTimed : (w : World) → Returns IsTimed (subscriptions w)
  unfolding subscriptions subscribe Returns Scheduler.new Scheduler.append_from Chain
  subscriptions-IsTimed w = record {
    listed = (refl, (refl, refl));
    hid_function = refl;
    hid_timeout = refl;
    client_function = refl;
    client_timeout = refl;
  }

  -- In every state of a standalone device, between any two calls of `loop` and after any interrupts, the
  -- record file has the name that the device was started with, the connection handler is as it was
  -- constructed, and the next interrupt succeeds and calls what the tick after the present one calls for.
  pub Runs-lem :
      (store : FileStore F H) (a : Place) (s : Standalone F H) (w : World)
      → Runs store a s w
      → (s.persistence.file_name ≡ store.file_name)
        × (s.handler ≡ new_handler)
        × ((call_subscriptions 2 s.scheduler).0 ≡ some (calls_at (u16 (s.scheduler.tick + 1))))
  unfolding constructed
  Runs-lem store a s w r =
      let h = all a s w r in
      (h.named, h.handler_new, ap (λ c. c.0) (call_subscriptions-IsTimed s.scheduler h.timed))
    where
      all : (a : Place) (s : Standalone F H) (w : World) → Runs store a s w → Fine store.file_name s
      all a s w (started scheduler leds w0 w1 w2 e') = record {
        named = refl;
        handler_new = refl;
        timed = Returns-value IsTimed (subscriptions w0) scheduler w1 (subscriptions-IsTimed w0) e';
      }
      all a s w (stepped fuel garbage stack unset closed a0 a1 s0 s1 w0 w1 r e) =
          Returns-value (λ r. Fine store.file_name r.1)
            (step sd locale run_guard run_action fuel garbage stack unset closed a0 s0 w0) (a1, s1)
            w1 (step-Fine store.file_name fuel garbage stack unset closed a0 s0 w0 (all a0 s0 w0 r))
            e
      all a s w (interrupted a0 s0 s1 w0 w1 r e) =
          Returns-value (Fine store.file_name) (interrupt s0 w0) s1 w1
            (interrupt-Fine store.file_name s0 w0 (all a0 s0 w0 r)) e
