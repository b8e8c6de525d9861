-- ===== src/Devices/Master/Running.antt =====
-- What holds of a master however long it runs.
use dread.Scheduler.{subscribe}
use dread.Hardware.Output.{write_text}
use dread.Base.{List, [], ◌∷◌, ◌++◌, ℕ, ◌≡◌, refl, Bool, false, Option, none, some, sym, subst}
use dread.Hardware.{pin_mode, World}
use dread.Hardware.Monad.{M, bind_run, pure, ◌>>=◌}
use dread.Hardware.Returns.{
  Ends, Ends-then, Ends-anything, Returns, Returns-then, Returns-of, Returns-value,
}
use dread.Hid
use dread.Scheduler
use dread.Hid.{Hid, set_led}
use dread.Locale.{Locale}
use dread.Fsm.{Machine, State, Transition}
use dread.Connection.{new_handler}
use dread.Connection.Queue.{handle_connection_status-new}
use dread.Modem.{begin, is_connected}
use dread.Net.Manager.Validity.{IsValid, new-IsValid}
use dread.Persistence.File.{new_store, FileStore, file_persistence}
use dread.Persistence.File.Library.{SdLibrary}
use dread.Gateway.Client.{Poll, poll_records}
use dread.Gateway.Client.Polling.{poll_records-IsValid}
use dread.DreadClient.{upload_from_persistence}
use dread.Devices.{
  modem, sc_ss, gsm_rst, gsm_npwd, hid_buzz, hid_rld, hid_bld, upload_prefix, subscriptions,
  config_hid, config_sd, soft_serial,
}
use dread.Devices.Master.{
  setup, client_name, Master, constructed, polling, after_poll, client, polled, then_upload, loop,
}

module _ {F H : Type 0} (sd : SdLibrary F H) (locale : Locale) (before : ℕ)
    (run_guard : ℕ → Machine → State → Bool) (run_action : ℕ → Machine → Machine) where
  -- What the loop of a master comes to.
  abbrev pub idle : Master F H → M (Master F H)
  idle s = pure (record s { send_packet = false; leds = set_led 0 s.leds })

  then_upload-idle :
      (fuel : ℕ) (garbage : Transition) (closed : Bool) (s : Master F H) (w : World)
      → s.handler ≡ new_handler
      → then_upload sd locale before run_guard run_action fuel garbage closed s w ≡ idle s w
  unfolding then_upload upload_from_persistence is_connected
  then_upload-idle fuel garbage closed s w h =
      rw (h, handle_connection_status-new run_guard run_action garbage) refl

  -- With the handler as it was constructed, the loop is the poll of the slaves and nothing else: no signal
  -- is handled, nothing is uploaded, the flag is cleared and the leds are turned off, whatever the flag
  -- was. In particular the loop returns whenever the poll does.
  pub loop-polls :
      (fuel : ℕ) (garbage : Transition) (closed : Bool) (s : Master F H) (w : World)
      → s.handler ≡ new_handler
      → loop sd locale before run_guard run_action fuel garbage closed s w
        ≡ (polled sd locale before run_guard run_action fuel s >>= idle) w
  unfolding loop
  loop-polls fuel garbage closed s w h =
      after
        (poll_records (client before) (file_persistence sd soft_serial) locale fuel (polling s) w)
    where
      after :
          (o : Option (Poll (FileStore F H) × World))
          → bind_run
              (bind_run o λ r. pure (after_poll s r))
              (then_upload sd locale before run_guard run_action fuel garbage closed)
            ≡ bind_run (bind_run o λ r. pure (after_poll s r)) idle
      after none = refl
      after (some (r, w1)) = then_upload-idle fuel garbage closed (after_poll s r) w1 h

  -- The states between two calls of `loop`, from the construction of the objects on.
  pub data Runs (store : FileStore F H) : Master F H → World → Type 0 where
    started : (leds : Hid) (w : World) → Runs store (constructed store leds) w
    looped :
        (fuel : ℕ) (garbage : Transition) (closed : Bool) (s s' : Master F H) (w w' : World)
        → Runs store s w
        → loop sd locale before run_guard run_action fuel garbage closed s w ≡ some (s', w')
        → Runs store s' w'

  -- What the set-up returns is a state from which the device runs.
  pub setup-Runs :
      (fuel : ℕ) (card : F) (file : H) (memory : List ℕ) (w : World)
      → Ends (λ r w'. Runs r.1.persistence r.1 w') (setup sd fuel card file memory w)
  unfolding setup Ends subscriptions subscribe Scheduler.new Scheduler.append_from
  setup-Runs fuel card file memory w =
      let (leds, w1) = Hid.new hid_buzz hid_rld hid_bld w in
      let (store, leds1) = new_store card file (upload_prefix ++ memory) leds in
      let w2 =
        pin_mode sc_ss 1
          (write_text soft_serial client_name (begin modem.sim900 gsm_rst gsm_npwd w1)) in
      Ends-then (λ c w3. Unit {0}) (λ r w'. Runs r.1.persistence r.1 w')
        (config_sd sd (write_text soft_serial (b'.' ∷ 0 ∷ [])) fuel sc_ss store.card
          (config_hid leds1) w2)
        _ (Ends-anything _) λ c w3 u. Runs.started _ _

  Fine : Master F H → Type 0
  Fine s = IsValid s.manager × (s.handler ≡ new_handler) × (s.send_packet ≡ false)

  loop-Fine :
      (fuel : ℕ) (garbage : Transition) (closed : Bool) (s : Master F H) (w : World)
      → Fine s
      → Returns Fine (loop sd locale before run_guard run_action fuel garbage closed s w)
  unfolding Fine Returns
  loop-Fine fuel garbage closed s w (v, h, _) =
      let poll =
        poll_records (client before) (file_persistence sd soft_serial) locale fuel (polling s) w in
      subst (Returns Fine) (sym (loop-polls fuel garbage closed s w h)) (
        Returns-then (λ s1. IsValid s1.manager × (s1.handler ≡ new_handler)) Fine
          (bind_run poll λ r. pure (after_poll s r)) idle
          (Returns-then (λ r. IsValid r.manager)
            (λ s1. IsValid s1.manager × (s1.handler ≡ new_handler)) poll _
            (Returns-of (λ r. IsValid r.manager) poll
              λ r w1 e.
                poll_records-IsValid (client before) (file_persistence sd soft_serial) locale fuel
                  (polling s) r w w1 v e)
            λ r w1 v1. (v1, h))
          λ s1 w1 k. (k.0, k.1, refl))

  -- In every state of a master the table of addresses is well-formed, the queue and the machine of the
  -- connection handler are as they were constructed, and no upload is asked for.
  pub Runs-Fine :
      (store : FileStore F H) (s : Master F H) (w : World)
      → Runs store s w
      → IsValid s.manager × (s.handler ≡ new_handler) × (s.send_packet ≡ false)
  unfolding constructed Fine
  Runs-Fine store s w (started leds w1) = (new-IsValid, refl, refl)
  Runs-Fine store s w (looped fuel garbage closed s0 s1 w0 w1 r e) =
      Returns-value Fine _ s1 w1 (loop-Fine fuel garbage closed s0 w0 (Runs-Fine store s0 w0 r)) e
