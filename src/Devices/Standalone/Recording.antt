-- ===== src/Devices/Standalone/Recording.antt =====
-- What a standalone device writes to its record file.
use dread.Base.{
  ℕ, ◌≡◌, ◌⊎◌, inl, inr, refl, sym, subst, Bool, true, false, Option, none, some, List, [], ◌∷◌,
  ◌++◌,
}
use dread.Hardware.{World}
use dread.Hardware.Returns.{Returns, Returns-bind_run, Returns-then, Returns-of, Returns-value}
use dread.Locale.{Locale, get_date_time}
use dread.Fsm.{Machine, State, Transition}
use dread.Connection.{handle_connection_status}
use dread.Modem.{is_connected}
use dread.Persistence.Interface.{Persistence, Entry, write_transaction}
use dread.Persistence.File.{FileStore, file_persistence}
use dread.Persistence.File.Library.{SdLibrary, Appends}
use dread.Persistence.File.Logging.{
  Logs, Logs-refl, Logs-trans, begin_transaction-Logs, store_one-Logs,
}
use dread.CardReader.{read_and_store, record_of}
use dread.CardReader.Entering.{read_and_store-Follows}
use dread.CardReader.Entering.Commands.{Entered, Follows}
use dread.CardReader.Succeeding.{Cooperates}
use dread.DreadClient.{upload_from_persistence}
use dread.Scheduler.{Scheduler, call_subscriptions}
use dread.Devices.{soft_serial, mfr_key, lift}
use dread.Devices.Standalone.{
  Standalone, Place, at_card, at_status, at_modem, at_upload, constructed, reading, rfid, answer,
  interrupt, carded, handled, step,
}
use dread.Devices.Standalone.Running.{Runs}

module _ {F H : Type 0} (sd : SdLibrary F H) (locale : Locale)
    (run_guard : ℕ → Machine → State → Bool) (run_action : ℕ → Machine → Machine) where
  abbrev files : Persistence (FileStore F H)
  files = file_persistence sd soft_serial

  -- What a call of `loop` stores: at the place of the card reader the entry of a card that cooperates, if the
  -- file can be opened and the date fits its buffer, and nothing only where no card cooperates or
  -- the file cannot be opened; at the other places nothing.
  unfoldable pub CallStores : ℕ → List ℕ → Place → Standalone F H → World → List Entry → Type 0
  CallStores garbage stack at_card s w es =
      ((b d : List ℕ) × Cooperates rfid garbage stack mfr_key (reading s) w b
        × ((files.begin_transaction write_transaction s.persistence).0 ≡ true)
        × (get_date_time locale b ≡ some d)
        × (es ≡ (record_of b, d, 13) ∷ []))
      ⊎ (((b : List ℕ)
            → Cooperates rfid garbage stack mfr_key (reading s) w b
            → (files.begin_transaction write_transaction s.persistence).0 ≡ false)
          × (es ≡ []))
  CallStores garbage stack at_status s w es = es ≡ []
  CallStores garbage stack at_modem s w es = es ≡ []
  CallStores garbage stack at_upload s w es = es ≡ []

  -- The entries that are stored in a run, in their order, call by call.
  unfoldable pub RunStores :
      {store : FileStore F H} {a : Place} {s : Standalone F H} {w : World}
      → Runs sd locale run_guard run_action store a s w
      → List Entry
      → Type 0
  RunStores (Runs.started scheduler leds w0 w1 w2 e) es = es ≡ []
  RunStores (Runs.stepped fuel garbage stack unset closed a0 a1 s0 s1 w0 w1 r e) es =
      (before now : List Entry) × RunStores r before
      × CallStores garbage stack a0 s0 w0 now
      × (es ≡ before ++ now)
  RunStores (Runs.interrupted a0 s0 s1 w0 w1 r e) es = RunStores r es

  module _ (laws : Appends sd) where
    abbrev Logged : List Entry → FileStore F H → FileStore F H → Type 0
    Logged = Logs sd soft_serial laws

    -- What a call stores, and that the file has grown by it.
    abbrev Stored : ℕ → List ℕ → Place → Standalone F H → World → FileStore F H → Type 0
    Stored garbage stack a s w st =
        (now : List Entry) × CallStores garbage stack a s w now × Logged now s.persistence st

    Follows-Stored :
        (garbage : ℕ) (stack : List ℕ) (s : Standalone F H) (w : World) (st : FileStore F H)
        → Follows rfid files locale soft_serial
            (Cooperates rfid garbage stack mfr_key (reading s) w)
            s.persistence
            st
        → Stored garbage stack at_card s w st
    unfolding Follows Entered CallStores
    Follows-Stored garbage stack s w st (inl (b, x, inl (no_, e))) = (
      [],
      inr ((λ b' y. no_), refl),
      subst (Logged [] s.persistence) (sym e)
          (begin_transaction-Logs sd soft_serial laws s.persistence),
    )
    Follows-Stored garbage stack s w st (inl (b, x, inr (d, v, ok, date, e))) = (
      (record_of b, d, 13) ∷ [],
      inl (b, d, x, ok, date, refl),
      subst (Logged ((record_of b, d, 13) ∷ []) s.persistence) (sym e)
          (store_one-Logs sd soft_serial laws (record_of b, d, 13) s.persistence v ok),
    )
    Follows-Stored garbage stack s w st (inr (no_, e)) = (
      [],
      inr ((λ b y. absurd (no_ b y)), refl),
      subst (Logged [] s.persistence) (sym e) (Logs-refl sd soft_serial laws s.persistence),
    )

    carded-Stored :
        (garbage : ℕ) (stack : List ℕ) (s : Standalone F H) (w : World)
        → Returns
            (λ s1. Stored garbage stack at_card s w s1.persistence)
            (carded sd locale run_guard run_action garbage stack s w)
    unfolding Returns
    carded-Stored garbage stack s w =
        let read =
          read_and_store rfid files locale soft_serial garbage stack mfr_key (reading s) w in
        let Q : FileStore F H → Type 0 = Stored garbage stack at_card s w in
        Returns-then (λ r. Q r.store) (λ s1. Q s1.persistence) read _
          (Returns-of (λ r. Q r.store) read
            λ r w1 e. Follows-Stored garbage stack s w r.store (
              read_and_store-Follows rfid files locale soft_serial garbage stack mfr_key (reading s)
                r w w1 e))
          λ r w1 k. k

    step-Stored :
        (fuel garbage : ℕ) (stack : List ℕ) (unset : Transition) (closed : Bool) (a : Place)
        (s : Standalone F H) (w : World)
        → Returns
            (λ r. Stored garbage stack a s w r.1.persistence)
            (step sd locale run_guard run_action fuel garbage stack unset closed a s w)
    unfolding step Returns upload_from_persistence is_connected CallStores
    step-Stored fuel garbage stack unset closed at_card s w =
        let Q : Standalone F H → Type 0 = λ s1. Stored garbage stack at_card s w s1.persistence in
        Returns-then Q (λ r. Q r.1) (carded sd locale run_guard run_action garbage stack s w) _
          (carded-Stored garbage stack s w) λ s1 w1 f. f
    step-Stored fuel garbage stack unset closed at_status s w =
        let Q : Standalone F H → Type 0 = λ s1. Stored garbage stack at_status s w s1.persistence in
        Returns-then Q (λ r. Q r.1) (handled sd locale run_guard run_action unset s w) _
          (Returns-bind_run Q
            (lift (handle_connection_status run_guard run_action unset s.handler) w) _
            λ c w1. ([], refl, Logs-refl sd soft_serial laws s.persistence))
          λ s1 w1 f. f
    step-Stored fuel garbage stack unset closed at_modem s w =
        ([], refl, Logs-refl sd soft_serial laws s.persistence)
    step-Stored fuel garbage stack unset closed at_upload s w =
        ([], refl, Logs-refl sd soft_serial laws s.persistence)

    answer-same :
        (s : Standalone F H) (w : World) (r : Option (List ℕ) × Scheduler)
        → Returns (λ s1. s1.persistence ≡ s.persistence) (answer s r w)
    unfolding Returns
    answer-same s w (none, scheduler) = tt
    answer-same s w (some fs, scheduler) = refl

    -- However long a standalone device runs, whatever cards are read, with answers in the bounds of their
    -- buffers, and wherever the interrupts come: the name of the file does not change, and as long as the
    -- SD card takes their bytes before it is full or fails, the entries that were stored are the lines of
    -- the record file behind its first contents, in their order, and the files with another entry in
    -- the directory are as they were. What is stored is, call by call of the card reader, the entry of
    -- the block of a card that cooperates, if the file can be opened.
    pub Runs-Logs :
        (store : FileStore F H) (a : Place) (s : Standalone F H) (w : World)
        (r : Runs sd locale run_guard run_action store a s w)
        → (es : List Entry) × RunStores r es × Logs sd soft_serial laws es store s.persistence
    unfolding constructed interrupt RunStores
    Runs-Logs store a s w (Runs.started scheduler leds w0 w1 w2 e) =
        ([], refl, Logs-refl sd soft_serial laws store)
    Runs-Logs store a s w (Runs.stepped fuel garbage stack unset closed a0 a1 s0 s1 w0 w1 r e) =
        let (before, h, l) = Runs-Logs store a0 s0 w0 r in
        let (now, c, l') =
          Returns-value (λ r. Stored garbage stack a0 s0 w0 r.1.persistence)
            (step sd locale run_guard run_action fuel garbage stack unset closed a0 s0 w0) (a1, s1)
            w1 (step-Stored fuel garbage stack unset closed a0 s0 w0) e in
        (
          before ++ now,
          (before, now, h, c, refl),
          Logs-trans sd soft_serial laws before now store s0.persistence s1.persistence l l',
        )
    Runs-Logs store a s w (Runs.interrupted a0 s0 s1 w0 w1 r e) =
        let (es, h, l) = Runs-Logs store a0 s0 w0 r in
        let same =
          Returns-value (λ s1. s1.persistence ≡ s0.persistence) (interrupt s0 w0) s1 w1
            (answer-same s0 w0 (call_subscriptions 2 s0.scheduler)) e in
        (es, h, subst (Logged es store) (sym same) l)
