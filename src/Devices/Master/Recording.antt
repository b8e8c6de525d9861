-- ===== src/Devices/Master/Recording.antt =====
-- What a master writes to its record file.
use dread.Base.{ℕ, ◌≡◌, ◌⊎◌, inl, inr, refl, sym, subst, Bool, true, some, List, [], ◌∷◌, ◌++◌}
use dread.Hardware.{World}
use dread.Hardware.Returns.{Returns, Returns-then, Returns-of, Returns-value}
use dread.Locale.{Locale, get_date_time}
use dread.Fsm.{Machine, State, Transition}
use dread.Connection.{new_handler}
use dread.Persistence.Interface.{Persistence, Entry, write_transaction}
use dread.Persistence.File.{FileStore, file_persistence}
use dread.Persistence.File.Library.{SdLibrary, Appends}
use dread.Persistence.File.Logging.{
  Logs, Logs-refl, Logs-trans, begin_transaction-Logs, store_one-Logs,
}
use dread.Gateway.Client.{poll_records, record_of}
use dread.Gateway.Client.Entering.{asked, heard, IsAnswered, Follows, poll_records-Follows}
use dread.Devices.{soft_serial}
use dread.Devices.Master.{Master, constructed, polling, client, polled, loop}
use dread.Devices.Master.Running.{Runs, Runs-Fine, idle, loop-polls}

module _ {F H : Type 0} (sd : SdLibrary F H) (locale : Locale) (before : ℕ)
    (run_guard : ℕ → Machine → State → Bool) (run_action : ℕ → Machine → Machine) where
  abbrev files : Persistence (FileStore F H)
  files = file_persistence sd soft_serial

  -- What a call of `loop` stores: nothing, or, if an answer with records was received from a registered slave,
  -- the file can be opened and the date fits its buffer, the entry of the master's own last request.
  unfoldable pub CallStores : ℕ → Master F H → World → List Entry → Type 0
  CallStores fuel s w es =
      (es ≡ [])
      ⊎ ((d : List ℕ) × IsAnswered s.manager (heard (client before) files locale fuel (polling s) w)
          × ((files.begin_transaction write_transaction s.persistence).0 ≡ true)
          × (get_date_time locale (polling s).datetime ≡ some d)
          × (es ≡ (record_of (asked (polling s)), d, 13) ∷ []))

  -- The entries that are stored in a run, in their order, call by call.
  unfoldable pub RunStores :
      {store : FileStore F H} {s : Master F H} {w : World}
      → Runs sd locale before run_guard run_action store s w
      → List Entry
      → Type 0
  RunStores (Runs.started leds w1) es = es ≡ []
  RunStores (Runs.looped fuel garbage closed s0 s1 w0 w1 r e) es =
      (earlier now : List Entry) × RunStores r earlier
      × CallStores fuel s0 w0 now
      × (es ≡ earlier ++ now)

  module _ (laws : Appends sd) where
    abbrev Logged : List Entry → FileStore F H → FileStore F H → Type 0
    Logged = Logs sd soft_serial laws

    -- What a call stores, and that the file has grown by it.
    abbrev Stored : ℕ → Master F H → World → FileStore F H → Type 0
    Stored fuel s w st = (now : List Entry) × CallStores fuel s w now × Logged now s.persistence st

    Follows-Stored :
        (fuel : ℕ) (s : Master F H) (w : World) (st : FileStore F H)
        → Follows
            (client before)
            files
            locale
            (IsAnswered s.manager (heard (client before) files locale fuel (polling s) w))
            (record_of (asked (polling s)))
            (polling s).datetime
            s.persistence
            st
        → Stored fuel s w st
    unfolding Follows CallStores
    Follows-Stored fuel s w st (inl e) = (
      [],
      inl refl,
      subst (Logged [] s.persistence) (sym e) (Logs-refl sd soft_serial laws s.persistence),
    )
    Follows-Stored fuel s w st (inr (a, inl (no_, e))) = (
      [],
      inl refl,
      subst (Logged [] s.persistence) (sym e)
          (begin_transaction-Logs sd soft_serial laws s.persistence),
    )
    Follows-Stored fuel s w st (inr (a, inr (d, v, ok, date, e))) =
        let entry : Entry = (record_of (asked (polling s)), d, 13) in
        (
          entry ∷ [],
          inr (d, a, ok, date, refl),
          subst (Logged (entry ∷ []) s.persistence) (sym e)
              (store_one-Logs sd soft_serial laws entry s.persistence v ok),
        )

    polled-Stored :
        (fuel : ℕ) (s : Master F H) (w : World)
        → Returns
            (λ s1. Stored fuel s w s1.persistence)
            (polled sd locale before run_guard run_action fuel s w)
    unfolding Returns
    polled-Stored fuel s w =
        let poll = poll_records (client before) files locale fuel (polling s) w in
        Returns-then (λ r. Stored fuel s w r.store) (λ s1. Stored fuel s w s1.persistence) poll _
          (Returns-of (λ r. Stored fuel s w r.store) poll
            λ r w1 e.
              Follows-Stored fuel s w r.store
                (poll_records-Follows (client before) files locale fuel (polling s) r w w1 e))
          λ r w1 k. k

    loop-Stored :
        (fuel : ℕ) (garbage : Transition) (closed : Bool) (s : Master F H) (w : World)
        → s.handler ≡ new_handler
        → Returns
            (λ s1. Stored fuel s w s1.persistence)
            (loop sd locale before run_guard run_action fuel garbage closed s w)
    unfolding Returns
    loop-Stored fuel garbage closed s w n =
        let Q : Master F H → Type 0 = λ s1. Stored fuel s w s1.persistence in
        subst (Returns Q)
          (sym (loop-polls sd locale before run_guard run_action fuel garbage closed s w n))
          (Returns-then Q Q (polled sd locale before run_guard run_action fuel s w)
            (idle sd locale before run_guard run_action) (polled-Stored fuel s w) λ s1 w1 k. k)

    -- However long a master runs, and whatever the slaves answer: the name of the file does not change, and
    -- as long as the card takes their bytes before it is full or fails, the entries that were stored
    -- are the lines of the record file behind its first contents, in their order, and the files with
    -- another entry in the directory are as they were. A poll stores at most one entry, only after an
    -- answer with records from a registered slave, and its record is that of the master's own last
    -- request.
    pub Runs-Logged :
        (store : FileStore F H) (s : Master F H) (w : World)
        (r : Runs sd locale before run_guard run_action store s w)
        → (es : List Entry) × RunStores r es × Logs sd soft_serial laws es store s.persistence
    unfolding constructed RunStores
    Runs-Logged store s w (Runs.started leds w1) = ([], refl, Logs-refl sd soft_serial laws store)
    Runs-Logged store s w (Runs.looped fuel garbage closed s0 s1 w0 w1 r e) =
        let (earlier, h, l) = Runs-Logged store s0 w0 r in
        let (now, c, l') =
          Returns-value (λ s1. Stored fuel s0 w0 s1.persistence)
            (loop sd locale before run_guard run_action fuel garbage closed s0 w0) s1 w1
            (loop-Stored fuel garbage closed s0 w0
              (Runs-Fine sd locale before run_guard run_action store s0 w0 r).1)
            e in
        (
          earlier ++ now,
          (earlier, now, h, c, refl),
          Logs-trans sd soft_serial laws earlier now store s0.persistence s1.persistence l l',
        )
