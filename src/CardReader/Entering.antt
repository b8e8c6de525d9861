-- ===== src/CardReader/Entering.antt =====
-- A look for a card as a client of the persistence: what is stored, and when.
pub mod Commands
mod Tests
use dread.Base.{
  [], ℕ, ◌≡◌, ◌⊎◌, inl, inr, refl, sym, ap, subst, Bool-cases, Bool, true, false, Option, none,
  some, List, ◌!=◌, ◌&&◌, if◌then◌else◌, some_inj, !=_true, arith,
}
use dread.Hardware.{World, Port, delay}
use dread.Hid.{beep}
use dread.Locale.{Locale, get_date_time}
use dread.Mifare.{
  MifareLite, Outcome, request, anticoll, select_tag, auth, read_block, halt, mi_err, picc_req_idl,
  picc_authent1b,
}
use dread.Persistence.Interface.{Persistence, store_one, write_transaction}
use dread.CardReader.{
  Reading, Progress, same_bytes, on_outcome, record_of, dated, store_record, read_card, auth_card,
  select_card, identify, announce, announced, read_and_store,
}
use dread.CardReader.Progress.{
  same_bytes-≡, same_bytes_refl, and_right, After, After-either, After-map,
}
use dread.CardReader.Storing.{Told, Told-announced}
use dread.CardReader.Succeeding.{
  Answers, NoError, Halts, Reads, Trusts, IsSelected, IsKnown, IsIdentified, Cooperates,
}
use dread.CardReader.Entering.Commands.{
  Answers-inv, Entered, Follows, Follows-map, Leads, command-Leads, no_error, an_error,
  store_record-Leads,
}

module _ (m : MifareLite) {S : Type 0} (p : Persistence S) (locale : Locale) (logger : Port) where
  module _ (garbage : ℕ) (stack key : List ℕ) where
    read_card-Leads :
        (s : Reading S) (w : World)
        → Leads m p locale logger
            (λ block. Reads m garbage stack key s.last_serial s.leds block s.buffer w)
            s.store
            (read_card m p locale logger garbage stack s w)
    unfolding read_card
    read_card-Leads s w =
        command-Leads m p locale logger s.store NoError
          (λ block. Halts m garbage stack key s.last_serial s.leds block) (λ n b. n != mi_err)
          (λ n b. no_error m p locale logger n) (λ n b. an_error m p locale logger n)
          (λ b w1.
            on_outcome (halt m stack garbage w1)
              λ _ _ w2. store_record m p locale logger (record s { buffer = b }) w2)
          (λ n. false) (λ b. record s { buffer = b }) (λ b. refl)
          (λ b w1.
            command-Leads m p locale logger s.store (λ n h. Unit {0}) (λ block h w2. b ≡ block)
              (λ n h. true) (λ n h e. tt) (λ n h e. cc)
              (λ h w2. store_record m p locale logger (record s { buffer = b }) w2) (λ n. false)
              (λ h. s) (λ h. refl)
              (λ h w2. store_record-Leads m p locale logger (record s { buffer = b }) w2)
              (halt m stack garbage w1))
          (read_block m 0x04 s.buffer garbage w)

    auth_card-Leads :
        (s : Reading S) (w : World)
        → Leads m p locale logger
            (λ block. Trusts m garbage stack key s.last_serial s.leds block s.serial s.buffer w)
            s.store
            (auth_card m p locale logger garbage stack key s w)
    unfolding auth_card
    auth_card-Leads s w =
        command-Leads m p locale logger s.store NoError
          (λ block. Reads m garbage stack key s.last_serial s.leds block) (λ n b. n != mi_err)
          (λ n b. no_error m p locale logger n) (λ n b. an_error m p locale logger n)
          (λ b w1. read_card m p locale logger garbage stack (record s { buffer = b }) w1)
          (λ n. false) (λ b. record s { buffer = b }) (λ b. refl)
          (λ b w1. read_card-Leads (record s { buffer = b }) w1)
          (auth m picc_authent1b 0x04 key s.buffer s.serial garbage w)

    select_card-Leads :
        (s : Reading S) (w : World)
        → Leads m p locale logger
            (λ block. IsSelected m garbage stack key s.last_serial s.leds block s.buffer s.serial w)
            s.store
            (select_card m p locale logger garbage stack key s w)
    unfolding select_card
    select_card-Leads s w =
        command-Leads m p locale logger s.store NoError
          (λ block b w1.
            Trusts m garbage stack key s.last_serial s.leds block s.serial b (beep s.leds w1))
          (λ n b. n != mi_err) (λ n b. no_error m p locale logger n)
          (λ n b. an_error m p locale logger n)
          (λ b w1.
            auth_card m p locale logger garbage stack key (record s { buffer = b })
              (beep s.leds w1))
          (λ n. false) (λ b. record s { buffer = b }) (λ b. refl)
          (λ b w1. auth_card-Leads (record s { buffer = b }) (beep s.leds w1))
          (select_tag m s.buffer s.serial garbage w)

    identify-Leads :
        (s : Reading S) (w : World)
        → Leads m p locale logger
            (λ block.
              IsIdentified m garbage stack key s.last_serial s.leds block s.serial s.buffer w)
            s.store
            (identify m p locale logger garbage stack key s w)
    unfolding identify
    identify-Leads s w =
        command-Leads m p locale logger s.store (IsKnown s.last_serial)
          (λ block serial w1.
            IsSelected m garbage stack key s.last_serial s.leds block s.buffer serial w1)
          (λ n serial. (n != mi_err) && same_bytes serial s.last_serial) known unknown
          (λ serial w1.
            select_card m p locale logger garbage stack key (record s { serial = serial }) w1)
          (λ n. n != mi_err) (λ serial. record s { serial = serial }) (λ serial. refl)
          (λ serial w1. select_card-Leads (record s { serial = serial }) w1)
          (anticoll m s.serial garbage w)
      where
        known :
            (n : ℕ) (serial : List ℕ)
            → ((n != mi_err) && same_bytes serial s.last_serial) ≡ true
            → (NoError n serial) × (serial ≡ s.last_serial)
        known n serial e = elim (Bool-cases (n != mi_err)) [
          | inl ok ↦ (
            no_error m p locale logger n ok,
            same_bytes-≡ serial s.last_serial (and_right (n != mi_err) _ e),
          )
          | inr no_ ↦ cc (rw no_ at e)
        ]

        unknown :
            (n : ℕ) (serial : List ℕ)
            → ((n != mi_err) && same_bytes serial s.last_serial) ≡ false
            → (NoError n serial) × (serial ≡ s.last_serial)
            → ⊥
        unknown n serial e (ok, same) =
            let again : same_bytes serial s.last_serial ≡ true =
              subst (λ l. same_bytes serial l ≡ true) same (same_bytes_refl serial) in
            cc (rw (!=_true ok, again) at e)

    requested-Leads :
        (s : Reading S) (o : Outcome)
        → let IsRead : List ℕ → Type 0 = λ block.
          Answers o NoError
            (IsIdentified m garbage stack key s.last_serial s.leds block s.serial) in
          Told m p locale logger
            (λ s'. Follows m p locale logger IsRead s.store s'.store)
            (on_outcome o λ status buffer w1.
              let s1 = record s { buffer = buffer } in
              let card =
                announced m p locale logger (identify m p locale logger garbage stack key s1 w1) in
              if status != mi_err then card else some (s1, delay 500 w1))
    unfolding Told announce Follows
    requested-Leads s (n, none, w) = tt
    requested-Leads s (n, some b, w) = elim (Bool-cases (n != mi_err)) [
      | inl on ↦ rw on (
          Told-announced m p locale logger Q Q (identify m p locale logger garbage stack key s1 w)
            told
            (After-map (λ s'. Follows m p locale logger Now s.store s'.store) Q
              (identify m p locale logger garbage stack key s1 w)
              (λ s' f.
                Follows-map m p locale logger Now IsRead s.store s'.store
                  (λ block y. record {
                    status = n;
                    buffer = b;
                    world = w;
                    outcome = refl;
                    ok = no_error m p locale logger n on;
                    further = y;
                  })
                  (λ block y. (Answers-inv n b w y).1) f)
              (identify-Leads s1 w)))
      | inr off ↦
          rw off (inr ((λ block y. an_error m p locale logger n off (Answers-inv n b w y).0), refl))
    ]
      where
        s1 : Reading S
        s1 = record s { buffer = b }

        Now : List ℕ → Type 0
        Now block = IsIdentified m garbage stack key s.last_serial s.leds block s.serial b w

        IsRead : List ℕ → Type 0
        IsRead block =
            Answers (n, some b, w) NoError
              (IsIdentified m garbage stack key s.last_serial s.leds block s.serial)

        Q : Reading S → Type 0
        Q s' = Follows m p locale logger IsRead s.store s'.store

        told :
            (result : Bool) (s2 : Reading S) (w2 : World)
            → Q s2
            → Q (announce m p locale logger (result, s2, w2)).0
        told true s2 w2 q = q
        told false s2 w2 q = q

    -- What a call stores is exactly the block of a card that cooperates: whatever the card answers, if no
    -- answer is longer than its buffer and the date fits, so that the call returns, and whatever the
    -- persistence does, the call has stored one entry by the protocol of the
    -- persistence, begin, and only if that succeeds, write and commit, whose record is the first
    -- four bytes of the block that was read after every command was answered without an error and
    -- the serial number was the last one, and whose date is the 13 bytes that `getDateTime` makes in
    -- the buffer of the block; or there is no such block, and the store is as it was.
    pub read_and_store-Follows :
        (s s' : Reading S) (w w' : World)
        → read_and_store m p locale logger garbage stack key s w ≡ some (s', w')
        → Follows m p locale logger (Cooperates m garbage stack key s w) s.store s'.store
    unfolding read_and_store Told announce
    read_and_store-Follows s s' w w' e =
        subst
          (Told m p locale logger
            (λ s'. Follows m p locale logger (Cooperates m garbage stack key s w) s.store s'.store))
          e (requested-Leads s (request m picc_req_idl s.buffer garbage w))
