-- ===== src/CardReader/Succeeding.antt =====
-- A card that answers every command, and what a call of the card reader makes of it.
pub mod Card
use dread.Base.{
  ℕ, ◌≡◌, ◌≢◌, refl, sym, ap, subst, ◌∙◌, Bool, true, false, Option, none, some, List, [], ◌∷◌,
  ◌==◌, ◌!=◌, ◌&&◌, if◌then◌else◌, ==_true, !=_true,
}
use dread.Hardware.{World, Port}
use dread.Hid.{Hid, beep}
use dread.Locale.{Locale, get_date_time}
use dread.Mifare.{
  MifareLite, Outcome, request, anticoll, select_tag, auth, read_block, halt, mi_err, picc_req_idl,
  picc_authent1b,
}
use dread.Persistence.Interface.{Persistence, store_one, write_transaction}
use dread.CardReader.Progress.{same_bytes_refl}
use dread.CardReader.{
  Reading, Progress, same_bytes, on_outcome, record_of, dated, store_record, read_card, auth_card,
  select_card, identify, announce, announced, read_and_store,
}

-- A command ends inside of its buffer, with a status and a buffer that are accepted, and what follows.
pub record Answers (o : Outcome) (Ok : ℕ → List ℕ → Type 0) (Next : List ℕ → World → Type 0)
    : Type 0 where
  pub status : ℕ
  pub buffer : List ℕ
  pub world : World
  pub outcome : o ≡ (status, some buffer, world)
  pub ok : Ok status buffer
  pub further : Next buffer world

abbrev pub NoError : ℕ → List ℕ → Type 0
NoError status b = status ≢ mi_err

-- The card's serial number is the last one.
abbrev pub IsKnown : List ℕ → ℕ → List ℕ → Type 0
IsKnown last status serial = (status ≢ mi_err) × (serial ≡ last)

module _ (m : MifareLite) (garbage : ℕ) (stack key last : List ℕ) (leds : Hid)
    (block : List ℕ) where
  -- The card is halted after the block was read.
  abbrev pub Halts : List ℕ → World → Type 0
  Halts b w = Answers (halt m stack garbage w) (λ status h. Unit {0}) λ h w1. b ≡ block

  abbrev pub Reads : List ℕ → World → Type 0
  Reads b w = Answers (read_block m 0x04 b garbage w) NoError Halts

  abbrev pub Trusts : List ℕ → List ℕ → World → Type 0
  Trusts serial b w = Answers (auth m picc_authent1b 0x04 key b serial garbage w) NoError Reads

  abbrev pub IsSelected : List ℕ → List ℕ → World → Type 0
  IsSelected b serial w =
      Answers (select_tag m b serial garbage w) NoError λ b1 w1. Trusts serial b1 (beep leds w1)

  abbrev pub IsIdentified : List ℕ → List ℕ → World → Type 0
  IsIdentified serial b w = Answers (anticoll m serial garbage w) (IsKnown last) (IsSelected b)

-- A card answers every command without an error, its serial number is the one that was read last, and this
-- is the block that is read from it.
abbrev pub Cooperates :
    MifareLite → ℕ → List ℕ → List ℕ → {S : Type 0} → Reading S → World → List ℕ → Type 0
Cooperates m garbage stack key s w block =
    Answers (request m picc_req_idl s.buffer garbage w) NoError
      (IsIdentified m garbage stack key s.last_serial s.leds block s.serial)

module _ (m : MifareLite) {S : Type 0} (p : Persistence S) (locale : Locale) (logger : Port) where
  store_record-stores :
      (s : Reading S) (w : World) (d : List ℕ)
      → (p.begin_transaction write_transaction s.store).0 ≡ true
      → get_date_time locale s.buffer ≡ some d
      → (w' : World) × (store_record m p locale logger s w
          ≡ some (
            true,
            record s {
              buffer = d;
              store = (store_one p (record_of s.buffer, d, 13) (s.store, w)).0;
            },
            w',
          ))
  unfolding store_record store_one
  store_record-stores s w d opened date =
      let st = (p.begin_transaction write_transaction s.store).1 in
      ((p.write_record (record_of s.buffer) d 13 st w).1, rw (opened, date) refl)

  module _ (garbage : ℕ) (stack key : List ℕ) (s : Reading S) (w : World) (block : List ℕ)
      (x : Cooperates m garbage stack key s w block) where
    abbrev known :
        IsIdentified m garbage stack key s.last_serial s.leds block s.serial x.buffer x.world
    known = x.further

    abbrev at_block : Reading S
    at_block = record s { serial = known.buffer; buffer = known.further.further.further.buffer }

    abbrev asleep : World
    asleep = known.further.further.further.further.world

    -- From the second command on, the commands lead to the writing of the record.
    identify-done :
        identify m p locale logger garbage stack key (record s { buffer = x.buffer }) x.world
        ≡ store_record m p locale logger at_block asleep
    unfolding identify select_card auth_card read_card
    identify-done =
        let same : same_bytes known.buffer s.last_serial ≡ true =
          subst (λ l. same_bytes known.buffer l ≡ true) known.ok.1 (same_bytes_refl known.buffer) in
        rw
          (
            known.outcome,
            !=_true known.ok.0,
            same,
            known.further.outcome,
            !=_true known.further.ok,
            known.further.further.outcome,
            !=_true known.further.further.ok,
            known.further.further.further.outcome,
            !=_true known.further.further.further.ok,
            known.further.further.further.further.outcome,
          )
          refl

  -- If a card cooperates, the persistence can be opened and the date fits its buffer, the call returns, and
  -- the store is the one after begin, write and commit of the entry of the block.
  pub read_and_store-stores :
      (garbage : ℕ) (stack key : List ℕ) (s : Reading S) (w : World) (block d : List ℕ)
      → Cooperates m garbage stack key s w block
      → (p.begin_transaction write_transaction s.store).0 ≡ true
      → get_date_time locale block ≡ some d
      → (s' : Reading S) × (w' : World) × (read_and_store m p locale logger garbage stack key s w
          ≡ some (s', w'))
        × ((v : World) × (s'.store ≡ (store_one p (record_of block, d, 13) (s.store, v)).0))
  unfolding read_and_store announce
  read_and_store-stores garbage stack key s w block d x opened date =
      let b = at_block garbage stack key s w block x in
      let v = asleep garbage stack key s w block x in
      let here : b.buffer ≡ block = x.further.further.further.further.further.further in
      let (w1, e) = store_record-stores b v d opened (ap (get_date_time locale) here ∙ date) in
      let card = identify-done garbage stack key s w block x ∙ e in
      let done : Bool × Reading S × World = (
        true,
        record b { buffer = d; store = (store_one p (record_of b.buffer, d, 13) (s.store, v)).0 },
        w1,
      ) in
      let (s', w') = announce m p locale logger done in
      (
        s',
        w',
        rw (x.outcome, !=_true x.ok) (ap (announced m p locale logger) card),
        (v, ap (λ l. (store_one p (record_of l, d, 13) (s.store, v)).0) here),
      )
