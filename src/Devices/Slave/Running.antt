-- ===== src/Devices/Slave/Running.antt =====
-- What holds of a slave however long it runs.
use dread.Scheduler.{subscribe}
use dread.Base.{ℕ, replicate, true, not, ◌≡◌, refl, some, List, ap, sym, ◌∙◌}
use dread.Hardware.{World}
use dread.Hardware.Returns.{Ends, Returns, Returns-then, Returns-of, Returns-value}
use dread.Hid.{Hid}
use dread.Locale.{Locale}
use dread.Net.Types.{Message}
use dread.Persistence.Stream
use dread.Persistence.Stream.{Stream}
use dread.Persistence.Book.{non_persistence, book, begin_transaction}
use dread.Persistence.Book.Records.{IsBook, book-Stores}
use dread.CardReader.{read_and_store}
use dread.CardReader.Storing.{read_and_store-keeps}
use dread.Gateway.Server.{listen}
use dread.Gateway.Server.Empty.{listen-empty}
use dread.Scheduler
use dread.Devices.{soft_serial, mfr_key}
use dread.Devices.Slave.{
  setup, Slave, reg_limit, constructed, reading, after_reading, listening, server, rfid, loop,
}

module _ (locale : Locale) (before : ℕ) where
  -- The states between two calls of `loop`, from the construction of the objects on.
  pub data Runs : Slave → World → Type 0 where
    started : (leds : Hid) (w : World) → Runs (constructed leds) w
    looped :
        (fuel garbage : ℕ) (stack : List ℕ) (res : Message) (s s' : Slave) (w w' : World)
        → Runs s w
        → loop locale before fuel garbage stack res s w ≡ some (s', w')
        → Runs s' w'

  -- What the set-up returns is a state from which the device runs.
  pub setup-Runs : (w : World) → Ends (λ r w'. Runs r.1 w') (setup w)
  unfolding setup Ends subscribe Scheduler.new
  setup-Runs w = Runs.started _ _

  read-Returns :
      (garbage : ℕ) (stack : List ℕ) (s : Slave) (w : World) (b : Stream)
      → IsBook b s.store
      → Returns
          (λ r. IsBook b r.store)
          (read_and_store rfid book locale soft_serial garbage stack mfr_key (reading s) w)
  read-Returns garbage stack s w b h =
      Returns-of (λ r. IsBook b r.store) _
        λ r w1 e.
          read_and_store-keeps rfid book locale soft_serial (IsBook b) (book-Stores b) garbage stack
            mfr_key (reading s) r w w1 e h

  loop-Returns :
      (fuel garbage : ℕ) (stack : List ℕ) (res : Message) (s : Slave) (w : World) (b : Stream)
      → book.available b ≡ 0
      → IsBook b s.store
      → Returns (λ s'. IsBook b s'.store) (loop locale before fuel garbage stack res s w)
  unfolding loop Returns
  loop-Returns fuel garbage stack res s w b nothing h =
      Returns-then (λ r. IsBook b r.store) (λ s'. IsBook b s'.store)
        (read_and_store rfid book locale soft_serial garbage stack mfr_key (reading s) w) _
        (read-Returns garbage stack s w b h)
        λ r w1 k.
          Returns-then (λ l. l.store ≡ b) (λ s'. IsBook b s'.store)
            (listen (server locale before) book fuel res (listening (after_reading s r)) w1) _
            (listen-empty book b nothing (server locale before) fuel res
              (listening (after_reading s r)) w1 k.0)
            λ l w2 e. (e, ap (λ t. t.write_error) (e ∙ sym k.0) ∙ k.1)

  -- In every state of a slave the record book is the one of the constructor, without a byte in it and
  -- without an error, whatever cards are read and whatever the master asks.
  pub Runs-IsBook :
      (s : Slave) (w : World)
      → Runs s w
      → (s.store ≡ non_persistence (replicate 512 0) reg_limit)
        × (book.available s.store ≡ 0)
        × ((t : ℕ) → (book.begin_transaction t s.store).0 ≡ true)
  unfolding book begin_transaction constructed non_persistence Stream.available
  Runs-IsBook s w r =
      let h = all s w r in (h.0, ap book.available h.0, λ t. ap (λ b. not b.write_error) h.0)
    where
      all :
          (s : Slave) (w : World)
          → Runs s w
          → IsBook (non_persistence (replicate 512 0) reg_limit) s.store
      all s w (started leds w1) = (refl, refl)
      all s w (looped fuel garbage stack res s0 s1 w0 w1 r e) =
          Returns-value (λ s. IsBook (non_persistence (replicate 512 0) reg_limit) s.store) _ s1 w1
            (loop-Returns fuel garbage stack res s0 w0 (non_persistence (replicate 512 0) reg_limit)
              refl (all s0 w0 r))
            e
