-- ===== src/Devices/Standalone/Tests.antt =====
-- A standalone device is interrupted, and then calls its card reader.
use dread.Base.{
  arith, length, ℕ, zero, suc, take, u8, [], ◌∷◌, ◌++◌, length-append, List, ◌≤◌, ◌⊎◌, ◌≡◌, refl,
  true, Option, none, some, replicate,
}
use dread.Hardware.{World}
use dread.Hid.{set_led, register_set, failure_chime, unlock}
use dread.Mifare.{
  request, anticoll, to_card, conclude, receive, read_fifo, write_fifo, poll, read_mfrc522,
  write_mfrc522, set_bit_mask, clear_bit_mask, irq_en_of, wait_irq_of,
}
use dread.Scheduler
use dread.Scheduler.{Scheduler, Store, subscribe, call_subscriptions, call_from}
use dread.CardReader.{record_of, read_and_store, identify, announce, same_bytes}
use dread.Devices.{mfr_key, nodes, subscriptions, call_all}
use dread.Devices.Standalone
use dread.Devices.Standalone.{Standalone, Place, at_card, at_status, at_modem, at_upload}
use dread.Devices.Standalone.Running as StandaloneRunning
use dread.Persistence.Interface.{Entry}
use dread.Persistence.File.Logging.{Logs}
use dread.Persistence.File.Memory.{Card, Open, sd, sd-Appends, takes-room}
use dread.Devices.Standalone.Returning.{Returned, Runs-Returned}
use dread.Devices.Standalone.Recording.{Runs-Logs, RunStores}
use dread.Devices.Standalone.Filing.{step-Grows}
use dread.Persistence.File.Appending.{line, Grows}
use dread.CardReader.Succeeding.{Cooperates}
use dread.CardReader.Succeeding.Card.{near, cooperates, looked, buffer_of, date, dates}
use dread.Devices.Tests.{silent, clock, leds, no_guard, no_action, unset, disk}

abbrev subscribed : Scheduler
subscribed = record {
  subscriptions = some 0;
  tick = 0;
  store =
      Scheduler.set_next (Scheduler.set_next (Scheduler.set_next nodes 0 none) 0 (some 1)) 1 none;
}

subscribed_lem : subscriptions silent ≡ some (subscribed, silent)
unfolding subscriptions subscribe Scheduler.new Scheduler.append_from
subscribed_lem = refl

abbrev alone : Standalone Card Open
alone = Standalone.constructed subscribed disk leds

abbrev alone_of : Option (Standalone Card Open × World) → Standalone Card Open × World
alone_of none = (alone, silent)
alone_of (some r) = r

abbrev ticked_once : Standalone Card Open × World
ticked_once = alone_of (Standalone.interrupt alone silent)

ticked_once_lem : Standalone.interrupt alone silent ≡ some ticked_once
unfolding Standalone.interrupt Standalone.constructed call_subscriptions call_all call_from
ticked_once_lem = refl

abbrev step_of : Option ((Place × Standalone Card Open) × World) → Standalone Card Open × World
step_of none = (alone, silent)
step_of (some ((a, s), w)) = (s, w)

-- The interrupt comes before the card reader is called.
abbrev read_once : Standalone Card Open × World
read_once = step_of (
    Standalone.step sd clock no_guard no_action 8 0 (replicate 4 0) unset true at_card ticked_once.0
      ticked_once.1)

read_once_lem :
    Standalone.step sd clock no_guard no_action 8 0
      (replicate 4 0)
      unset
      true
      at_card
      ticked_once.0
      ticked_once.1
    ≡ some ((at_status, read_once.0), read_once.1)
unfolding Standalone.step Standalone.interrupt Standalone.constructed call_subscriptions call_all
    call_from read_and_store identify announce request anticoll to_card conclude receive read_fifo
    write_fifo poll read_mfrc522 write_mfrc522 set_bit_mask clear_bit_mask irq_en_of wait_irq_of
    failure_chime unlock set_led register_set same_bytes
read_once_lem = refl

read_once-Runs :
    StandaloneRunning.Runs sd clock no_guard no_action disk at_status read_once.0 read_once.1
unfolding Standalone.constructed
read_once-Runs =
    StandaloneRunning.Runs.stepped 8 0 (replicate 4 0) unset true at_card at_status ticked_once.0
      read_once.0 ticked_once.1 read_once.1
      (StandaloneRunning.Runs.interrupted at_card alone ticked_once.0 silent ticked_once.1
        (StandaloneRunning.Runs.started subscribed leds silent silent silent subscribed_lem)
        ticked_once_lem)
      read_once_lem

Runs-Returned_example :
    Returned (Standalone.interrupt read_once.0 read_once.1)
    × (◌≡◌ {A = Place} at_status at_card
        ⊎ Returned (
            Standalone.step sd clock no_guard no_action 8 0
              (replicate 4 0)
              unset
              true
              at_status
              read_once.0
              read_once.1))
Runs-Returned_example =
    Runs-Returned sd clock no_guard no_action disk at_status read_once.0 read_once.1 8 0
      (replicate 4 0) unset true read_once-Runs

-- The card answers, and its serial number is the one that the device was constructed with.
answered :
    Cooperates Standalone.rfid 2
      (replicate 4 0)
      mfr_key
      (Standalone.reading alone)
      near
      (buffer_of looked)
unfolding Standalone.constructed
answered = cooperates disk

length-take_le : (n : ℕ) (d : List ℕ) → length (take n d) ≤ n
length-take_le zero d = omega arith
length-take_le (suc n) [] = omega arith
length-take_le (suc n) (b ∷ d) = let l = length-take_le n d in omega (arith, l)

-- A line has at most 22 bytes.
length-line : (name : List ℕ) (r : ℕ) (d : List ℕ) → length (line name (r, d, 13)) ≤ 100
unfolding line
length-line name r d =
    let a = length-take_le 3 name in
    let b = length-take_le 13 d in
    let tail : List ℕ = b'\t' ∷ (take 3 name ++ (b'\r' ∷ b'\n' ∷ [])) in
    let last = length-append (take 3 name) (b'\r' ∷ b'\n' ∷ []) in
    let middle = length-append (take 13 d) tail in
    let all = length-append (take 3 name) (b'\t' ∷ u8 r ∷ b'\t' ∷ (take 13 d ++ tail)) in
    omega (arith, a, b, last, middle, all)

fits :
    length (line alone.persistence.file_name (record_of (buffer_of looked), date, 13))
    ≤ sd-Appends.takes alone.persistence.card alone.persistence.file_name
unfolding Standalone.constructed
fits =
    rw (takes-room alone.persistence.card alone.persistence.file_name)
      (length-line alone.persistence.file_name (record_of (buffer_of looked)) date)

step-Grows_example :
    (s' : Standalone Card Open) × (w' : World) × (Standalone.step sd clock no_guard no_action 8 2
        (replicate 4 0)
        unset
        true
        at_card
        alone
        near
      ≡ some ((at_status, s'), w'))
    × Grows sd 2 sd-Appends
        (line alone.persistence.file_name (record_of (buffer_of looked), date, 13))
        alone.persistence
        s'.persistence
step-Grows_example =
    step-Grows sd sd-Appends clock no_guard no_action 8 2 (replicate 4 0) unset true alone near
      (buffer_of looked) date answered dates refl fits

-- The same call as a run: its line is in the file.
filed :
    (s' : Standalone Card Open) × (w' : World) × (Standalone.step sd clock no_guard no_action 8 2
        (replicate 4 0)
        unset
        true
        at_card
        alone
        near
      ≡ some ((at_status, s'), w'))
    × Grows sd 2 sd-Appends
        (line alone.persistence.file_name (record_of (buffer_of looked), date, 13))
        alone.persistence
        s'.persistence
filed =
    step-Grows sd sd-Appends clock no_guard no_action 8 2 (replicate 4 0) unset true alone near
      (buffer_of looked) date answered dates refl fits

filed-Runs : StandaloneRunning.Runs sd clock no_guard no_action disk at_status filed.0 filed.1
unfolding Standalone.constructed
filed-Runs =
    StandaloneRunning.Runs.stepped 8 2 (replicate 4 0) unset true at_card at_status alone filed.0
      near filed.1
      (StandaloneRunning.Runs.started subscribed leds silent silent near subscribed_lem) filed.2

Runs-Logs_example :
    (es : List Entry) × RunStores sd clock no_guard no_action filed-Runs es
    × Logs sd 2 sd-Appends es disk filed.0.persistence
Runs-Logs_example =
    Runs-Logs sd clock no_guard no_action sd-Appends disk at_status filed.0 filed.1 filed-Runs
