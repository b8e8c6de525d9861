-- ===== src/CardReader.antt =====
-- Application/CardReader/CardReader.cpp: a card is looked for, and a record of it kept. `none` is a write
-- outside of a buffer. `garbage` stands for what the length variables of the card commands hold before
-- they are assigned, and `stack` for the first contents of the frame that `Halt` sends.
pub mod Progress
pub mod Storing
pub mod Entering
pub mod Succeeding
mod Tests
use dread.Base.{
  ℕ, ◌+◌, ◌*◌, Bool, true, false, Option, none, some, List, [], ◌∷◌, ◌==◌, ◌!=◌, ◌&&◌,
  if◌then◌else◌, get_or,
}
use dread.Hardware.{World, Port, write, delay}
use dread.Hardware.Output.{println}
use dread.Hid.{Hid, beep, successful_chime, failure_chime}
use dread.Locale.{Locale, get_date_time}
use dread.Mifare.{
  MifareLite, Outcome, request, anticoll, select_tag, auth, read_block, halt, mi_err, picc_req_idl,
  picc_authent1b,
}
use dread.Persistence.Interface.{Persistence, write_transaction}

-- The two serial numbers, the static `buffer` of 16 bytes, the store behind the persistence, and the
-- leds.
pub record Reading (S : Type 0) : Type 0 where
  pub serial : List ℕ
  pub last_serial : List ℕ
  pub buffer : List ℕ
  pub store : S
  pub leds : Hid

-- `0 == memcmp(…)` of two arrays of the same size.
unfoldable pub same_bytes : List ℕ → List ℕ → Bool
same_bytes [] [] = true
same_bytes [] (y ∷ ys) = false
same_bytes (x ∷ xs) [] = false
same_bytes (x ∷ xs) (y ∷ ys) = (x == y) && same_bytes xs ys

-- The status, the buffer and the world of a card command, for what follows it.
abbrev pub on_outcome : {A : Type 0} → Outcome → (ℕ → List ℕ → World → Option A) → Option A
on_outcome (status, none, w) k = none
on_outcome (status, some buffer, w) k = k status buffer w

-- `*reinterpret_cast<uint32_t *>(buffer)`, the lowest byte first.
abbrev pub record_of : List ℕ → ℕ
record_of b = get_or b 0 0 + get_or b 1 0 * 256 + get_or b 2 0 * 65536 + get_or b 3 0 * 16777216

-- The value of `result`, the state and the world.
abbrev pub Progress : Type 0 → Type 0
Progress S = Option (Bool × Reading S × World)

module _ (m : MifareLite) {S : Type 0} (p : Persistence S) (locale : Locale) (logger : Port) where
  abbrev pub dated : ℕ → Reading S → World → Option (List ℕ) → Progress S
  dated record_ s w none = none
  dated record_ s w (some buffer) =
      let (st, w1) = p.write_record record_ buffer 13 s.store w in
      some (true, record s { buffer = buffer; store = p.commit_transaction st }, w1)

  unfoldable pub store_record : Reading S → World → Progress S
  store_record s w =
      let (ok, st) = p.begin_transaction write_transaction s.store in
      let s1 = record s { store = st } in
      let saved = dated (record_of s.buffer) s1 w (get_date_time locale s.buffer) in
      if ok then saved else some (false, s1, w)

  unfoldable pub read_card : ℕ → List ℕ → Reading S → World → Progress S
  unfolding store_record
  read_card garbage stack s w =
      on_outcome (read_block m 0x04 s.buffer garbage w) λ status buffer w1.
        let s1 = record s { buffer = buffer } in
        let rest = on_outcome (halt m stack garbage w1) λ _ _ w2. store_record s1 w2 in
        if status != mi_err then rest else some (false, s1, w1)

  unfoldable pub auth_card : ℕ → List ℕ → List ℕ → Reading S → World → Progress S
  unfolding read_card
  auth_card garbage stack key s w =
      on_outcome (auth m picc_authent1b 0x04 key s.buffer s.serial garbage w) λ status buffer w1.
        let s1 = record s { buffer = buffer } in
        let rest = read_card garbage stack s1 w1 in
        if status != mi_err then rest else some (false, s1, w1)

  unfoldable pub select_card : ℕ → List ℕ → List ℕ → Reading S → World → Progress S
  unfolding auth_card
  select_card garbage stack key s w =
      on_outcome (select_tag m s.buffer s.serial garbage w) λ size buffer w1.
        let s1 = record s { buffer = buffer } in
        let rest = auth_card garbage stack key s1 (beep s.leds w1) in
        if size != mi_err then rest else some (false, s1, w1)

  unfoldable pub identify : ℕ → List ℕ → List ℕ → Reading S → World → Progress S
  unfolding select_card
  identify garbage stack key s w = on_outcome (anticoll m s.serial garbage w) λ status serial w1.
      let s1 = record s { serial = serial } in
      let rest = select_card garbage stack key s1 w1 in
      if (status != mi_err) && same_bytes serial s.last_serial
      then rest
      else some (status != mi_err, s1, w1)

  -- What the user is told, and the pause at the end.
  unfoldable pub announce : Bool × Reading S × World → Reading S × World
  announce (true, s, w) =
      let (leds, w1) = successful_chime s.leds w in
      (record s { leds = leds; last_serial = s.serial }, delay 500 w1)
  announce (false, s, w) =
      let (leds, w1) = failure_chime s.leds w in
      (
        record s { leds = leds },
        delay 500 (println logger (write logger b'n' (write logger b'U' w1))),
      )

  abbrev pub announced : Progress S → Option (Reading S × World)
  unfolding announce
  announced none = none
  announced (some r) = some (announce r)

  unfoldable pub read_and_store :
      ℕ → List ℕ → List ℕ → Reading S → World → Option (Reading S × World)
  unfolding identify announced
  read_and_store garbage stack key s w =
      on_outcome (request m picc_req_idl s.buffer garbage w) λ status buffer w1.
        let s1 = record s { buffer = buffer } in
        let card = announced (identify garbage stack key s1 w1) in
        if status != mi_err then card else some (s1, delay 500 w1)
