-- ===== src/CardReader/Succeeding/Card.antt =====
-- A card that answers every command, in front of a device whose persistence is any.
use dread.Base.{
  ℕ, ◌≡◌, refl, ap₂, Option, none, some, List, [], ◌∷◌, ◌==◌, replicate, if◌then◌else◌, arith,
}
use dread.Hardware.{World}
use dread.Hid.{Hid, beep}
use dread.Locale.{Locale, get_date_time, print_number}
use dread.Mifare.{
  MifareLite, Outcome, request, anticoll, to_card, conclude, receive, read_fifo, write_fifo, poll,
  calculate_crc, select_tag, auth, read_block, halt, read_mfrc522, write_mfrc522, set_bit_mask,
  clear_bit_mask, irq_en_of, wait_irq_of,
}
use dread.CardReader.{Reading}
use dread.CardReader.Succeeding.{Cooperates}

-- The transfers that bring something other than 0, and what they bring.
abbrev pub script : List (ℕ × ℕ)
script =
    (23, 32)
    ∷ (31, 2)
    ∷ (63, 32)
    ∷ (71, 5)
    ∷ (109, 4)
    ∷ (151, 32)
    ∷ (159, 3)
    ∷ (163, 8)
    ∷ (207, 16)
    ∷ (215, 8)
    ∷ (231, 4)
    ∷ (263, 32)
    ∷ (271, 18)
    ∷ (275, 7)
    ∷ (321, 4)
    ∷ (353, 32)
    ∷ []

abbrev pub reply : List (ℕ × ℕ) → ℕ → ℕ
reply [] n = 0
reply ((k, v) ∷ rest) n = if n == k then v else reply rest n

abbrev pub near : World
near = record {
  clock = λ n. n;
  arrivals = λ n p. [];
  replies = reply script;
  ticks = 0;
  polls = 0;
  transfers = 0;
  rx = λ p. [];
  trace = [];
}

abbrev pub rfid : MifareLite
rfid = record { pin_slave_select = 10; pin_reset = 9 }

abbrev pub key : List ℕ
key = 0x00 ∷ 0x00 ∷ 0x0B ∷ 0xAC ∷ 0xAF ∷ 0xEA ∷ []

abbrev pub year_four : Locale
year_four = record { secs = 0; mins = 0; hrs = 0; days = 1; months = 1; year = 4 }

abbrev pub leds : Hid
leds = record { buzz_pin = 16; red_led_pin = 6; greenblue_led_pin = 7; led_register = 0 }

abbrev pub before : {S : Type 0} → S → Reading S
before store = record {
  serial = replicate 5 0;
  last_serial = replicate 5 0;
  buffer = replicate 16 0;
  store = store;
  leds = leds;
}

abbrev pub buffer_of : Outcome → List ℕ
buffer_of (status, none, w) = []
buffer_of (status, some b, w) = b

abbrev pub asked : Outcome
asked = request rfid 0x26 (replicate 16 0) 2 near

abbrev pub found : Outcome
found = anticoll rfid (replicate 5 0) 2 asked.2

abbrev pub chosen : Outcome
chosen = select_tag rfid (buffer_of asked) (replicate 5 0) 2 found.2

abbrev pub trusted : Outcome
trusted = auth rfid 0x61 4 key (buffer_of chosen) (replicate 5 0) 2 (beep leds chosen.2)

abbrev pub looked : Outcome
looked = read_block rfid 4 (buffer_of trusted) 2 trusted.2

abbrev pub asleep : Outcome
asleep = halt rfid (replicate 4 0) 2 looked.2

asked_lem : (asked.0 ≡ 0) × (asked.1 ≡ some (buffer_of asked))
unfolding request anticoll to_card conclude receive read_fifo calculate_crc select_tag auth
    read_block halt write_fifo poll read_mfrc522 write_mfrc522 set_bit_mask clear_bit_mask irq_en_of
    wait_irq_of beep
asked_lem = (refl, refl)

found_lem : (found.0 ≡ 0) × (found.1 ≡ some (replicate 5 0))
unfolding request anticoll to_card conclude receive read_fifo calculate_crc select_tag auth
    read_block halt write_fifo poll read_mfrc522 write_mfrc522 set_bit_mask clear_bit_mask irq_en_of
    wait_irq_of beep
found_lem = (refl, refl)

chosen_lem : (chosen.0 ≡ 8) × (chosen.1 ≡ some (buffer_of chosen))
unfolding request anticoll to_card conclude receive read_fifo calculate_crc select_tag auth
    read_block halt write_fifo poll read_mfrc522 write_mfrc522 set_bit_mask clear_bit_mask irq_en_of
    wait_irq_of beep
chosen_lem = (refl, refl)

trusted_lem : (trusted.0 ≡ 0) × (trusted.1 ≡ some (buffer_of trusted))
unfolding request anticoll to_card conclude receive read_fifo calculate_crc select_tag auth
    read_block halt write_fifo poll read_mfrc522 write_mfrc522 set_bit_mask clear_bit_mask irq_en_of
    wait_irq_of beep
trusted_lem = (refl, refl)

looked_lem : (looked.0 ≡ 0) × (looked.1 ≡ some (buffer_of looked))
unfolding request anticoll to_card conclude receive read_fifo calculate_crc select_tag auth
    read_block halt write_fifo poll read_mfrc522 write_mfrc522 set_bit_mask clear_bit_mask irq_en_of
    wait_irq_of beep
looked_lem = (refl, refl)

asleep_lem : (asleep.0 ≡ 0) × (asleep.1 ≡ some (buffer_of asleep))
unfolding request anticoll to_card conclude receive read_fifo calculate_crc select_tag auth
    read_block halt write_fifo poll read_mfrc522 write_mfrc522 set_bit_mask clear_bit_mask irq_en_of
    wait_irq_of beep
asleep_lem = (refl, refl)

abbrev pub date_of : Option (List ℕ) → List ℕ
date_of none = []
date_of (some d) = d

abbrev pub date : List ℕ
date = date_of (get_date_time year_four (buffer_of looked))

pub dates : get_date_time year_four (buffer_of looked) ≡ some date
unfolding get_date_time print_number request anticoll to_card conclude receive read_fifo
    calculate_crc select_tag auth read_block write_fifo poll read_mfrc522 write_mfrc522 set_bit_mask
    clear_bit_mask irq_en_of wait_irq_of beep
dates = refl

-- An outcome, from what is known of its parts.
abbrev pub outcome :
    (o : Outcome) (status : ℕ) (b : List ℕ)
    → (o.0 ≡ status) × (o.1 ≡ some b)
    → o ≡ (status, some b, o.2)
outcome (s, b', w) status b (e, e') = ap₂ (λ (x : ℕ) (y : Option (List ℕ)). (x, y, w)) e e'

pub cooperates :
    {S : Type 0} (store : S)
    → Cooperates rfid 2 (replicate 4 0) key (before store) near (buffer_of looked)
cooperates store = record {
  status = 0;
  buffer = buffer_of asked;
  world = asked.2;
  outcome = outcome asked 0 (buffer_of asked) asked_lem;
  ok = λ e. omega arith;
  further = record {
    status = 0;
    buffer = replicate 5 0;
    world = found.2;
    outcome = outcome found 0 (replicate 5 0) found_lem;
    ok = ((λ e. omega arith), refl);
    further = record {
      status = 8;
      buffer = buffer_of chosen;
      world = chosen.2;
      outcome = outcome chosen 8 (buffer_of chosen) chosen_lem;
      ok = λ e. omega arith;
      further = record {
        status = 0;
        buffer = buffer_of trusted;
        world = trusted.2;
        outcome = outcome trusted 0 (buffer_of trusted) trusted_lem;
        ok = λ e. omega arith;
        further = record {
          status = 0;
          buffer = buffer_of looked;
          world = looked.2;
          outcome = outcome looked 0 (buffer_of looked) looked_lem;
          ok = λ e. omega arith;
          further = record {
            status = 0;
            buffer = buffer_of asleep;
            world = asleep.2;
            outcome = outcome asleep 0 (buffer_of asleep) asleep_lem;
            ok = tt;
            further = refl;
          };
        };
      };
    };
  };
}
