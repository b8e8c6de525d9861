-- ===== src/DreadClient/Tests.antt =====
-- An upload of 10 bytes to a modem that answers the opening of the session, and then no more; and the
-- upload loop with a modem that confirms a packet.
use dread.Base.{
  ℕ, ◌*◌, ◌≡◌, List, Bool, true, false, Option, none, some, [], ◌∷◌, ◌==◌, refl, arith,
  if◌then◌else◌, replicate,
}
use dread.Hardware.{World, Port}
use dread.Locale.{Locale, get_date_time, print_number}
use dread.Modem.{
  Modem, plus_ftp_put, plus_ftp_put_length, open_packet_session, send_packet_size, send_packet_data,
  send_bytes, answered, set_at_cmd, set_at_number, at_cmd, print_p, wait_for, wait_loop,
  match_response, advance,
}
use dread.Persistence.File.{
  FileStore, get_size, file_persistence, begin_transaction, commit_transaction,
}
use dread.Persistence.File.Library.{SdLibrary}
use dread.DreadClient.{Uploading, upload_loop, upload_with_date, upload_packet, dated}
use dread.DreadClient.Upload.{upload_packet-false}
use dread.DreadClient.Sequence.{InOrder, upload_loop-InOrder}

-- An SD card with one file of 10 bytes.
abbrev sd : SdLibrary (Unit {0}) Bool
sd = record {
  file_read = 1;
  file_write = 19;
  begin = λ pin card. (true, card);
  open_file = λ n mode card. (true, card);
  is_open = λ h. h;
  exists_file = λ n card. (true, card);
  remove = λ n card. (true, card);
  write = λ b h card. (h, card);
  close = λ h card. (false, card);
  size = λ h card. 10;
  available = λ h card. 10;
  read = λ h card. (some 65, h, card);
}

-- The response is there when the port is asked after the first time-out.
abbrev answering : World
answering = record {
  clock = λ n. n * 3000;
  arrivals = λ n p. if n == 1 then plus_ftp_put else [];
  replies = λ n. 0;
  ticks = 0;
  polls = 0;
  transfers = 0;
  rx = λ p. [];
  trace = [];
}

abbrev modem : Modem
modem = record { sim900 = record { hard_port = 1; soft_port = 2 }; logger = 2 }

abbrev clock : Locale
clock = record { secs = 0; mins = 0; hrs = 0; days = 1; months = 1; year = 4 }

abbrev before : Uploading (Unit {0}) Bool
before = record {
  send_packet = true;
  persistence = record { card = tt; file = false; file_name = b'I' ∷ b'1' ∷ b'Z' ∷ [] };
  leds = record { buzz_pin = 1; red_led_pin = 2; greenblue_led_pin = 3; led_register = 0 };
  datetime = replicate 13 0;
}

abbrev result_of :
    Option ((Bool × Uploading (Unit {0}) Bool) × World) → (Bool × Uploading (Unit {0}) Bool) × World
result_of none = ((true, before), answering)
result_of (some r) = r

abbrev uploaded : (Bool × Uploading (Unit {0}) Bool) × World
uploaded = result_of (upload_packet sd 2 modem clock 15 3 true before answering)

uploaded_lem :
    upload_packet sd 2 modem clock 15 3 true before answering
    ≡ some ((uploaded.0.0, uploaded.0.1), uploaded.1)
unfolding upload_packet dated upload_with_date upload_loop open_packet_session send_packet_size
    send_packet_data send_bytes answered set_at_cmd set_at_number at_cmd print_p wait_for wait_loop
    match_response advance get_date_time print_number file_persistence get_size begin_transaction
    commit_transaction dread.Hardware.Output.write_each dread.Hardware.Output.print_number
    dread.Hardware.Output.digits_from
uploaded_lem = refl

upload_packet-false_example : uploaded.0.0 ≡ false
upload_packet-false_example =
    upload_packet-false sd 2 modem clock 15 3 true before uploaded.0.1 answering uploaded.1
      uploaded.0.0 (λ h f. omega arith) uploaded_lem

abbrev byte_of_file : List ℕ → Option ℕ
byte_of_file [] = none
byte_of_file (b ∷ bs) = some b

abbrev rest_of_file : List ℕ → List ℕ
rest_of_file [] = []
rest_of_file (b ∷ bs) = bs

-- The handle of the other card is what is left of its only file.
abbrev sd_of_bytes : SdLibrary (Unit {0}) (List ℕ)
sd_of_bytes = record {
  file_read = 1;
  file_write = 19;
  begin = λ pin card. (true, card);
  open_file = λ n mode card. (70 ∷ 71 ∷ [], card);
  is_open = λ h. true;
  exists_file = λ n card. (true, card);
  remove = λ n card. (true, card);
  write = λ b h card. (h, card);
  close = λ h card. ([], card);
  size = λ h card. 2;
  available = λ h card. 2;
  read = λ h card. (byte_of_file h, rest_of_file h, card);
}

-- The modem confirms the length of one packet.
abbrev confirming : World
confirming = record answering { arrivals = λ n p. if n == 4 then plus_ftp_put_length else [] }

abbrev two_bytes : FileStore (Unit {0}) (List ℕ)
two_bytes = record { card = tt; file = 70 ∷ 71 ∷ []; file_name = b'I' ∷ [] }

abbrev loop_of :
    Option ((Bool × ℕ × FileStore (Unit {0}) (List ℕ)) × World)
    → (Bool × ℕ × FileStore (Unit {0}) (List ℕ)) × World
loop_of none = ((true, 9, two_bytes), answering)
loop_of (some r) = r

abbrev in_order : (Bool × ℕ × FileStore (Unit {0}) (List ℕ)) × World
in_order = loop_of (upload_loop sd_of_bytes 2 modem clock 15 2 2 true two_bytes confirming)

in_order_lem :
    upload_loop sd_of_bytes 2 modem clock 15 2 2 true two_bytes confirming
    ≡ some ((false, 0, record two_bytes { file = [] }), in_order.1)
unfolding upload_loop send_packet_size send_packet_data send_bytes answered set_at_cmd set_at_number
    at_cmd print_p wait_for wait_loop match_response advance print_number file_persistence
    dread.Hardware.Output.write_each dread.Hardware.Output.print_number
    dread.Hardware.Output.digits_from
in_order_lem = refl

upload_loop-InOrder_example :
    InOrder modem 15
      (file_persistence sd_of_bytes 2).read
      2
      0
      two_bytes
      confirming
      (record two_bytes { file = [] })
      in_order.1
upload_loop-InOrder_example =
    upload_loop-InOrder sd_of_bytes 2 modem clock 15 2 2 0 true false two_bytes
      (record two_bytes { file = [] }) confirming in_order.1 in_order_lem
