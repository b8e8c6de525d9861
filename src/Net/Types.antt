-- ===== src/Net/Types.antt =====
-- Modules/Net/Types.h: the messages of the bus, unions over 20 raw bytes, and their codes.
use dread.Base.{ℕ, List, get_or, set}

abbrev pub msg_size : ℕ
msg_size = 20

abbrev pub broadcast_address : ℕ
broadcast_address = 0

-- `'@'` and `'!'`
abbrev pub request_header : ℕ
request_header = 64

abbrev pub msg_footer : ℕ
msg_footer = 33

abbrev pub router_ok : ℕ
router_ok = 0

abbrev pub router_timeout : ℕ
router_timeout = 1

abbrev pub router_request_not_found : ℕ
router_request_not_found = 2

abbrev pub router_already_registered : ℕ
router_already_registered = 4

abbrev pub router_not_registered : ℕ
router_not_registered = 5

-- `RequestTypes`; the three values of `ResponseTypes` are the same.
abbrev pub request_ack : ℕ
request_ack = 0

abbrev pub request_put_address : ℕ
request_put_address = 1

abbrev pub request_get_record : ℕ
request_get_record = 2

-- `union Request` and `union Response`: the raw bytes, and the places of the named fields.
abbrev pub Message : Type 0
Message = List ℕ

abbrev pub addr : Message → ℕ
addr m = get_or m 0 0

abbrev pub kind : Message → ℕ
kind m = get_or m 1 0

abbrev pub request_msg : Message → ℕ
request_msg m = get_or m 2 0

abbrev pub status : Message → ℕ
status m = get_or m 2 0

abbrev pub set_addr : ℕ → Message → Message
set_addr v m = set m 0 v

abbrev pub set_kind : ℕ → Message → Message
set_kind v m = set m 1 v

abbrev pub set_request_msg : ℕ → Message → Message
set_request_msg v m = set m 2 v

abbrev pub set_status : ℕ → Message → Message
set_status v m = set m 2 v
