-- ===== src/Net/Manager.antt =====
-- Modules/Net/NetManager.cpp and NetManager.h: the master's table of slave addresses, an open
-- addressing hash table of 16 bytes where 0 marks an empty slot.
pub mod Probe
pub mod Validity
pub mod Registry
pub mod Cursor
pub mod Filling
mod Tests
use dread.Base.{
  ℕ, zero, suc, ◌+◌, ◌%◌, Bool, true, false, Option, none, some, List, [], ◌∷◌, ◌==◌, ◌!=◌, u8,
  if◌then◌else◌, get_elem?, get_or, set, replicate,
}

-- `MAX_ADDRESSES`
abbrev pub max_addresses : ℕ
max_addresses = 16

pub record NetManager : Type 0 where
  pub table : List ℕ
  pub free_addresses : ℕ
  pub idx : ℕ

-- The constructor: `memset`, and `sizeof(table)` free slots.
unfoldable pub new : NetManager
new = record { table = replicate 16 0; free_addresses = 16; idx = 0 }

unfoldable pub available_addresses : NetManager → ℕ
available_addresses m = m.free_addresses

-- The first nonzero entry; `return -1` is 255 as a `uint8_t`.
unfoldable pub first_nonzero : List ℕ → ℕ
first_nonzero [] = 255
first_nonzero (x ∷ xs) = if x != 0 then x else first_nonzero xs

unfoldable pub get_free_address : NetManager → ℕ
unfolding first_nonzero
get_free_address m = first_nonzero m.table

-- The `for` loop of `nextAddress`, which ends with the value of `i`; `none` is a read outside of
-- the table, or fuel that ran out.
unfoldable pub scan : ℕ → List ℕ → ℕ → ℕ → Option ℕ
scan zero table idx i = none
scan (suc fuel) table idx i =
    let again = scan fuel table idx ((i + 1) % max_addresses) in
    let visit : Option ℕ = elim (get_elem? table i) [
      | none ↦ none
      | some x ↦ if x != 0 then some i else again
    ] in
    if i != idx then visit else some i

abbrev pub stopped_before : ℕ → Option ℕ → Option Bool
stopped_before idx none = none
stopped_before idx (some i) = some (i != idx)

-- `nextAddress` assigns no field, so its result is all that it has. A round for each slot, and one
-- more for the test that ends the loop, is enough fuel.
unfoldable pub next_address : NetManager → Option Bool
next_address m = stopped_before m.idx (scan 17 m.table m.idx (u8 (m.idx + 1)))

unfoldable pub get_address : NetManager → ℕ
get_address m = get_or m.table m.idx 0

-- How the probe loop of `contains` and of `addAddress` ends: at the address, or by `break` or its
-- bound with the last slot probed.
pub data ProbeEnd : Type 0 where
  present : ProbeEnd
  stop : ℕ → ProbeEnd

-- `rounds` is `MAX_ADDRESSES - probe`.
unfoldable pub probe_from : List ℕ → ℕ → ℕ → ℕ → ℕ → ProbeEnd
probe_from table address zero probe h = stop h
probe_from table address (suc rounds) probe h =
    let h' = (address + probe) % max_addresses in
    let again = probe_from table address rounds (probe + 1) h' in
    if get_or table h' 0 == address
    then present
    else (if get_or table h' 0 != 0 then again else stop h')

abbrev pub is_present : ProbeEnd → Bool
is_present present = true
is_present (stop h) = false

unfoldable pub contains : NetManager → ℕ → Bool
contains m address = is_present (probe_from m.table address 16 0 0)

abbrev pub place : NetManager → ℕ → ProbeEnd → NetManager × Bool
place m address present = (m, false)
place m address (stop h) =
    (record m { table = set m.table h address; free_addresses = u8 (m.free_addresses + 255) }, true)

unfoldable pub add_address : NetManager → ℕ → NetManager × Bool
unfolding available_addresses
add_address m address =
    if available_addresses m == 0
    then (m, false)
    else place m address (probe_from m.table address 16 0 0)
