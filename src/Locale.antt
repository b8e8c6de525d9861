-- ===== src/Locale.antt =====
-- Support/Util: Parser.cpp and Locale.cpp, the clock of the device and its decimal fields.
pub mod Fields
pub mod Ticking
mod Tests
use dread.Base.{
  ℕ, zero, suc, ◌+◌, ◌-◌, ◌*◌, ◌/◌, ◌%◌, Bool, true, false, Option, none, some, List, [], ◌∷◌, ◌==◌,
  ◌!=◌, ltb, leb, ◌||◌, ◌&&◌, u8, u16, if◌then◌else◌, get_or, set, length, drop,
}

-- `dest[i - 1] = v`; `none` is a write outside of the buffer, in front of it at `i = 0`, and
-- whatever follows a write outside.
abbrev pub store : Option (List ℕ) → ℕ → ℕ → Option (List ℕ)
store none i v = none
store (some buf) zero v = none
store (some buf) (suc i) v = if ltb i (length buf) then some (set buf i v) else none

-- `Parser::printNumber` at `buf + base`. The loop counts `size` down before it writes to
-- `dest[size - 1]`.
unfoldable pub print_number : Option (List ℕ) → ℕ → ℕ → ℕ → Option (List ℕ)
print_number buf base zero n = buf
print_number buf base (suc size) n =
    let rest =
      print_number (store buf (base + size) (u8 (n - 10 * (n / 10) + 48))) base size (n / 10) in
    if n != 0 then rest else buf

-- The test of `parseNumber`: `('0' <= c) || ('9' >= c)`.
abbrev pub accepts : ℕ → Bool
accepts c = leb 48 c || leb c 57

-- `Parser::parseNumber` from index `i` on, with `n` so far, as a `uint16_t`.
unfoldable pub parse_from : List ℕ → ℕ → ℕ → ℕ → ℕ
parse_from buf i zero n = n
parse_from buf i (suc ndigit) n =
    let c = get_or buf i 0 in
    parse_from buf (i + 1) ndigit (if accepts c then u16 (n + (n * 10 + (c + 65536 - 48))) else n)

unfoldable pub parse_number : List ℕ → ℕ → ℕ → ℕ
unfolding parse_from
parse_number buf i ndigit = parse_from buf i ndigit 0

-- `Locale`: six `uint8_t` fields.
pub record Locale : Type 0 where
  pub secs : ℕ
  pub mins : ℕ
  pub hrs : ℕ
  pub days : ℕ
  pub months : ℕ
  pub year : ℕ

unfoldable pub get_date_time : Locale → List ℕ → Option (List ℕ)
get_date_time l buf =
    let b1 = print_number (some buf) 0 2 l.year in
    let b2 = print_number b1 3 2 l.months in
    let b3 = print_number b2 6 2 l.days in
    let b4 = print_number b3 9 2 l.hrs in
    let b5 = print_number b4 12 2 l.mins in print_number b5 15 2 l.secs

unfoldable pub set_date_time : List ℕ → Locale
set_date_time buf = record {
  year = u8 (parse_number buf 0 2);
  months = u8 (parse_number buf 3 2);
  days = u8 (parse_number buf 6 2);
  hrs = u8 (parse_number buf 9 2);
  mins = u8 (parse_number buf 12 2);
  secs = u8 (parse_number buf 15 2);
}

-- `fixDateTimeFormat`; the subtractions of seconds and minutes stay above 0, and
-- `hrs - (hrs * 24)` wraps in its 8 bits.
unfoldable pub fix_date_time_format : Locale → Locale
fix_date_time_format l =
    let carrier = l.secs / 60 in
    let mins' = u8 (l.mins + carrier) in
    let carrier' = mins' / 60 in
    let hrs' = u8 (l.hrs + carrier') in
    record l {
      secs = l.secs - carrier * 60;
      mins = mins' - carrier' * 60;
      hrs = u8 (hrs' + 256 * 24 - hrs' * 24);
    }

unfoldable pub increase_seconds : Locale → Locale
unfolding fix_date_time_format
increase_seconds l = fix_date_time_format (record l { secs = u8 (l.secs + 1) })

unfoldable pub increase_minutes : Locale → Locale
unfolding fix_date_time_format
increase_minutes l = fix_date_time_format (record l { mins = u8 (l.mins + 1) })
