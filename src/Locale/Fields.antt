-- ===== src/Locale/Fields.antt =====
-- What the two-digit fields of the date come to.
use native.Mathlib.Nat.{add-zero}
use dread.Base.{
  Bool, true, false, inl, inr, ap, sym, ◌∙◌, some_inj, dec_lt, lt→ltb, ge→ltb, ℕ_discrete, ==_true,
  ==_false, ℕ, zero, suc, ◌+◌, ◌-◌, ◌*◌, ◌/◌, ◌%◌, ◌<◌, ◌≤◌, ◌≡◌, ◌≢◌, refl, arith, u8, ◌==◌, ◌!=◌,
  !=_true, !=_false, if◌then◌else◌, ◌⊎◌, Option, none, some, List, [], ◌∷◌, length, get_or,
  length-set,
}
use dread.Locale.{Locale, store, print_number, parse_from, parse_number, get_date_time}

-- Where a two-digit number goes: the last digit to the field's first place, and the tens to the
-- place in front of the field, if there are any.
abbrev pub two_places : Option (List ℕ) → ℕ → ℕ → Option (List ℕ)
two_places buf base n =
    if n == 0
    then buf
    else (let b = store buf (base + 1) (n % 10 + 48) in
        if n / 10 == 0 then b else store b base (n / 10 + 48))

-- `printNumber` writes a number below 100 one place in front of where it is meant to stand.
pub print_number-shifted :
    (buf : List ℕ) (base n : ℕ)
    → n < 100
    → print_number (some buf) base 2 n ≡ two_places (some buf) base n
unfolding print_number
print_number-shifted buf base n h =
    let digit : u8 (n - 10 * (n / 10) + 48) ≡ n % 10 + 48 = omega arith in
    let tens : u8 (n / 10 - 10 * (n / 10 / 10) + 48) ≡ n / 10 + 48 = omega arith in
    elim (ℕ_discrete n 0) [
      | yes z ↦ rw (!=_false z, ==_true z)
      | no nz ↦ elim (ℕ_discrete (n / 10) 0) [
        | yes z ↦ rw (!=_true nz, ==_false nz, !=_false z, ==_true z, digit)
        | no m ↦ rw (!=_true nz, ==_false nz, !=_true m, ==_false m, digit, tens, add-zero)
      ]
    ]

store-front : (o : Option (List ℕ)) (v : ℕ) → store o 0 v ≡ none
store-front none v = refl
store-front (some buf) v = refl

-- The first field stands at the start of the buffer, so that a year of two digits is written in
-- front of it.
pub print_number-outside :
    (buf : List ℕ) (n : ℕ) → 10 ≤ n → n < 100 → print_number (some buf) 0 2 n ≡ none
unfolding print_number
print_number-outside buf n h l =
    let units : n ≢ 0 = λ e. omega arith in
    let tens : n / 10 ≢ 0 = λ e. omega arith in
    rw (!=_true units, !=_true tens) (store-front (store (some buf) 1 _) _)

-- `parseNumber` reads two digits a and b as 11 * a + b, where `printNumber` has put out 10 * a + b.
pub parse_number-digits :
    (buf : List ℕ) (i a b : ℕ)
    → a < 10
    → b < 10
    → get_or buf i 0 ≡ a + 48
    → get_or buf (i + 1) 0 ≡ b + 48
    → parse_number buf i 2 ≡ 11 * a + b
unfolding parse_number
parse_number-digits buf i a b ha hb ea eb = rw (ea, eb) (digits a b ha hb)
  where
    digits : (a b : ℕ) → a < 10 → b < 10 → parse_from ((a + 48) ∷ (b + 48) ∷ []) 0 2 0 ≡ 11 * a + b
    digits a b ha hb = ground arith

print_number-none : (base size n : ℕ) → print_number none base size n ≡ none
unfolding print_number
print_number-none base zero n = refl
print_number-none base (suc size) n = elim (ℕ_discrete n 0) [
  | yes z ↦ rw (!=_false z)
  | no nz ↦ rw (!=_true nz) (print_number-none base size (n / 10))
]

store-beyond :
    (o : Option (List ℕ)) (m i v : ℕ)
    → ((b : List ℕ) → o ≡ some b → length b ≡ m)
    → m ≤ i
    → store o (suc i) v ≡ none
store-beyond none m i v size h = refl
store-beyond (some b) m i v size h = ground (arith, size b refl)

-- The length of a buffer that is still there.
abbrev HasLength : ℕ → Option (List ℕ) → Type 0
HasLength m o = (b : List ℕ) → o ≡ some b → length b ≡ m

store-HasLength : (m i v : ℕ) (o : Option (List ℕ)) → HasLength m o → HasLength m (store o i v)
store-HasLength m i v none h b e = cc
store-HasLength m zero v (some x) h b e = cc
store-HasLength m (suc i) v (some x) h b e = elim (dec_lt i (length x)) [
  | yes l ↦
      ap length (sym (some_inj (rw (lt→ltb i (length x) l) at e))) ∙ (length-set x i v ∙ h x refl)
  | no g ↦ cc (rw (ge→ltb i (length x) (omega arith)) at e)
]

print_number-HasLength :
    (m base size n : ℕ) (o : Option (List ℕ))
    → HasLength m o
    → HasLength m (print_number o base size n)
unfolding print_number
print_number-HasLength m base zero n o h = h
print_number-HasLength m base (suc size) n o h = elim (ℕ_discrete n 0) [
  | yes z ↦ rw (!=_false z) h
  | no nz ↦ rw (!=_true nz) (
      print_number-HasLength m base size (n / 10) (store o (base + size) _)
        (store-HasLength m (base + size) _ o h))
]

seconds : (o : Option (List ℕ)) → HasLength 13 o → (n : ℕ) → n ≢ 0 → print_number o 15 2 n ≡ none
unfolding print_number
seconds o k n nz =
    let first : store o 16 (u8 (n - 10 * (n / 10) + 48)) ≡ none =
      store-beyond o 13 15 _ k (omega arith) in
    rw (!=_true nz, first) (if_same (n / 10 != 0))
  where
    if_same : (b : Bool) → ◌≡◌ {A = Option (List ℕ)} (if b then none else none) none
    if_same true = refl
    if_same false = refl

-- `getDateTime` writes outside of its buffer for every year of two digits, and, where the buffer has
-- the 13 bytes of `DATETIME_SIZE`, at every second but the first of a minute.
pub get_date_time-outside :
    (l : Locale) (buf : List ℕ)
    → l.year < 100
    → (10 ≤ l.year) ⊎ ((length buf ≡ 13) × (l.secs ≢ 0))
    → get_date_time l buf ≡ none
unfolding get_date_time
get_date_time-outside l buf y (inl h) = rw (
  print_number-outside buf l.year h y,
  print_number-none 3 2 l.months,
  print_number-none 6 2 l.days,
  print_number-none 9 2 l.hrs,
  print_number-none 12 2 l.mins,
  print_number-none 15 2 l.secs,
)
get_date_time-outside l buf y (inr (size, s)) = last (print_number b4 12 2 l.mins) kept
  where
    b4 : Option (List ℕ)
    b4 =
        print_number
          (print_number (print_number (print_number (some buf) 0 2 l.year) 3 2 l.months) 6 2 l.days)
          9 2 l.hrs

    first : HasLength 13 (some buf)
    first b e = ap length (sym (some_inj e)) ∙ size

    kept : HasLength 13 (print_number b4 12 2 l.mins)
    kept = print_number-HasLength 13 12 2 l.mins b4 (
        print_number-HasLength 13 9 2 l.hrs _ (
          print_number-HasLength 13 6 2 l.days _ (
            print_number-HasLength 13 3 2 l.months _
              (print_number-HasLength 13 0 2 l.year (some buf) first))))

    last : (o : Option (List ℕ)) → HasLength 13 o → print_number o 15 2 l.secs ≡ none
    last o k = seconds o k l.secs s
