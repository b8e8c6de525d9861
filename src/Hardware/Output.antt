-- ===== src/Hardware/Output.antt =====
-- The part of Utilities/Print.h and Print.cpp that is code: how texts, lines and numbers are put out.
use dread.Base.{
  ℕ, zero, suc, ◌+◌, ◌-◌, ◌/◌, ◌*◌, ◌<◌, ◌≡◌, refl, List, [], ◌∷◌, ◌++◌, ◌!=◌, u8, if◌then◌else◌,
  take, arith, ap, sym, map, append_assoc, append-nil, ◌∙◌, ◌^◌, ℕ_discrete, !=_true, !=_false,
}
use native.Mathlib.Nat.{pow-suc}
use dread.Hardware.{World, Port, Effect, wrote, write, write_block}

-- `write(const char *)` puts out `sizeof(str)` bytes, the size of a pointer: 2 on the ATmega328P.
abbrev pub write_text : Port → List ℕ → World → World
write_text p s w = write_block p (take 2 s) w

-- `'\r'` and `'\n'`
abbrev pub println : Port → World → World
println p w = write p 10 (write p 13 w)

-- The bytes one by one: the default `write(buffer, size)`, and the loops that do the same.
unfoldable pub write_each : Port → List ℕ → World → World
write_each p [] w = w
write_each p (b ∷ bs) w = write_each p bs (write p b w)

-- The effects of these bytes, in order.
abbrev pub bytes_to : Port → List ℕ → List Effect
bytes_to p bs = map (λ b. wrote p (u8 b)) bs

pub trace-write_each :
    (p : Port) (bs : List ℕ) (w : World) → (write_each p bs w).trace ≡ w.trace ++ bytes_to p bs
unfolding write_each
trace-write_each p [] w = sym (append-nil w.trace)
trace-write_each p (b ∷ bs) w = trace-write_each p bs (write p b w) ∙ append_assoc w.trace _ _

-- The `while (n)` loop of `printNumber`: the digits that stand in `str` from `index + 1` on. The
-- subtraction cannot go below 0. Fuel 10 is the size of `str`.
unfoldable pub digits_from : ℕ → ℕ → ℕ → List ℕ → List ℕ
digits_from zero n base ds = ds
digits_from (suc fuel) n base ds =
    let more = digits_from fuel (n / base) base (u8 (n - n / base * base) ∷ ds) in
    if n != 0 then more else ds

abbrev pub ascii_digits : List ℕ → List ℕ
ascii_digits [] = []
ascii_digits (d ∷ ds) = u8 (d + 48) ∷ ascii_digits ds

unfoldable pub print_number : Port → ℕ → World → World
print_number p n w = write_each p (ascii_digits (digits_from 10 n 10 [])) w

abbrev pub value : List ℕ → ℕ → ℕ
value [] acc = acc
value (d ∷ ds) acc = value ds (acc * 10 + d)

value_digits :
    (fuel n : ℕ) (ds : List ℕ) → n < 10 ^ fuel → value (digits_from fuel n 10 ds) 0 ≡ value ds n
unfolding digits_from
value_digits zero n ds h = ap (value ds) (omega arith)
value_digits (suc fuel) n ds h = elim (ℕ_discrete n 0) [
  | yes z ↦ rw (z) refl
  | no nz ↦ rw (!=_true nz) (
      value_digits fuel (n / 10) (u8 (n - n / 10 * 10) ∷ ds) (below (10 ^ fuel) (simp pow-suc at h))
      ∙ ap (value ds) (omega arith))
]
  where
    below : (b : ℕ) → n < b * 10 → n / 10 < b
    below b l = omega arith

abbrev pub IsDigits : List ℕ → Type 0
IsDigits [] = Unit {0}
IsDigits (d ∷ ds) = (d < 10) × IsDigits ds

digits_from-IsDigits :
    (fuel n : ℕ) (ds : List ℕ) → IsDigits ds → IsDigits (digits_from fuel n 10 ds)
unfolding digits_from
digits_from-IsDigits zero n ds h = h
digits_from-IsDigits (suc fuel) n ds h = elim (ℕ_discrete n 0) [
  | yes z ↦ rw (!=_false z) h
  | no nz ↦ rw (!=_true nz) (digits_from-IsDigits fuel (n / 10) _ (omega arith, h))
]

ascii_digits-wrote :
    (p : Port) (ds : List ℕ)
    → IsDigits ds
    → bytes_to p (ascii_digits ds) ≡ map (λ d. wrote p (b'0' + d)) ds
ascii_digits-wrote p [] h = refl
ascii_digits-wrote p (d ∷ ds) (l, h) =
    let e : u8 (u8 (d + 48)) ≡ b'0' + d = omega (arith, l) in rw (e, ascii_digits-wrote p ds h) refl

-- What `printNumber` puts out in base 10 are the bytes of decimal digits, in order and nothing else, which
-- read back as the number, for every `uint32_t`; for 0 there is no digit, and nothing is put out.
pub print_number-decimal :
    (p : Port) (n : ℕ) (w : World)
    → n < 2 ^ 32
    → (ds : List ℕ) × IsDigits ds
      × (value ds 0 ≡ n)
      × ((n ≡ 0) → ds ≡ [])
      × ((print_number p n w).trace ≡ w.trace ++ map (λ d. wrote p (b'0' + d)) ds)
unfolding print_number digits_from
print_number-decimal p n w h =
    let ds = digits_from 10 n 10 [] in
    let all = digits_from-IsDigits 10 n [] tt in
    (
      ds,
      all,
      value_digits 10 n [] (omega arith),
      none_of n,
      trace-write_each p (ascii_digits ds) w ∙ ap (λ l. w.trace ++ l) (ascii_digits-wrote p ds all),
    )
  where
    none_of : (n : ℕ) → n ≡ 0 → digits_from 10 n 10 [] ≡ []
    none_of n e = rw e refl
