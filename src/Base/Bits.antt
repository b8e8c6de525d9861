-- ===== src/Base/Bits.antt =====
-- Tests of every number below a bound, and masks of low bits, from the digits that the native operations
-- stand for.
use Prim.Native.Nat.{
  ℕ, zero, suc, ◌+◌, ◌*◌, ◌/◌, ◌%◌, ◌≤◌, ◌<◌, min, bit_and, digits, bit_and-bitwise,
}
use mathlib.Core.Path.{◌≡◌, refl, sym, ap, ◌∙◌}
use mathlib.Core.Bool.{Bool, true, ◌&&◌}
use native.Mathlib.Omega.{arith}

unfoldable pub for_all_below : ℕ → (ℕ → Bool) → Bool
for_all_below zero test = true
for_all_below (suc bound) test = for_all_below bound test && test bound

pub for_all_below_lem :
    (bound : ℕ) (test : ℕ → Bool) (n : ℕ)
    → for_all_below bound test ≡ true
    → n < bound
    → test n ≡ true
unfolding for_all_below
for_all_below_lem zero test n all l = absurd (omega arith)
for_all_below_lem (suc bound) test n all l = ground (arith, for_all_below_lem bound test n)

-- For any operation on digits: how many digits are allowed does not matter once they are enough.
module _ (z : ℕ → ℕ) (f : ℕ → ℕ → ℕ) where
  digits_out : (n b : ℕ) → digits z f n 0 b ≡ z b
  digits_out zero b = refl
  digits_out (suc n) b = refl

  digits_enough : (a n m b : ℕ) → a ≤ n → a ≤ m → digits z f n a b ≡ digits z f m a b
  digits_enough zero n m b p q = digits_out n b ∙ sym (digits_out m b)
  digits_enough (suc a) zero m b p q = absurd (omega arith)
  digits_enough (suc a) (suc n) zero b p q = absurd (omega arith)
  digits_enough (suc a) (suc n) (suc m) b p q =
      ap (λ d. d * 2 + f (suc a % 2) (b % 2))
        (digits_enough (suc a / 2) n m (b / 2) (omega arith) (omega arith))

  -- The lowest digit apart from the others.
  digits_split :
      (a b : ℕ)
      → digits z f (suc a) (suc a) b
        ≡ digits z f (suc a / 2) (suc a / 2) (b / 2) * 2 + f (suc a % 2) (b % 2)
  digits_split a b =
      ap (λ d. d * 2 + f (suc a % 2) (b % 2))
        (digits_enough (suc a / 2) a (suc a / 2) (b / 2) (omega arith) (omega arith))

pub bit_and-digit : (a b : ℕ) → bit_and a b ≡ bit_and (a / 2) (b / 2) * 2 + min (a % 2) (b % 2)
bit_and-digit zero b = omega (arith, bit_and-bitwise 0 b, bit_and-bitwise 0 (b / 2))
bit_and-digit (suc a) b = omega (
  arith,
  digits_split (λ x. zero) min a b,
  bit_and-bitwise (suc a) b,
  bit_and-bitwise (suc a / 2) (b / 2),
)

digits-min-zero : (n a : ℕ) → digits (λ x. zero) min n a 0 ≡ 0
digits-min-zero zero a = refl
digits-min-zero (suc n) zero = refl
digits-min-zero (suc n) (suc a) = omega (arith, digits-min-zero n (suc a / 2))

bit_and_clear : (a : ℕ) → bit_and a 0 ≡ 0
bit_and_clear a = bit_and-bitwise a 0 ∙ digits-min-zero a a

-- One digit more in a mask of low bits.
pub mask_more : (a k : ℕ) → bit_and a (k * 2 + 1) ≡ bit_and (a / 2) k * 2 + a % 2
mask_more a k =
    let half : (k * 2 + 1) / 2 ≡ k = omega arith in
    omega (arith, bit_and-digit a (k * 2 + 1), ap (bit_and (a / 2)) half)

pub mask_three : (a : ℕ) → bit_and a 7 ≡ a % 8
mask_three a =
    let b = a / 2 in
    let c = b / 2 in
    omega (arith, mask_more a 3, mask_more b 1, mask_more c 0, bit_and_clear (c / 2))

mask_six : (a : ℕ) → bit_and a 63 ≡ a % 64
mask_six a =
    let b = a / 2 in
    let c = b / 2 in
    omega (arith, mask_more a 31, mask_more b 15, mask_more c 7, mask_three (c / 2))

-- The mask of the slave's record book, `REG_LIMIT - 1`.
pub mask_nine : (a : ℕ) → bit_and a 511 ≡ a % 512
mask_nine a =
    let b = a / 2 in
    let c = b / 2 in
    omega (arith, mask_more a 255, mask_more b 127, mask_more c 63, mask_six (c / 2))
