-- ===== src/Common/Bits.antt =====
-- `|` of a shifted word and a value in the cleared low bits is `+`; shifts written as products.
use Prim.Native.Nat.{
  ℕ, zero, suc, ◌+◌, ◌*◌, ◌/◌, ◌%◌, ◌≤◌, ◌<◌, ◌^◌, max, bit_or, digits, bit_or-bitwise,
}
use mathlib.Core.Path.{◌≡◌, refl, sym, ap, ◌∙◌}
use native.Mathlib.Nat.{pow-suc, mul_assoc, mul-one, add-zero}
use native.Mathlib.Omega.{arith}

abbrev or_digits : ℕ → ℕ → ℕ → ℕ
or_digits n a b = digits (λ b. b) max n a b

or_digits_fuel : (n m a b : ℕ) → a ≤ n → a ≤ m → or_digits n a b ≡ or_digits m a b
or_digits_fuel zero zero a b p q = refl
or_digits_fuel zero (suc m) zero b p q = refl
or_digits_fuel zero (suc m) (suc a) b p q = absurd (omega arith)
or_digits_fuel (suc n) zero zero b p q = refl
or_digits_fuel (suc n) zero (suc a) b p q = absurd (omega arith)
or_digits_fuel (suc n) (suc m) zero b p q = refl
or_digits_fuel (suc n) (suc m) (suc a) b p q =
    omega (arith, or_digits_fuel n m (suc a / 2) (b / 2) (omega arith) (omega arith))

zero-bit_or : (b : ℕ) → bit_or 0 b ≡ b
zero-bit_or b = bit_or-bitwise 0 b

bit_or_step : (a b : ℕ) → bit_or a b ≡ bit_or (a / 2) (b / 2) * 2 + max (a % 2) (b % 2)
bit_or_step zero b = omega (arith, zero-bit_or b, zero-bit_or (b / 2))
bit_or_step (suc a) b = omega (
  arith,
  bit_or-bitwise (suc a) b,
  bit_or-bitwise (suc a / 2) (b / 2),
  or_digits_fuel a (suc a / 2) (suc a / 2) (b / 2) (omega arith) (omega arith),
)

bit_or-zero_fuel : (n a : ℕ) → a ≤ n → bit_or a 0 ≡ a
bit_or-zero_fuel n zero h = refl
bit_or-zero_fuel zero (suc a) h = absurd (omega arith)
bit_or-zero_fuel (suc n) (suc a) h =
    omega (arith, bit_or_step (suc a) 0, bit_or-zero_fuel n (suc a / 2) (omega arith))

bit_or-zero : (a : ℕ) → bit_or a 0 ≡ a
bit_or-zero a = bit_or-zero_fuel a a (omega arith)

bit_or_double : (a d : ℕ) → bit_or a (d / 2) ≡ a + d / 2 → bit_or (a * 2) d ≡ a * 2 + d
bit_or_double a d h = omega (arith, bit_or_step (a * 2) d, ap (λ x. bit_or x (d / 2)) (half a), h)
  where
    half : (x : ℕ) → x * 2 / 2 ≡ x
    half x = omega arith

pub bit_or-shift : (k a d : ℕ) → d < 2 ^ k → bit_or (a * 2 ^ k) d ≡ a * 2 ^ k + d
bit_or-shift zero a d h = rw (mul-one, zero_of d h) (bit_or-zero a ∙ sym (add-zero a))
  where
    zero_of : (x : ℕ) → x < 2 ^ zero → x ≡ 0
    zero_of x p = omega arith
bit_or-shift (suc k) a d h =
    rw (pow-suc 2 k, ← mul_assoc a (2 ^ k) 2)
      (bit_or_double (a * 2 ^ k) d (bit_or-shift k a (d / 2) (omega (arith, pow-suc 2 k))))

-- A hex digit behind a word that was shifted by four.
pub bit_or_nibble : (a d : ℕ) → d < 16 → bit_or (a * 16) d ≡ a * 16 + d
bit_or_nibble a d h = bit_or-shift 4 a d h

-- A byte behind a word that was shifted by eight.
pub bit_or_byte : (a d : ℕ) → d < 256 → bit_or (a * 256) d ≡ a * 256 + d
bit_or_byte a d h = bit_or-shift 8 a d h
