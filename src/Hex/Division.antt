-- ===== src/Hex/Division.antt =====
-- The two passes over a 256-bit number: division by ten, and multiplication by ten with a carry.
use risk_sentinel.Common.{
  ℕ, suc, ◌+◌, ◌*◌, ◌/◌, ◌%◌, ◌^◌, ◌<◌, ◌≡◌, refl, [], ◌∷◌, Bytes, AreBytes, length, arith, ap,
  bit_or,
}
use native.Mathlib.Nat.{pow-suc}
use risk_sentinel.Common.Bits.{bit_or_byte}
use risk_sentinel.Hex.{div_ten, mul_ten}
use risk_sentinel.Hex.Value.{be_value}

pub length-div_ten : (r : ℕ) (buffer : Bytes) → length (div_ten r buffer).0 ≡ length buffer
unfolding div_ten
length-div_ten r [] = refl
length-div_ten r (b ∷ buffer) = ap suc (length-div_ten (bit_or (r * 256) b % 10) buffer)

pub div_ten-AreBytes : (r : ℕ) (buffer : Bytes) → AreBytes (div_ten r buffer).0
unfolding div_ten
div_ten-AreBytes r [] = tt
div_ten-AreBytes r (b ∷ buffer) = (omega arith, div_ten-AreBytes (bit_or (r * 256) b % 10) buffer)

div_head :
    (r b p v w last : ℕ)
    → (r * 256 + b) % 10 * p + v ≡ w * 10 + last
    → r * (p * 256) + (b * p + v) ≡ ((r * 256 + b) / 10 * p + w) * 10 + last
div_head r b p v w last h =
    let split : (r * 256 + b) / 10 * 10 + (r * 256 + b) % 10 ≡ r * 256 + b = omega arith in
    omega (arith, h, ap (λ n. n * p) split)

-- Schoolbook division: remainder and bytes on the left, quotient and remainder on the right.
pub div_ten_lem :
    (r : ℕ) (buffer : Bytes)
    → r < 10
    → AreBytes buffer
    → (r * 256 ^ length buffer + be_value buffer
        ≡ be_value (div_ten r buffer).0 * 10 + (div_ten r buffer).1)
      × ((div_ten r buffer).1 < 10)
unfolding div_ten
div_ten_lem r [] hr hb = (omega arith, hr)
div_ten_lem r (b ∷ buffer) hr hb =
    let n = (r * 256 + b) % 10 in
    let ih = div_ten_lem n buffer (omega arith) hb.1 in
    let small : (r * 256 + b) / 10 % 256 ≡ (r * 256 + b) / 10 = omega arith in
    rw (bit_or_byte r b hb.0, length-div_ten n buffer, pow-suc 256 (length buffer), small)
      (div_head r b (256 ^ length buffer) _ _ _ ih.0, ih.1)

pub length-mul_ten : (result : Bytes) (carry : ℕ) → length (mul_ten result carry).0 ≡ length result
unfolding mul_ten
length-mul_ten [] carry = refl
length-mul_ten (b ∷ result) carry = ap suc (length-mul_ten result carry)

pub mul_ten-AreBytes : (result : Bytes) (carry : ℕ) → AreBytes (mul_ten result carry).0
unfolding mul_ten
mul_ten-AreBytes [] carry = tt
mul_ten-AreBytes (b ∷ result) carry = (omega arith, mul_ten-AreBytes result carry)

mul_head :
    (b c p v w carry : ℕ)
    → c * p + w ≡ v * 10 + carry
    → (b * 10 + c) / 256 * (p * 256) + ((b * 10 + c) % 256 * p + w) ≡ (b * p + v) * 10 + carry
mul_head b c p v w carry h =
    let split : (b * 10 + c) / 256 * 256 + (b * 10 + c) % 256 ≡ b * 10 + c = omega arith in
    omega (arith, h, ap (λ n. n * p) split)

-- Multiplication by ten: the carry that leaves stands above the bytes.
pub mul_ten_lem :
    (result : Bytes) (carry : ℕ)
    → (mul_ten result carry).1 * 256 ^ length result + be_value (mul_ten result carry).0
      ≡ be_value result * 10 + carry
unfolding mul_ten
mul_ten_lem [] carry = omega arith
mul_ten_lem (b ∷ result) carry =
    rw (length-mul_ten result carry, pow-suc 256 (length result))
      (mul_head b (mul_ten result carry).1 (256 ^ length result) _ _ carry
        (mul_ten_lem result carry))
