-- ===== src/Hex/Decimal.antt =====
-- About include/sentinel/events/utils/hex.hpp: reading a decimal number.
use risk_sentinel.Common.{
  ℕ, zero, suc, ◌+◌, ◌-◌, ◌*◌, ◌^◌, ◌≤◌, ◌<◌, ◌≡◌, refl, [], ◌∷◌, Bytes, AreBytes, All, length,
  arith, ap, ok, replicate,
}
use native.Mathlib.Decide.{dec_lt}
use risk_sentinel.Common.Digits.{IsDigit, decimal_value, le-decimal_value}
use risk_sentinel.Hex.{mul_ten, read_decimal, decimal_to_be_256}
use risk_sentinel.Hex.Value.{be_value}
use risk_sentinel.Hex.Division.{mul_ten_lem, length-mul_ten, mul_ten-AreBytes}

carry_over : (c p w n : ℕ) → 0 < c → c * p + w ≡ n → p ≤ n
carry_over c p w n h e = grind arith

-- No carry is left where the product fits, and then the bytes hold it.
mul_ten_fits :
    (result : Bytes) (d : ℕ)
    → be_value result * 10 + d < 256 ^ length result
    → ((mul_ten result d).1 ≡ 0) × (be_value (mul_ten result d).0 ≡ be_value result * 10 + d)
mul_ten_fits result d h = elim (dec_lt 0 (mul_ten result d).1) [
  | yes p ↦ absurd (omega (arith, carry_over _ _ _ _ p (mul_ten_lem result d)))
  | no p ↦ none_left (mul_ten result d).1 (omega arith) (mul_ten_lem result d)
]
  where
    none_left :
        (c : ℕ)
        → c ≡ 0
        → c * 256 ^ length result + be_value (mul_ten result d).0 ≡ be_value result * 10 + d
        → (c ≡ 0) × (be_value (mul_ten result d).0 ≡ be_value result * 10 + d)
    none_left c z e = (z, omega (arith, e, ap (λ t. t * 256 ^ length result) z))

-- A carry of zero means that the bytes hold the product.
mul_ten_exact :
    (result : Bytes) (d : ℕ)
    → (mul_ten result d).1 ≡ 0
    → be_value (mul_ten result d).0 ≡ be_value result * 10 + d
mul_ten_exact result d z = omega (arith, mul_ten_lem result d, ap (λ t. t * 256 ^ length result) z)

read_decimal_fits :
    (result decimal : Bytes)
    → All IsDigit decimal
    → decimal_value (be_value result) decimal < 256 ^ length result
    → (r : Bytes) × (read_decimal result decimal ≡ ok r)
unfolding read_decimal
read_decimal_fits result [] h lt = (result, refl)
read_decimal_fits result (c ∷ decimal) h lt =
    let d = c - b'0' in
    let fits =
      mul_ten_fits result d (omega (arith, le-decimal_value (be_value result * 10 + d) decimal)) in
    let (r, e) =
      read_decimal_fits (mul_ten result d).0 decimal h.1
        (rw (fits.1, length-mul_ten result d) lt) in
    (r, ground (arith, e, fits.0, h.0))

read_decimal_sound :
    (result decimal r : Bytes)
    → AreBytes result
    → read_decimal result decimal ≡ ok r
    → All IsDigit decimal
      × (be_value r ≡ decimal_value (be_value result) decimal)
      × (length r ≡ length result)
      × AreBytes r
unfolding read_decimal
read_decimal_sound result [] r hb h = ground arith
read_decimal_sound result (c ∷ decimal) r hb h =
    let d = c - b'0' in
    ground (
      arith,
      read_decimal_sound (mul_ten result d).0 decimal r (mul_ten-AreBytes result d),
      mul_ten_exact result d,
      length-mul_ten result d,
    )

zeros-AreBytes : (n : ℕ) → AreBytes (replicate n 0)
zeros-AreBytes zero = tt
zeros-AreBytes (suc n) = (omega arith, zeros-AreBytes n)

-- What `decimal_to_be_256` accepts is a string of digits, and the 32 bytes that it returns stand
-- for the number that the digits spell: nothing wraps around.
pub decimal_to_be_256_sound :
    (decimal r : Bytes)
    → decimal_to_be_256 decimal ≡ ok r
    → All IsDigit decimal × (be_value r ≡ decimal_value 0 decimal) × (length r ≡ 32) × AreBytes r
unfolding decimal_to_be_256
decimal_to_be_256_sound decimal r h =
    read_decimal_sound (replicate 32 0) decimal r (zeros-AreBytes 32) h

-- Every string of digits that spells a number below 2 ^ 256 is accepted.
pub decimal_to_be_256_complete :
    (decimal : Bytes)
    → All IsDigit decimal
    → decimal_value 0 decimal < 2 ^ 256
    → (r : Bytes) × (decimal_to_be_256 decimal ≡ ok r)
unfolding decimal_to_be_256
decimal_to_be_256_complete decimal h lt = read_decimal_fits (replicate 32 0) decimal h lt
