-- ===== src/Hex/Tests.antt =====
-- hex.hpp on concrete words, digits and quantities.
use risk_sentinel.Common.{
  ◌≡◌, refl, [], ◌∷◌, ◌++◌, Bytes, codes, AreBytes, IsArray, All, length, arith, ok, err, take,
  replicate, IsArray-all_of,
}
use risk_sentinel.Common.Digits.{IsDigit, decimal_value}
use risk_sentinel.Hex.{
  hex_nibble, parse_hex_uint64, nibbles, shift_in, lacks_prefix, to_hex_quantity, hex_digits,
  validate_hex, all_nibbles, uint256_be_to_decimal, decimal_digits, div_ten, all_zero,
  decimal_to_be_256, read_decimal, mul_ten, to_be_256, low_bytes,
}
use risk_sentinel.Hex.Value.{be_value}
use risk_sentinel.Hex.Decimal.{decimal_to_be_256_sound, decimal_to_be_256_complete}
use risk_sentinel.Hex.Round.{decimal_to_be_256-uint256_be_to_decimal}

-- The words of 513 and of 1000.
abbrev w513 : Bytes
w513 = replicate 30 0 ++ 2 ∷ 1 ∷ []

abbrev w1000 : Bytes
w1000 = replicate 30 0 ++ 3 ∷ 232 ∷ []

w513-IsArray : IsArray 32 w513
w513-IsArray = IsArray-all_of 32 w513 refl refl

w1000-IsArray : IsArray 32 w1000
w1000-IsArray = IsArray-all_of 32 w1000 refl refl

print_513 : uint256_be_to_decimal w513 ≡ codes "513"
unfolding uint256_be_to_decimal decimal_digits div_ten all_zero
print_513 = refl

read_1000 : decimal_to_be_256 (codes "1000") ≡ ok w1000
unfolding decimal_to_be_256 read_decimal mul_ten
read_1000 = refl

read_bad : decimal_to_be_256 (codes "1-") ≡ err (codes "invalid decimal digit")
unfolding decimal_to_be_256 read_decimal mul_ten
read_bad = refl

quantity_513 : to_hex_quantity 513 ≡ codes "0x201"
unfolding to_hex_quantity hex_digits
quantity_513 = refl

parse_upper : parse_hex_uint64 (codes "0xFf") ≡ ok 255
unfolding parse_hex_uint64 nibbles hex_nibble shift_in lacks_prefix
parse_upper = refl

odd : validate_hex (codes "0x123") ≡ err (codes "Hex string has odd length")
unfolding validate_hex all_nibbles hex_nibble lacks_prefix
odd = refl

be_513 : to_be_256 513 ≡ w513
unfolding to_be_256 low_bytes
be_513 = refl

decimal_to_be_256_sound_example :
    All IsDigit (codes "1000")
    × (be_value w1000 ≡ decimal_value 0 (codes "1000"))
    × (length w1000 ≡ 32)
    × AreBytes w1000
decimal_to_be_256_sound_example = decimal_to_be_256_sound (codes "1000") w1000 read_1000

decimal_to_be_256_complete_example : (r : Bytes) × (decimal_to_be_256 (codes "42") ≡ ok r)
decimal_to_be_256_complete_example =
    decimal_to_be_256_complete (codes "42")
      ((omega arith, omega arith), ((omega arith, omega arith), tt)) (omega arith)

decimal_round_example : decimal_to_be_256 (uint256_be_to_decimal w513) ≡ ok (take 32 w513)
decimal_round_example = decimal_to_be_256-uint256_be_to_decimal w513 w513-IsArray.0 refl
