-- ===== src/Hex.antt =====
-- include/sentinel/events/utils/hex.hpp: hex and 256-bit big-endian helpers.
-- A string is the list of its bytes, an array of bytes too; an exception is `err` with its text.
pub mod Value
pub mod Compare
pub mod Division
pub mod Decimal
pub mod Quantity
pub mod Round
pub mod Address
mod Tests
use risk_sentinel.Common.{
  ℕ, zero, suc, ◌+◌, ◌-◌, ◌*◌, ◌/◌, ◌%◌, ◌^◌, bit_or, Bool, true, false, not, ◌&&◌, ◌||◌, [], ◌∷◌,
  ◌++◌, Bytes, codes, length, take, drop, replicate, all_of, ltb, leb, ◌==◌, if◌then◌else◌,
  bytes_beq, Outcome, ok, err, ◌>>=◌, ◌>>◌, throw_if,
}
use mathlib.Core.List.{reverse}

-- `hex_nibble`; a `char` that is negative fails every range test, as a byte above 127 does here.
unfoldable pub hex_nibble : ℕ → Outcome ℕ
hex_nibble c =
    if leb b'0' c && leb c b'9'
    then ok (c - b'0')
    else if leb b'a' c && leb c b'f'
    then ok (c - b'a' + 10)
    else if leb b'A' c && leb c b'F'
    then ok (c - b'A' + 10)
    else err (codes "invalid hex character")

-- `hex.substr(0, 2) != "0x"`
unfoldable pub lacks_prefix : Bytes → Bool
unfolding bytes_beq
lacks_prefix hex = not (bytes_beq (take 2 hex) (codes "0x"))

-- One round: `val = (val << 4) | hex_nibble(hex[i])` in `uint64_t`.
unfoldable pub shift_in : ℕ → ℕ → ℕ
shift_in val nibble = bit_or (val * 16 % 2 ^ 64) nibble

unfoldable pub nibbles : ℕ → Bytes → Outcome ℕ
unfolding hex_nibble shift_in
nibbles val [] = ok val
nibbles val (c ∷ s) = do nibble ← hex_nibble c; nibbles (shift_in val nibble) s

unfoldable pub parse_hex_uint64 : Bytes → Outcome ℕ
unfolding nibbles lacks_prefix
parse_hex_uint64 hex = do
  throw_if (ltb (length hex) 3 || lacks_prefix hex) (codes "invalid hex uint64")
  nibbles 0 (drop 2 hex)

-- `out[i] = (hi << 4) | lo`, stored in a `uint8_t`.
unfoldable pub joined : ℕ → ℕ → ℕ
joined hi lo = bit_or (hi * 16) lo % 256

-- The loop of `parse_hex_bytes`: it stops where the digits or the array end, and leaves the rest.
unfoldable pub fill : Bytes → Bytes → Outcome Bytes
unfolding hex_nibble joined
fill s [] = ok []
fill [] (b ∷ out) = ok (b ∷ out)
fill (c ∷ []) (b ∷ out) = ok (b ∷ out)
fill (c ∷ d ∷ s) (b ∷ out) = do
  hi ← hex_nibble c
  lo ← hex_nibble d
  rest ← fill s out
  ok (joined hi lo ∷ rest)

-- The second argument is `out` before the call.
unfoldable pub parse_hex_bytes : Bytes → Bytes → Outcome Bytes
unfolding fill lacks_prefix
parse_hex_bytes hex out = do
  throw_if (ltb (length hex) 2 || lacks_prefix hex) (codes "invalid hex bytes")
  throw_if (not ((length hex - 2) % 2 == 0)) (codes "hex string has odd length")
  fill (drop 2 hex) out

unfoldable pub all_nibbles : Bytes → Outcome (Unit {0})
unfolding hex_nibble
all_nibbles [] = ok tt
all_nibbles (c ∷ s) = do _ ← hex_nibble c; all_nibbles s

unfoldable pub validate_hex : Bytes → Outcome (Unit {0})
unfolding all_nibbles lacks_prefix
validate_hex hex = do
  throw_if (ltb (length hex) 2 || lacks_prefix hex) (codes "Expected 0x-prefixed hex string")
  throw_if (not ((length hex - 2) % 2 == 0)) (codes "Hex string has odd length")
  all_nibbles (drop 2 hex)

-- A digit of `std::format("{:x}")` and of `snprintf("%02x")`.
unfoldable pub hex_digit : ℕ → ℕ
hex_digit d = if ltb d 10 then b'0' + d else b'a' + (d - 10)

-- The hex digits of a number before `out`, none for 0; the fuel bounds their count.
unfoldable pub hex_digits : ℕ → ℕ → Bytes → Bytes
unfolding hex_digit
hex_digits zero value out = out
hex_digits (suc fuel) value out =
    let rest = hex_digits fuel (value / 16) (hex_digit (value % 16) ∷ out) in
    if value == 0 then out else rest

-- `std::format("{:#x}", value)`: a `uint64_t` has at most sixteen digits, and 0 is written "0x0".
unfoldable pub to_hex_quantity : ℕ → Bytes
to_hex_quantity value = codes "0x" ++ (if value == 0 then b'0' ∷ [] else hex_digits 16 value [])

-- Two digits for each byte: the loop of `snprintf(buf, 3, "%02x", b)` that the rules share.
unfoldable pub hex_pairs : Bytes → Bytes
unfolding hex_digit
hex_pairs [] = []
hex_pairs (b ∷ bs) = hex_digit (b / 16) ∷ hex_digit (b % 16) ∷ hex_pairs bs

-- `result[31 - i] = (value >> (i * 8)) & 0xFF` for i below the count, the last byte lowest.
unfoldable pub low_bytes : ℕ → ℕ → Bytes
low_bytes zero value = []
low_bytes (suc i) value = (value / 2 ^ (i * 8)) % 256 ∷ low_bytes i value

unfoldable pub to_be_256 : ℕ → Bytes
unfolding low_bytes
to_be_256 value = replicate 24 0 ++ low_bytes 8 value

-- `memcmp(lhs, rhs, n) > 0`, n the bytes at hand.
unfoldable pub memcmp_gt : Bytes → Bytes → Bool
memcmp_gt [] rhs = false
memcmp_gt (a ∷ lhs) [] = false
memcmp_gt (a ∷ lhs) (b ∷ rhs) = if a == b then memcmp_gt lhs rhs else ltb b a

unfoldable pub greater_be_256 : Bytes → Bytes → Bool
unfolding memcmp_gt
greater_be_256 lhs rhs = memcmp_gt (take 32 lhs) (take 32 rhs)

-- One pass of the inner loop of `uint256_be_to_decimal`: the quotient bytes and the remainder.
unfoldable pub div_ten : ℕ → Bytes → Bytes × ℕ
div_ten remainder [] = ([], remainder)
div_ten remainder (b ∷ buffer) =
    let num = bit_or (remainder * 256) b in
    let (rest, last) = div_ten (num % 10) buffer in (num / 10 % 256 ∷ rest, last)

unfoldable pub all_zero : Bytes → Bool
all_zero = all_of (λ b. b == 0)

-- The outer loop: `result` grows at its end, and the loop ends once the quotient is zero.
unfoldable pub decimal_digits : ℕ → Bytes → Bytes → Bytes
unfolding div_ten all_zero
decimal_digits zero buffer result = result
decimal_digits (suc fuel) buffer result =
    let (buffer', remainder) = div_ten 0 buffer in
    let rest = decimal_digits fuel buffer' (result ++ (b'0' + remainder) ∷ []) in
    if all_zero buffer' then result ++ (b'0' + remainder) ∷ [] else rest

-- A 256-bit number has at most 78 decimal digits.
unfoldable pub uint256_be_to_decimal : Bytes → Bytes
unfolding decimal_digits
uint256_be_to_decimal bytes =
    let buffer = take 32 bytes in
    if all_zero buffer then codes "0" else reverse (decimal_digits 78 buffer [])

-- `result = result * 10 + carry`, from the last byte to the first: the bytes and the carry left.
unfoldable pub mul_ten : Bytes → ℕ → Bytes × ℕ
mul_ten [] carry = ([], carry)
mul_ten (b ∷ result) carry =
    let (rest, c) = mul_ten result carry in ((b * 10 + c) % 256 ∷ rest, (b * 10 + c) / 256)

unfoldable pub read_decimal : Bytes → Bytes → Outcome Bytes
unfolding mul_ten
read_decimal result [] = ok result
read_decimal result (c ∷ decimal) = do
  throw_if (ltb c b'0' || ltb b'9' c) (codes "invalid decimal digit")
  let next = mul_ten result (c - b'0')
  throw_if (ltb 0 next.1) (codes "decimal string too large for 256-bit int")
  read_decimal next.0 decimal

unfoldable pub decimal_to_be_256 : Bytes → Outcome Bytes
unfolding read_decimal
decimal_to_be_256 decimal = read_decimal (replicate 32 0) decimal
