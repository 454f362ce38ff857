-- ===== src/Hex/Quantity.antt =====
-- Hex round trips: quantities (`uint64_t`) and byte arrays.
use risk_sentinel.Common.{
  ℕ, zero, suc, ◌+◌, ◌*◌, ◌/◌, ◌%◌, ◌^◌, ◌≤◌, ◌<◌, ◌≡◌, refl, [], ◌∷◌, ◌++◌, Bytes, AreBytes,
  length, arith, ap, ◌==◌, ok, codes, Bool-cases, inl, inr, ◌∙◌, ◌≢◌, sym, ==_iff,
}
use native.Mathlib.Nat.{pow-suc}
use risk_sentinel.Common.Bits.{bit_or_nibble}
use risk_sentinel.Hex.{
  hex_nibble, hex_digit, hex_digits, shift_in, nibbles, parse_hex_uint64, to_hex_quantity, joined,
  fill, hex_pairs, parse_hex_bytes,
}

pub hex_nibble-hex_digit : (d : ℕ) → d < 16 → hex_nibble (hex_digit d) ≡ ok d
unfolding hex_nibble hex_digit
hex_nibble-hex_digit d h = ground arith

shift_in_lem : (v d : ℕ) → v < 2 ^ 60 → d < 16 → shift_in v d ≡ v * 16 + d
unfolding shift_in
shift_in_lem v d hv hd =
    let small : v * 16 % 2 ^ 64 ≡ v * 16 = omega arith in rw small (bit_or_nibble v d hd)

nibbles_last :
    (n : ℕ) (out : Bytes) → n < 2 ^ 64 → nibbles (n / 16) (hex_digit (n % 16) ∷ out) ≡ nibbles n out
unfolding nibbles
nibbles_last n out h = rw (hex_nibble-hex_digit (n % 16) (omega arith)) (
    ap (λ m. nibbles m out)
      (shift_in_lem (n / 16) (n % 16) (omega arith) (omega arith) ∙ omega arith))

-- Reading the last digit of `n` after the digits before it gives `n`.
nibbles-hex_digits :
    (fuel n : ℕ) (out : Bytes)
    → n < 16 ^ fuel
    → n < 2 ^ 64
    → nibbles 0 (hex_digits fuel n out) ≡ nibbles n out
unfolding hex_digits
nibbles-hex_digits zero n out h fits = ap (λ m. nibbles m out) (omega arith)
nibbles-hex_digits (suc fuel) n out h fits = elim (Bool-cases (n == 0)) [
  | inl z ↦ rw z (ap (λ m. nibbles m out) (sym ((==_iff n 0).0 z)))
  | inr z ↦ rw z (
      nibbles-hex_digits fuel (n / 16) (hex_digit (n % 16) ∷ out) (omega (arith, pow-suc 16 fuel))
        (omega arith)
      ∙ nibbles_last n out fits)
]

le-length-hex_digits : (fuel n : ℕ) (out : Bytes) → length out ≤ length (hex_digits fuel n out)
unfolding hex_digits
le-length-hex_digits zero n out = omega arith
le-length-hex_digits (suc fuel) n out =
    ground (arith, le-length-hex_digits fuel (n / 16) (hex_digit (n % 16) ∷ out))

hex_digits-pos : (n : ℕ) → n ≢ 0 → 0 < length (hex_digits 16 n [])
unfolding hex_digits
hex_digits-pos n h = ground (arith, le-length-hex_digits 15 (n / 16) (hex_digit (n % 16) ∷ []))

parse_hex_uint64-prefix :
    (s : Bytes) → 0 < length s → parse_hex_uint64 (codes "0x" ++ s) ≡ nibbles 0 s
unfolding parse_hex_uint64
parse_hex_uint64-prefix s h = ground arith

zero_read : (v : ℕ) → v ≡ 0 → parse_hex_uint64 (codes "0x0") ≡ ok v
unfolding parse_hex_uint64
zero_read v e = rw e

-- A quantity of 64 bits that is written by `to_hex_quantity` is read back by `parse_hex_uint64`.
pub parse_hex_uint64-to_hex_quantity :
    (value : ℕ) → value < 2 ^ 64 → parse_hex_uint64 (to_hex_quantity value) ≡ ok value
unfolding to_hex_quantity nibbles
parse_hex_uint64-to_hex_quantity value h = elim (Bool-cases (value == 0)) [
  | inl z ↦ rw z (zero_read value ((==_iff value 0).0 z))
  | inr z ↦ rw z (
      parse_hex_uint64-prefix (hex_digits 16 value []) (hex_digits-pos value (ground arith))
      ∙ nibbles-hex_digits 16 value [] (omega arith) h)
]

pub joined_lem : (b : ℕ) → b < 256 → joined (b / 16) (b % 16) ≡ b
unfolding joined
joined_lem b h = omega (arith, bit_or_nibble (b / 16) (b % 16) (omega arith))

fill-hex_pairs :
    (bs out : Bytes) → AreBytes bs → length bs ≡ length out → fill (hex_pairs bs) out ≡ ok bs
unfolding fill hex_pairs
fill-hex_pairs [] [] h n = refl
fill-hex_pairs [] (o ∷ out) h n = absurd (omega arith)
fill-hex_pairs (b ∷ bs) [] h n = absurd (omega arith)
fill-hex_pairs (b ∷ bs) (o ∷ out) h n = rw (
  hex_nibble-hex_digit (b / 16) (omega arith),
  hex_nibble-hex_digit (b % 16) (omega arith),
  fill-hex_pairs bs out h.1 (omega arith),
  joined_lem b h.0,
)

pub length-hex_pairs : (bs : Bytes) → length (hex_pairs bs) ≡ 2 * length bs
unfolding hex_pairs
length-hex_pairs [] = omega arith
length-hex_pairs (b ∷ bs) = omega (arith, length-hex_pairs bs)

-- An address or hash printed with two digits a byte is read back by `parse_hex_bytes` into an
-- array of its length, whatever the array held before.
pub parse_hex_bytes-hex_pairs :
    (bs out : Bytes)
    → AreBytes bs
    → length bs ≡ length out
    → parse_hex_bytes (codes "0x" ++ hex_pairs bs) out ≡ ok bs
unfolding parse_hex_bytes
parse_hex_bytes-hex_pairs bs out h n =
    ground (arith, length-hex_pairs bs, fill-hex_pairs bs out h n)
