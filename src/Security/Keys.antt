-- ===== src/Security/Keys.antt =====
-- About src/security/crypto.cpp: the master key and its digits.
use risk_sentinel.Common.{
  ℕ, ◌-◌, ◌*◌, ◌/◌, ◌%◌, ◌<◌, ◌≡◌, refl, [], ◌∷◌, Bytes, AreBytes, IsArray, length, arith, ok,
  bind-ok, throw_if-ok, not, ◌==◌, false, ◌>>=◌, ok-injective, subst,
}
use risk_sentinel.Hex.{hex_digit, hex_pairs, joined}
use risk_sentinel.Hex.Quantity.{joined_lem, length-hex_pairs}
use risk_sentinel.Security.{bytes_to_hex, key_nibble, key_bytes, parse_master_key_hex}

key_nibble-hex_digit : (d : ℕ) → d < 16 → key_nibble (hex_digit d) ≡ ok d
unfolding key_nibble hex_digit
key_nibble-hex_digit d h = ground arith

key_bytes-hex_pairs : (bs : Bytes) → AreBytes bs → key_bytes (hex_pairs bs) ≡ ok bs
unfolding key_bytes hex_pairs
key_bytes-hex_pairs [] h = refl
key_bytes-hex_pairs (b ∷ bs) h = rw (
  key_nibble-hex_digit (b / 16) (omega (arith, h.0)),
  key_nibble-hex_digit (b % 16) (omega arith),
  key_bytes-hex_pairs bs h.1,
  joined_lem b h.0,
)

-- A master key of 32 bytes that is printed in hex is read back.
pub parse_master_key_hex-bytes_to_hex :
    (key : Bytes) → IsArray 32 key → parse_master_key_hex (bytes_to_hex key) ≡ ok key
unfolding parse_master_key_hex bytes_to_hex
parse_master_key_hex-bytes_to_hex key h =
    let len : length (hex_pairs key) ≡ 64 = omega (arith, length-hex_pairs key, h.1) in
    rw len (key_bytes-hex_pairs key h.0)

key_bytes-length :
    (n : ℕ) (hex key : Bytes) → length hex ≡ 2 * n → key_bytes hex ≡ ok key → length key ≡ n
unfolding key_bytes
key_bytes-length n [] key l h = subst (λ k. length k ≡ n) (ok-injective [] key h) (omega (arith, l))
key_bytes-length n (c ∷ []) key l h = absurd (omega (arith, l))
key_bytes-length n (c ∷ d ∷ hex) key l h =
    let (hi, _, h1) =
      bind-ok (key_nibble c)
        (λ (hi : ℕ). do lo ← key_nibble d; rest ← key_bytes hex; ok (joined hi lo ∷ rest)) key h in
    let (lo, _, h2) =
      bind-ok (key_nibble d) (λ (lo : ℕ). do rest ← key_bytes hex; ok (joined hi lo ∷ rest)) key
        h1 in
    let (rest, e, h3) =
      bind-ok (key_bytes hex) (λ (rest : Bytes). ok (joined hi lo ∷ rest)) key h2 in
    let shorter = key_bytes-length (n - 1) hex rest (omega (arith, l)) e in
    subst (λ k. length k ≡ n) (ok-injective (joined hi lo ∷ rest) key h3)
      (omega (arith, l, shorter))

sized : (n : ℕ) → not (n == 64) ≡ false → n ≡ 64
sized n h = ground arith

-- A key that is accepted has 32 bytes.
pub parse_master_key_hex-length :
    (hex key : Bytes) → parse_master_key_hex hex ≡ ok key → length key ≡ 32
unfolding parse_master_key_hex
parse_master_key_hex-length hex key h =
    let (size, read) = throw_if-ok (not (length hex == 64)) _ (key_bytes hex) key h in
    key_bytes-length 32 hex key (sized (length hex) size) read
