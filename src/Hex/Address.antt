-- ===== src/Hex/Address.antt =====
-- About include/sentinel/events/utils/hex.hpp: digits in lower case that were checked are read, and
-- printed again as they were.
use risk_sentinel.Common.{
  ℕ, suc, ◌+◌, ◌*◌, ◌/◌, ◌%◌, ◌<◌, ◌≡◌, refl, ap, [], ◌∷◌, ◌++◌, Bytes, codes, All, IsArray, length,
  arith, ok, bind-ok, false, bytes_beq,
}
use risk_sentinel.Common.Lower.{NotUpper}
use risk_sentinel.Common.Bits.{bit_or_nibble}
use risk_sentinel.Hex.{
  hex_nibble, hex_digit, hex_pairs, joined, fill, all_nibbles, parse_hex_bytes, validate_hex,
  lacks_prefix,
}

hex_nibble_digit : (c d : ℕ) → hex_nibble c ≡ ok d → NotUpper c → (d < 16) × (hex_digit d ≡ c)
unfolding hex_nibble hex_digit
hex_nibble_digit c d h n = ground arith

joined_parts :
    (hi lo : ℕ)
    → hi < 16
    → lo < 16
    → (joined hi lo < 256) × (joined hi lo / 16 ≡ hi) × (joined hi lo % 16 ≡ lo)
unfolding joined
joined_parts hi lo h l = omega (arith, bit_or_nibble hi lo l)

-- The bytes that the digits spell.
abbrev pub Spells : Bytes → Bytes → Bytes → Type 0
Spells s out a = IsArray (length out) a × (fill s out ≡ ok a) × (hex_pairs a ≡ s)

fill_lower :
    (s out : Bytes)
    → all_nibbles s ≡ ok tt
    → All NotUpper s
    → length s ≡ 2 * length out
    → (a : Bytes) × Spells s out a
unfolding fill all_nibbles hex_pairs
fill_lower [] [] h n e = ([], ((tt, refl), refl, refl))
fill_lower [] (b ∷ out) h n e = absurd (omega (arith, e))
fill_lower (c ∷ s) [] h n e = absurd (omega (arith, e))
fill_lower (c ∷ []) (b ∷ out) h n e = absurd (omega (arith, e))
fill_lower (c ∷ d ∷ s) (b ∷ out) h n e =
    let (hi, eh, h1) = bind-ok (hex_nibble c) (λ _. all_nibbles (d ∷ s)) tt h in
    let (lo, el, h2) = bind-ok (hex_nibble d) (λ _. all_nibbles s) tt h1 in
    let (hi_lt, hi_is) = hex_nibble_digit c hi eh n.0 in
    let (lo_lt, lo_is) = hex_nibble_digit d lo el n.1.0 in
    let (lt, q, r) = joined_parts hi lo hi_lt lo_lt in
    let (a, ((bytes, len), filled, printed)) = fill_lower s out h2 n.1.1 (omega (arith, e)) in
    (
      joined hi lo ∷ a,
      (((lt, bytes), ap suc len), rw (eh, el, filled), rw (q, r, hi_is, lo_is, printed)),
    )

prefix_lem : (c d : ℕ) (r : Bytes) → lacks_prefix (c ∷ d ∷ r) ≡ false → (c ≡ b'0') × (d ≡ b'x')
unfolding lacks_prefix bytes_beq
prefix_lem c d r h = ground arith

-- What the checks of `validate_hex` leave.
validated :
    (c d : ℕ) (r : Bytes)
    → validate_hex (c ∷ d ∷ r) ≡ ok tt
    → (lacks_prefix (c ∷ d ∷ r) ≡ false) × (all_nibbles r ≡ ok tt)
unfolding validate_hex
validated c d r h = ground arith

parsed_lem :
    (c d : ℕ) (r out a : Bytes)
    → lacks_prefix (c ∷ d ∷ r) ≡ false
    → length r ≡ 2 * length out
    → fill r out ≡ ok a
    → parse_hex_bytes (c ∷ d ∷ r) out ≡ ok a
unfolding parse_hex_bytes
parsed_lem c d r out a h e f = ground arith

-- The bytes that a checked address in lower case spells, whatever array it is read into.
pub validate_hex_lower :
    (s out : Bytes)
    → validate_hex s ≡ ok tt
    → All NotUpper s
    → length s ≡ 2 + 2 * length out
    → (a : Bytes) × IsArray (length out) a
      × (parse_hex_bytes s out ≡ ok a)
      × (codes "0x" ++ hex_pairs a ≡ s)
validate_hex_lower [] out h n e = absurd (omega (arith, e))
validate_hex_lower (c ∷ []) out h n e = absurd (omega (arith, e))
validate_hex_lower (c ∷ d ∷ r) out h n e =
    let (prefixed, digits) = validated c d r h in
    let (is_c, is_d) = prefix_lem c d r prefixed in
    let even : length r ≡ 2 * length out = omega (arith, e) in
    let (a, (array, filled, printed)) = fill_lower r out digits n.1.1 even in
    (a, array, parsed_lem c d r out a prefixed even filled, rw (is_c, is_d, printed))
