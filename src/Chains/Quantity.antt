-- ===== src/Chains/Quantity.antt =====
-- About `parseHexU64` of src/chains/arbitrum/ArbitrumAdapter.cpp: the quantities of a node.
use risk_sentinel.Common.{
  ℕ, zero, suc, ◌+◌, ◌*◌, ◌/◌, ◌%◌, ◌^◌, ◌<◌, ◌≢◌, ◌≡◌, refl, ap, ◌∙◌, ◌==◌, ==_iff, true, false,
  ◌||◌, Bool-cases, inl, inr, Option, none, some, [], ◌∷◌, ◌++◌, Bytes, codes, arith, ok, ltb,
  length, if-both, All, bytes_beq,
}
use native.Mathlib.Nat.{pow-suc}
use risk_sentinel.Common.Stoull.{
  stoull, is_space, skip_space, digit_of, read_digits, has_digit, skip_prefix, in_range, signed,
}
use risk_sentinel.Hex.{hex_digit, hex_digits, to_hex_quantity}
use risk_sentinel.Chains.{parse_hex_u64}

digit_of-hex_digit : (d : ℕ) → d < 16 → digit_of 16 (hex_digit d) ≡ some d
unfolding digit_of hex_digit
digit_of-hex_digit d h = ground arith

read_digits-some :
    (v c d : ℕ) (s : Bytes)
    → digit_of 16 c ≡ some d
    → read_digits 16 (some v) (c ∷ s) ≡ read_digits 16 (some (v * 16 + d)) s
unfolding read_digits
read_digits-some v c d s h = rw (read_digits, h) refl

read_digits-none :
    (c d : ℕ) (s : Bytes)
    → digit_of 16 c ≡ some d
    → read_digits 16 none (c ∷ s) ≡ read_digits 16 (some d) s
unfolding read_digits
read_digits-none c d s h = rw (read_digits, h) refl

read_last :
    (n : ℕ) (out : Bytes)
    → read_digits 16 (some (n / 16)) (hex_digit (n % 16) ∷ out) ≡ read_digits 16 (some n) out
read_last n out =
    read_digits-some (n / 16) (hex_digit (n % 16)) (n % 16) out
      (digit_of-hex_digit (n % 16) (omega arith))
    ∙ ap (λ m. read_digits 16 (some m) out) (omega arith)

hex_digits_zero : (fuel m : ℕ) (out : Bytes) → m == 0 ≡ true → hex_digits fuel m out ≡ out
unfolding hex_digits
hex_digits_zero zero m out h = refl
hex_digits_zero (suc fuel) m out h = rw h refl

read_digits-hex_digits :
    (fuel n : ℕ) (out : Bytes)
    → n < 16 ^ fuel
    → n ≢ 0
    → read_digits 16 none (hex_digits fuel n out) ≡ read_digits 16 (some n) out
unfolding hex_digits
read_digits-hex_digits zero n out h pos = absurd (omega (arith, h, pos))
read_digits-hex_digits (suc fuel) n out h pos =
    let some_left : n == 0 ≡ false = ground (arith, pos) in
    elim (Bool-cases (n / 16 == 0)) [
      | inl z ↦ rw some_left (
          ap (read_digits 16 none) (hex_digits_zero fuel (n / 16) (hex_digit (n % 16) ∷ out) z)
          ∙ read_digits-none (hex_digit (n % 16)) (n % 16) out
              (digit_of-hex_digit (n % 16) (omega arith))
          ∙ ap (λ m. read_digits 16 (some m) out) (ground arith))
      | inr z ↦ rw some_left (
          read_digits-hex_digits fuel (n / 16) (hex_digit (n % 16) ∷ out)
            (omega (arith, pow-suc 16 fuel)) (λ e. ground (arith, e))
          ∙ read_last n out)
    ]

-- A character that is no blank, no sign and no letter of a prefix.
abbrev Plain : ℕ → Type 0
Plain c =
    (is_space c ≡ false)
    × (c == b'-' ≡ false)
    × (c == b'+' ≡ false)
    × ((c == b'x' || c == b'X') ≡ false)

hex_digit-Plain : (d : ℕ) → d < 16 → Plain (hex_digit d)
unfolding hex_digit is_space
hex_digit-Plain d h = (ground arith, ground arith, ground arith, ground arith)

hex_digits-Plain : (fuel n : ℕ) (out : Bytes) → All Plain out → All Plain (hex_digits fuel n out)
unfolding hex_digits
hex_digits-Plain zero n out h = h
hex_digits-Plain (suc fuel) n out h =
    if-both (All Plain) (n == 0) _ _ (λ _. h)
      λ _.
        hex_digits-Plain fuel (n / 16) (hex_digit (n % 16) ∷ out)
          (hex_digit-Plain (n % 16) (omega arith), h)

has_digit-Plain : (x : ℕ) (o : Option ℕ) → Plain x → has_digit x o ≡ false
unfolding has_digit
has_digit-Plain x none h = refl
has_digit-Plain x (some d) (_, _, _, h) = h

skip_prefix-Plain : (s : Bytes) → All Plain s → skip_prefix 16 s ≡ s
unfolding skip_prefix
skip_prefix-Plain [] h = refl
skip_prefix-Plain (z ∷ []) h = refl
skip_prefix-Plain (z ∷ x ∷ []) h = refl
skip_prefix-Plain (z ∷ x ∷ c ∷ s) (_, (h, _)) =
    rw (has_digit-Plain x (digit_of 16 c) h) (ground arith)

stoull-Plain : (s : Bytes) → All Plain s → stoull 16 s ≡ in_range false (read_digits 16 none s)
unfolding stoull skip_space signed read_digits in_range
stoull-Plain [] h = refl
stoull-Plain (c ∷ s) (plain, h) =
    let (blank, minus, plus, _) = plain in
    rw (blank, minus, plus, skip_prefix-Plain (c ∷ s) (plain, h)) refl

in_range-small : (n : ℕ) → n < 2 ^ 64 → in_range false (some n) ≡ ok n
unfolding in_range
in_range-small n h = ground arith

prefixed : (s : Bytes) (n : ℕ) → stoull 16 s ≡ ok n → parse_hex_u64 (codes "0x" ++ s) ≡ ok n
unfolding parse_hex_u64 bytes_beq stoull skip_space signed
prefixed [] n h = cc
prefixed (c ∷ s) n h =
    let long : ltb (suc (suc (suc (length s)))) 3 ≡ false = ground arith in rw long h

zero_read : (n : ℕ) → n ≡ 0 → parse_hex_u64 (codes "0x0") ≡ ok n
unfolding parse_hex_u64 stoull bytes_beq
zero_read n e = rw e refl

none_left : (n : ℕ) → read_digits 16 (some n) [] ≡ some n
unfolding read_digits
none_left n = refl

-- What `to_hex_quantity` writes for 64 bits is what the adapter's `parseHexU64` reads.
pub parse_hex_u64-to_hex_quantity : (n : ℕ) → n < 2 ^ 64 → parse_hex_u64 (to_hex_quantity n) ≡ ok n
unfolding to_hex_quantity
parse_hex_u64-to_hex_quantity n h = elim (Bool-cases (n == 0)) [
  | inl z ↦ rw z (zero_read n ((==_iff n 0).0 z))
  | inr z ↦ rw z (
      let s = hex_digits 16 n [] in
      let read = read_digits-hex_digits 16 n [] (omega (arith, h)) (λ e. ground (arith, e)) in
      prefixed s n (
        stoull-Plain s (hex_digits-Plain 16 n [] tt)
        ∙ ap (in_range false) (read ∙ none_left n)
        ∙ in_range-small n h))
]
