-- ===== src/Rules/OracleUpdate/Answer.antt =====
-- The guards of `OracleUpdateRule::evaluate` and the low word, as statements about the number.
use risk_sentinel.Common.{
  ℕ, ◌+◌, ◌*◌, ◌%◌, ◌^◌, ◌<◌, ◌≤◌, bit_and, Bool, true, false, [], ◌∷◌, Bytes, AreBytes, IsArray,
  all_of, ltb, not, ◌==◌, ==_iff, take, drop, length, arith, ◌≡◌, ap, ◌∙◌, Bool-cases, inl, inr,
  subst, ◌≢◌, sym, take-append-drop, drop-IsArray,
}
use native.Mathlib.Nat.{pow-suc}
use risk_sentinel.Common.Bits.{bit_or_byte}
use risk_sentinel.Hex.Value.{
  be_value, be_value-lt, be_value-append, zeros-value, value-zeros, pow256-pos,
}
use risk_sentinel.Rules.OracleUpdate.{is_negative, fits_u64, read_word, low_u64}

mul_mono : (a b p : ℕ) → a ≤ b → a * p ≤ b * p
mul_mono a b p h = grind arith

step_fits : (v b p : ℕ) → b < 256 → (v + 1) * (p * 256) ≤ 2 ^ 64 → (v * 256 + b + 1) * p ≤ 2 ^ 64
step_fits v b p hb h = omega (arith, mul_mono (b + 1) 256 p (omega arith))

shift_small : (v p : ℕ) → 0 < p → (v + 1) * (p * 256) ≤ 2 ^ 64 → v * 256 < 2 ^ 64
shift_small v p hp h = omega (arith, mul_mono 1 p ((v + 1) * 256) hp)

-- The loop over the last bytes reads their number.
read_word-value :
    (v : ℕ) (bs : Bytes)
    → AreBytes bs
    → (v + 1) * 256 ^ length bs ≤ 2 ^ 64
    → read_word v bs ≡ v * 256 ^ length bs + be_value bs
unfolding read_word
read_word-value v [] hb h = omega arith
read_word-value v (b ∷ bs) hb h =
    let p : ℕ = 256 ^ length bs in
    let h' : (v + 1) * (p * 256) ≤ 2 ^ 64 =
      subst (λ q. (v + 1) * q ≤ 2 ^ 64) (pow-suc 256 (length bs)) h in
    let small : v * 256 < 2 ^ 64 = shift_small v p (pow256-pos (length bs)) h' in
    let kept : v * 256 % 2 ^ 64 ≡ v * 256 = omega arith in
    rw
      (
        kept,
        bit_or_byte v b hb.0,
        read_word-value (v * 256 + b) bs hb.1 (step_fits v b p hb.0 h'),
        pow-suc 256 (length bs),
      )
      (omega arith)

-- The sign bit stands above the low word.
pub negative-fits : (answer : Bytes) → is_negative answer ≡ true → fits_u64 answer ≡ false
unfolding is_negative fits_u64
negative-fits [] h = cc
negative-fits (b ∷ rest) h = elim (Bool-cases (b == 0)) [
  | inl z ↦ zero_sign ((==_iff b 0).0 z)
  | inr z ↦ rw z
]
  where
    zero_sign : b ≡ 0 → all_of (λ c. c == 0) (take 24 (b ∷ rest)) ≡ false
    zero_sign e = absurd (sign_of_zero (subst (λ x. not (bit_and x 0x80 == 0) ≡ true) e h))
      where
        sign_of_zero : ◌≡◌ {A = Bool} false true → ⊥
        sign_of_zero e' = cc

-- An answer is its low word if the upper 24 bytes are zero, and too great otherwise.
fits-value :
    (high low : ℕ) (z : Bool)
    → (z ≡ true → high ≡ 0)
    → (z ≡ false → high ≢ 0)
    → low < 2 ^ 64
    → z ≡ ltb (high * 2 ^ 64 + low) (2 ^ 64)
fits-value high low true yes' no' h = ground arith
fits-value high low false yes' no' h = ground arith

answer_parts :
    (answer : Bytes)
    → IsArray 32 answer
    → be_value answer ≡ be_value (take 24 answer) * 2 ^ 64 + be_value (drop 24 answer)
answer_parts answer h =
    sym (ap be_value (take-append-drop 24 answer))
    ∙ be_value-append (take 24 answer) (drop 24 answer)
    ∙ ap (λ n. be_value (take 24 answer) * 256 ^ n + be_value (drop 24 answer))
        (drop-IsArray 24 8 answer h).1

low_part : (answer : Bytes) → IsArray 32 answer → be_value (drop 24 answer) < 2 ^ 64
low_part answer h =
    let (bytes, n) = drop-IsArray 24 8 answer h in
    omega (arith, be_value-lt (drop 24 answer) bytes, ap (λ k. 256 ^ k) n)

-- `fits_u64` says whether the number is below 2 ^ 64.
pub fits_u64-ltb :
    (answer : Bytes) → IsArray 32 answer → fits_u64 answer ≡ ltb (be_value answer) (2 ^ 64)
unfolding fits_u64
fits_u64-ltb answer h = rw (answer_parts answer h) (
    fits-value (be_value (take 24 answer)) (be_value (drop 24 answer)) _
      (zeros-value (take 24 answer)) (λ z e. clash (sym z ∙ value-zeros (take 24 answer) e))
      (low_part answer h))
  where
    clash : ◌≡◌ {A = Bool} false true → ⊥
    clash e = cc

-- And then the low word is the number.
pub low_u64-value :
    (answer : Bytes)
    → IsArray 32 answer
    → be_value answer < 2 ^ 64
    → low_u64 answer ≡ be_value answer
unfolding low_u64
low_u64-value answer h lt =
    let (bytes, n) = drop-IsArray 24 8 answer h in
    read_word-value 0 (drop 24 answer) bytes (omega (arith, ap (λ k. 256 ^ k) n))
    ∙ omega (arith, answer_parts answer h)
