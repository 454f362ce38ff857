-- ===== src/Hex/Round.antt =====
-- About include/sentinel/events/utils/hex.hpp: printing a word in decimal, and reading it back.
use risk_sentinel.Common.{
  ℕ, zero, suc, ◌+◌, ◌-◌, ◌*◌, ◌^◌, ◌<◌, ◌≡◌, refl, [], ◌∷◌, ◌++◌, Bytes, AreBytes, All, length,
  arith, ap, ok, Bool-cases, inl, inr, take, take-AreBytes, subst, sym, if◌then◌else◌, ◌∙◌,
}
use native.Mathlib.Nat.{pow-suc}
use native.Mathlib.Decide.{dec_lt}
use mathlib.Core.List.{reverse, reverse-append}
use risk_sentinel.Common.Digits.{IsDigit, decimal_value}
use risk_sentinel.Hex.{div_ten, all_zero, decimal_digits, uint256_be_to_decimal, decimal_to_be_256}
use risk_sentinel.Hex.Value.{be_value, be_value-lt, lead_lt, zeros-value, value-zeros}
use risk_sentinel.Hex.Division.{div_ten_lem, div_ten-AreBytes}
use risk_sentinel.Hex.Decimal.{decimal_to_be_256_sound, decimal_to_be_256_complete}

abbrev Prints : Bytes → ℕ → Bytes → Type 0
Prints out n result =
    All IsDigit (reverse out) × (decimal_value 0 (reverse out) ≡ decimal_value n (reverse result))

decimal_digits_step :
    (fuel : ℕ) (buffer result : Bytes)
    → decimal_digits (suc fuel) buffer result ≡ (
        if all_zero (div_ten 0 buffer).0
        then result ++ (b'0' + (div_ten 0 buffer).1) ∷ []
        else decimal_digits fuel
            (div_ten 0 buffer).0
            (result ++ (b'0' + (div_ten 0 buffer).1) ∷ []))
unfolding decimal_digits
decimal_digits_step fuel buffer result = refl

drop_zero : (r : ℕ) → b'0' + r - b'0' ≡ r
drop_zero r = omega arith

snoc-IsDigit :
    (r : ℕ) (result : Bytes)
    → r < 10
    → All IsDigit (reverse result)
    → All IsDigit (reverse (result ++ (b'0' + r) ∷ []))
snoc-IsDigit r result h hr =
    rw (reverse-append result ((b'0' + r) ∷ [])) ((omega arith, omega arith), hr)

-- One more digit in front of those already printed.
Prints-digit :
    (q r : ℕ) (out result : Bytes)
    → Prints out q (result ++ (b'0' + r) ∷ [])
    → Prints out (q * 10 + r) result
Prints-digit q r out result (h, e) = (h, e ∙ shown)
  where
    shown :
        decimal_value q (reverse (result ++ (b'0' + r) ∷ []))
        ≡ decimal_value (q * 10 + r) (reverse result)
    shown =
        rw (reverse-append result ((b'0' + r) ∷ []))
          (ap (λ d. decimal_value (q * 10 + d) (reverse result)) (drop_zero r))

-- A round that ends the loop, and a round that is followed by others.
last_round :
    (n q r : ℕ) (result : Bytes)
    → n ≡ q * 10 + r
    → q ≡ 0
    → r < 10
    → All IsDigit (reverse result)
    → Prints (result ++ (b'0' + r) ∷ []) n result
last_round n q r result e z lt hr =
    subst (λ m. Prints (result ++ (b'0' + r) ∷ []) m result) (sym e)
      (Prints-digit q r (result ++ (b'0' + r) ∷ []) result (snoc-IsDigit r result lt hr, rw z))

next_round :
    (n q r : ℕ) (out result : Bytes)
    → n ≡ q * 10 + r
    → Prints out q (result ++ (b'0' + r) ∷ [])
    → Prints out n result
next_round n q r out result e p =
    subst (λ m. Prints out m result) (sym e) (Prints-digit q r out result p)

-- The digits are written lowest first, so `result` stands behind what is still to come.
decimal_digits_lem :
    (fuel : ℕ) (buffer result : Bytes)
    → AreBytes buffer
    → be_value buffer < 10 ^ suc fuel
    → All IsDigit (reverse result)
    → Prints (decimal_digits (suc fuel) buffer result) (be_value buffer) result
unfolding all_zero
decimal_digits_lem zero buffer result hb lt hr =
    let (e, small) = div_ten_lem 0 buffer (omega arith) hb in
    let z : be_value (div_ten 0 buffer).0 ≡ 0 = omega arith in
    rw (decimal_digits_step 0 buffer result, value-zeros (div_ten 0 buffer).0 z)
      (last_round (be_value buffer) (be_value (div_ten 0 buffer).0) (div_ten 0 buffer).1 result
        (omega arith) z small hr)
decimal_digits_lem (suc fuel) buffer result hb lt hr =
    let (e, small) = div_ten_lem 0 buffer (omega arith) hb in
    elim (Bool-cases (all_zero (div_ten 0 buffer).0)) [
      | inl z ↦
          rw (decimal_digits_step (suc fuel) buffer result, z)
            (last_round (be_value buffer) (be_value (div_ten 0 buffer).0) (div_ten 0 buffer).1
              result (omega arith) (zeros-value (div_ten 0 buffer).0 z) small hr)
      | inr z ↦
          rw (decimal_digits_step (suc fuel) buffer result, z)
            (next_round (be_value buffer) (be_value (div_ten 0 buffer).0) (div_ten 0 buffer).1
              (decimal_digits (suc fuel) (div_ten 0 buffer).0
                (result ++ (b'0' + (div_ten 0 buffer).1) ∷ []))
              result (omega arith)
              ((decimal_digits_lem fuel (div_ten 0 buffer).0
                (result ++ (b'0' + (div_ten 0 buffer).1) ∷ []) (div_ten-AreBytes 0 buffer)
                (omega (arith, pow-suc 10 (suc fuel))) (snoc-IsDigit _ result small hr))))
    ]

-- The print of 32 bytes, where the data holds so many, is a string of decimal digits that spells
-- their number: 78 rounds are enough, so the loop has ended.
pub uint256_be_to_decimal_lem :
    (bytes : Bytes)
    → AreBytes bytes
    → length (take 32 bytes) ≡ 32
    → All IsDigit (uint256_be_to_decimal bytes)
      × (decimal_value 0 (uint256_be_to_decimal bytes) ≡ be_value (take 32 bytes))
unfolding uint256_be_to_decimal all_zero
uint256_be_to_decimal_lem bytes hb n = elim (Bool-cases (all_zero (take 32 bytes))) [
  | inl z ↦ rw z (((omega arith, omega arith), tt), sym (zeros-value (take 32 bytes) z))
  | inr z ↦ rw z (
      decimal_digits_lem 77 (take 32 bytes) [] (take-AreBytes 32 bytes hb)
        (omega
          (arith, be_value-lt (take 32 bytes) (take-AreBytes 32 bytes hb), ap (λ k. 256 ^ k) n))
        tt)
]

-- Arrays of one length that stand for one number are the same.
be_value-injective :
    (a b : Bytes) → AreBytes a → AreBytes b → length a ≡ length b → be_value a ≡ be_value b → a ≡ b
be_value-injective [] [] ha hb n e = refl
be_value-injective [] (y ∷ b) ha hb n e = absurd (omega arith)
be_value-injective (x ∷ a) [] ha hb n e = absurd (omega arith)
be_value-injective (x ∷ a) (y ∷ b) ha hb n e =
    let n' : length a ≡ length b = omega arith in
    let p = ap (λ k. 256 ^ k) n' in
    let lta = be_value-lt a ha.1 in
    let ltb' = be_value-lt b hb.1 in
    elim (dec_lt x y) [
      | yes lt ↦ absurd (
          omega (
            arith,
            lead_lt y x (256 ^ length b) (be_value a) (be_value b) lt (omega (arith, p, lta)),
            ap (λ k. x * k) p,
          ))
      | no ge ↦ elim (dec_lt y x) [
        | yes lt ↦ absurd (
            omega (
              arith,
              lead_lt x y (256 ^ length b) (be_value b) (be_value a) lt ltb',
              ap (λ k. x * k) p,
            ))
        | no le ↦
            let same : x ≡ y = omega arith in
            cc (
              same,
              be_value-injective a b ha.1 hb.1 n'
                  (omega (arith, ap (λ k. x * k) p, ap (λ k. k * 256 ^ length b) same)),
            )
      ]
    ]

-- `decimal_to_be_256` undoes `uint256_be_to_decimal` on the 32 bytes at `data`, where it holds so
-- many.
pub decimal_to_be_256-uint256_be_to_decimal :
    (bytes : Bytes)
    → AreBytes bytes
    → length (take 32 bytes) ≡ 32
    → decimal_to_be_256 (uint256_be_to_decimal bytes) ≡ ok (take 32 bytes)
decimal_to_be_256-uint256_be_to_decimal bytes hb n =
    let (digits, value) = uint256_be_to_decimal_lem bytes hb n in
    let hb' = take-AreBytes 32 bytes hb in
    let (r, e) =
      decimal_to_be_256_complete (uint256_be_to_decimal bytes) digits
        (omega (arith, value, be_value-lt (take 32 bytes) hb', ap (λ k. 256 ^ k) n)) in
    let (_, v, len, hr) = decimal_to_be_256_sound (uint256_be_to_decimal bytes) r e in
    e ∙ ap ok (be_value-injective r (take 32 bytes) hr hb' (len ∙ sym n) (v ∙ value))
