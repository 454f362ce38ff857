-- ===== src/Common/Digits.antt =====
-- `std::to_string` of an unsigned integer, and what decimal digits spell.
use Prim.Native.Nat.{ℕ, zero, suc, ◌+◌, ◌-◌, ◌*◌, ◌/◌, ◌%◌, ◌^◌, ◌≤◌, ◌<◌}
use mathlib.Core.Path.{◌≡◌, ap, ◌∙◌, sym, subst}
use mathlib.Core.Logic.{inl, inr}
use mathlib.Core.List.{[], ◌∷◌}
use native.Mathlib.Nat.{pow-suc}
use native.Mathlib.Omega.{arith}
use risk_sentinel.Common.Tests.{if◌then◌else◌, Bool-cases, ltb, ltb→lt}
use risk_sentinel.Common.Lists.{Bytes, All, Lacks}

abbrev pub IsDigit : ℕ → Type 0
IsDigit c = (b'0' ≤ c) × (c ≤ b'9')

-- The number that decimal digits spell behind `n`, with no bound.
abbrev pub decimal_value : ℕ → Bytes → ℕ
decimal_value n [] = n
decimal_value n (c ∷ s) = decimal_value (n * 10 + (c - b'0')) s

pub le-decimal_value : (n : ℕ) (s : Bytes) → n ≤ decimal_value n s
le-decimal_value n [] = omega arith
le-decimal_value n (c ∷ s) = omega (arith, le-decimal_value (n * 10 + (c - b'0')) s)

-- The digits of `n` before `out`; the last one is written even if it is 0. Fuel bounds their count.
unfoldable pub put_digits : ℕ → ℕ → Bytes → Bytes
put_digits zero n out = out
put_digits (suc fuel) n out =
    let more = put_digits fuel (n / 10) ((b'0' + n % 10) ∷ out) in
    if ltb n 10 then (b'0' + n) ∷ out else more

-- A `uint64_t` has at most twenty digits.
unfoldable pub to_string : ℕ → Bytes
to_string n = put_digits 20 n []

put_digits-digits :
    (fuel n : ℕ) (out : Bytes) → All IsDigit out → All IsDigit (put_digits fuel n out)
unfolding put_digits
put_digits-digits zero n out h = h
put_digits-digits (suc fuel) n out h = elim (Bool-cases (ltb n 10)) [
  | inl t ↦ rw t ((omega arith, omega (arith, ltb→lt n 10 t)), h)
  | inr t ↦
      rw t (put_digits-digits fuel (n / 10) ((b'0' + n % 10) ∷ out) ((omega arith, omega arith), h))
]

put_digits-value :
    (fuel n : ℕ) (out : Bytes)
    → n < 10 ^ fuel
    → decimal_value 0 (put_digits fuel n out) ≡ decimal_value n out
unfolding put_digits
put_digits-value zero n out h = ap (λ m. decimal_value m out) (omega arith)
put_digits-value (suc fuel) n out h = elim (Bool-cases (ltb n 10)) [
  | inl t ↦ rw t (ap (λ m. decimal_value m out) (omega arith))
  | inr t ↦ rw t (
      put_digits-value fuel (n / 10) ((b'0' + n % 10) ∷ out) (omega (arith, pow-suc 10 fuel))
      ∙ ap (λ m. decimal_value m out) (omega arith))
]

-- Only digits are written.
pub to_string-digits : (n : ℕ) → All IsDigit (to_string n)
unfolding to_string
to_string-digits n = put_digits-digits 20 n [] tt

-- The digits spell the number, so two numbers are never written alike.
pub to_string-value : (n : ℕ) → n < 2 ^ 64 → decimal_value 0 (to_string n) ≡ n
unfolding to_string
to_string-value n h = put_digits-value 20 n [] (omega arith)

pub to_string-injective : (n m : ℕ) → n < 2 ^ 64 → m < 2 ^ 64 → to_string n ≡ to_string m → n ≡ m
to_string-injective n m hn hm e =
    sym (to_string-value n hn) ∙ ap (decimal_value 0) e ∙ to_string-value m hm

-- A text of digits lacks any byte that is not one.
pub digits-Lacks : (sep : ℕ) → (IsDigit sep → ⊥) → (s : Bytes) → All IsDigit s → Lacks sep s
digits-Lacks sep other [] h = tt
digits-Lacks sep other (c ∷ s) h = (λ e. other (subst IsDigit e h.0), digits-Lacks sep other s h.1)
