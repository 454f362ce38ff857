-- ===== src/Hex/Value.antt =====
-- The number that big-endian bytes stand for, and what a pass over them does to it.
use risk_sentinel.Common.{
  all_of, ◌==◌, true, ◌++◌, length-append, ℕ, zero, suc, ◌+◌, ◌*◌, ◌^◌, ◌<◌, ◌≡◌, refl, [], ◌∷◌,
  Bytes, AreBytes, length, arith,
}
use native.Mathlib.Nat.{pow-suc, zero-add, suc-add}

abbrev pub be_value : Bytes → ℕ
be_value [] = 0
be_value (b ∷ bs) = b * 256 ^ length bs + be_value bs

pub be_value-lt : (bs : Bytes) → AreBytes bs → be_value bs < 256 ^ length bs
be_value-lt [] h = omega arith
be_value-lt (b ∷ bs) h = grind (arith, pow-suc, be_value-lt bs h.1)

-- A higher leading digit decides, whatever follows.
pub lead_lt : (x y p v w : ℕ) → y < x → v < p → y * p + v < x * p + w
lead_lt x y p v w h hv = grind arith

pub zeros-value : (bs : Bytes) → (all_of (λ b. b == 0) bs ≡ true) → be_value bs ≡ 0
zeros-value [] h = refl
zeros-value (b ∷ bs) h = grind (arith, zeros-value bs)

factor_zero : (b p v : ℕ) → 0 < p → b * p + v ≡ 0 → b ≡ 0
factor_zero zero p v h e = refl
factor_zero (suc b) p v h e = absurd (omega arith)

pub pow256-pos : (n : ℕ) → 0 < 256 ^ n
pow256-pos zero = omega arith
pow256-pos (suc n) = omega (arith, pow256-pos n, pow-suc 256 n)

-- A number is zero if and only if all its bytes are.
pub value-zeros : (bs : Bytes) → be_value bs ≡ 0 → all_of (λ b. b == 0) bs ≡ true
value-zeros [] h = refl
value-zeros (b ∷ bs) h = ground (
  arith,
  factor_zero b (256 ^ length bs) (be_value bs) (pow256-pos (length bs)) h,
  value-zeros bs (omega arith),
)

pow256-add : (n m : ℕ) → 256 ^ (n + m) ≡ 256 ^ n * 256 ^ m
pow256-add zero m = rw zero-add (omega arith)
pow256-add (suc n) m =
    rw (suc-add n m, pow-suc 256 (n + m), pow-suc 256 n, pow256-add n m) (omega arith)

pub be_value-append :
    (front back : Bytes)
    → be_value (front ++ back) ≡ be_value front * 256 ^ length back + be_value back
be_value-append [] back = omega arith
be_value-append (b ∷ front) back =
    rw
      (
        length-append front back,
        pow256-add (length front) (length back),
        be_value-append front back,
      )
      (omega arith)
