-- ===== src/Common/Int.antt =====
-- `int`, and its conversions to unsigned types.
use Prim.Native.Nat.{ℕ, ◌-◌, ◌%◌, ◌^◌}
use mathlib.Core.Bool.{Bool, true, false}
use risk_sentinel.Common.Tests.{leb}

pub data ℤ : Type 0 where
  pos : ℕ → ℤ
  negsuc : ℕ → ℤ

-- `i <= n` for a literal n.
abbrev pub at_most : ℤ → ℕ → Bool
at_most (pos m) n = leb m n
at_most (negsuc m) n = true

-- `i < 0`
abbrev pub is_below_zero : ℤ → Bool
is_below_zero (pos m) = false
is_below_zero (negsuc m) = true

-- `static_cast<uintW_t>(i)`
abbrev pub to_unsigned : ℕ → ℤ → ℕ
to_unsigned w (pos m) = m % 2 ^ w
to_unsigned w (negsuc m) = 2 ^ w - 1 - m % 2 ^ w
