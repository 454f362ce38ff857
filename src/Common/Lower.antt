-- ===== src/Common/Lower.antt =====
-- `std::transform` with `std::tolower` over a string, as src/backtest/backtest_config.cpp and
-- src/app/app.cpp do it.
use Prim.Native.Nat.{ℕ, ◌+◌}
use mathlib.Core.Path.{◌≡◌}
use mathlib.Core.Bool.{false, ◌&&◌}
use mathlib.Core.List.{[], ◌∷◌, map}
use native.Mathlib.Omega.{arith}
use risk_sentinel.Common.Tests.{leb, if◌then◌else◌}
use risk_sentinel.Common.Lists.{Bytes, All}

-- `std::tolower` of the "C" locale on one byte
unfoldable pub to_lower : ℕ → ℕ
to_lower c = if leb b'A' c && leb c b'Z' then c + 32 else c

unfoldable pub lower : Bytes → Bytes
unfolding to_lower
lower s = map to_lower s

abbrev pub NotUpper : ℕ → Type 0
NotUpper c = (leb b'A' c && leb c b'Z') ≡ false

to_lower-NotUpper : (c : ℕ) → NotUpper (to_lower c)
unfolding to_lower
to_lower-NotUpper c = ground arith

pub lower-NotUpper : (s : Bytes) → All NotUpper (lower s)
unfolding lower
lower-NotUpper [] = tt
lower-NotUpper (c ∷ s) = (to_lower-NotUpper c, lower-NotUpper s)
