-- ===== src/Common/Stoull.antt =====
-- `std::stoull(s, nullptr, base)` for base 10 and base 16.
use Prim.Native.Nat.{ℕ, ◌+◌, ◌-◌, ◌*◌, ◌%◌, ◌^◌}
use mathlib.Core.Bool.{Bool, true, false, ◌&&◌, ◌||◌}
use mathlib.Core.Option.{Option, none, some}
use mathlib.Core.List.{[], ◌∷◌}
use risk_sentinel.Common.Tests.{ltb, leb, ◌==◌, if◌then◌else◌}
use risk_sentinel.Common.Lists.{Bytes, codes}
use risk_sentinel.Common.Results.{Outcome, ok, err}

-- `std::isspace` of the "C" locale
unfoldable pub is_space : ℕ → Bool
is_space c = c == 32 || (leb 9 c && leb c 13)

unfoldable pub skip_space : Bytes → Bytes
unfolding is_space
skip_space [] = []
skip_space (c ∷ s) = let rest = skip_space s in if is_space c then rest else c ∷ s

-- The value of a digit below the base.
unfoldable pub digit_of : ℕ → ℕ → Option ℕ
digit_of base c =
    if leb b'0' c && (leb c b'9' && ltb (c - b'0') base)
    then some (c - b'0')
    else if leb b'a' c && (leb c b'z' && ltb (c - b'a' + 10) base)
    then some (c - b'a' + 10)
    else if leb b'A' c && (leb c b'Z' && ltb (c - b'A' + 10) base)
    then some (c - b'A' + 10)
    else none

-- The digits from the start on, up to the first character that is none: `none` before any.
unfoldable pub read_digits : ℕ → Option ℕ → Bytes → Option ℕ
unfolding digit_of
read_digits base value [] = value
read_digits base value (c ∷ s) = elim (digit_of base c) [
  | none ↦ value
  | some d ↦ read_digits base (some (elim value [ none ↦ d | some v ↦ v * base + d ])) s
]

-- In base 16 a prefix "0x" is skipped if a digit follows.
unfoldable pub has_digit : ℕ → Option ℕ → Bool
has_digit x none = false
has_digit x (some d) = x == b'x' || x == b'X'

unfoldable pub skip_prefix : ℕ → Bytes → Bytes
unfolding digit_of has_digit
skip_prefix base (z ∷ x ∷ c ∷ s) =
    if base == 16 && (z == b'0' && has_digit x (digit_of 16 c)) then c ∷ s else z ∷ x ∷ c ∷ s
skip_prefix base s = s

-- `invalid_argument` without a digit, `out_of_range` at 2 ^ 64 and above; a sign negates in 64 bits.
unfoldable pub in_range : Bool → Option ℕ → Outcome ℕ
in_range negative none = err (codes "stoull")
in_range negative (some v) =
    if leb (2 ^ 64) v
    then err (codes "stoull")
    else ok (if negative then (2 ^ 64 - v) % 2 ^ 64 else v)

unfoldable pub signed : ℕ → Bytes → Outcome ℕ
unfolding skip_prefix read_digits in_range
signed base [] = err (codes "stoull")
signed base (c ∷ s) =
    if c == b'-'
    then in_range true (read_digits base none (skip_prefix base s))
    else if c == b'+'
    then in_range false (read_digits base none (skip_prefix base s))
    else in_range false (read_digits base none (skip_prefix base (c ∷ s)))

unfoldable pub stoull : ℕ → Bytes → Outcome ℕ
unfolding skip_space signed
stoull base s = signed base (skip_space s)
