-- ===== src/Rules/OracleUpdate/Spike.antt =====
-- The relative change in basis points, rounded down and cut off at 2 ^ 64 - 1, against a threshold.
use risk_sentinel.Common.{ℕ, ◌+◌, ◌-◌, ◌*◌, ◌/◌, ◌<◌, ltb, leb, not, arith, ◌≡◌, if◌then◌else◌}
use native.Mathlib.Nat.{div-lt_iff_lt-mul}
use risk_sentinel.Rules.OracleUpdate.{delta_bps, uint64_max}

-- The distance of two answers.
abbrev pub distance : ℕ → ℕ → ℕ
distance a b = (a - b) + (b - a)

quotient_le : (n p t : ℕ) → 0 < p → leb (n / p) t ≡ ltb n ((t + 1) * p)
quotient_le n p t hp = ground (arith, div-lt_iff_lt-mul {k = p} {x = n} {y = t + 1} hp)

cut_off : (d m t : ℕ) → t < m → leb (if ltb m d then m else d) t ≡ leb d t
cut_off d m t h = ground arith

diff_lem :
    (current prev : ℕ)
    → (if ltb prev current then current - prev else prev - current) ≡ distance current prev
diff_lem current prev = ground arith

-- The rounding and the cut are harmless: against a last answer that is not zero and a threshold
-- below 2 ^ 64 - 1, `delta_bps` is above the threshold exactly when the change, in ten thousandths
-- of the last answer, is at least the next whole number of basis points.
pub delta_bps-above :
    (current prev threshold : ℕ)
    → 0 < prev
    → threshold < uint64_max
    → not (leb (delta_bps current prev) threshold)
      ≡ leb ((threshold + 1) * prev) (distance current prev * 10000)
unfolding delta_bps
delta_bps-above current prev threshold hp ht =
    rw
      (
        diff_lem current prev,
        cut_off (distance current prev * 10000 / prev) uint64_max threshold ht,
        quotient_le (distance current prev * 10000) prev threshold hp,
      )
      (ground arith)
