-- ===== src/Hex/Compare.antt =====
-- About include/sentinel/events/utils/hex.hpp: `greater_be_256` and the order of numbers.
use risk_sentinel.Common.{
  ◌*◌, ◌^◌, ◌≡◌, refl, [], ◌∷◌, Bytes, AreBytes, length, arith, ltb, ap, take, take_whole, IsArray,
  ◌∙◌, sym,
}
use native.Mathlib.Decide.{dec_lt}
use risk_sentinel.Hex.{memcmp_gt, greater_be_256}
use risk_sentinel.Hex.Value.{be_value, be_value-lt, lead_lt}

memcmp_gt-ltb :
    (a b : Bytes)
    → AreBytes a
    → AreBytes b
    → length a ≡ length b
    → memcmp_gt a b ≡ ltb (be_value b) (be_value a)
unfolding memcmp_gt
memcmp_gt-ltb [] [] ha hb h = refl
memcmp_gt-ltb [] (y ∷ b) ha hb h = absurd (omega arith)
memcmp_gt-ltb (x ∷ a) [] ha hb h = absurd (omega arith)
memcmp_gt-ltb (x ∷ a) (y ∷ b) ha hb h = elim (dec_lt x y) [
  | yes lt ↦
      ground
        (arith, lead_lt y x (256 ^ length a) (be_value a) (be_value b) lt (be_value-lt a ha.1), p)
  | no ge ↦ elim (dec_lt y x) [
    | yes lt ↦
        ground
          (arith, lead_lt x y (256 ^ length b) (be_value b) (be_value a) lt (be_value-lt b hb.1), p)
    | no le ↦
        let e : x ≡ y = omega arith in
        ground (
          arith,
          memcmp_gt-ltb a b ha.1 hb.1 (omega arith),
          ap (λ t. t * 256 ^ length b) e,
          ap (λ t. x * t) p,
        )
  ]
]
  where
    p : 256 ^ length a ≡ 256 ^ length b
    p = ap (λ n. 256 ^ n) (omega arith)

-- Of two numbers of 32 bytes, the first at the front of an array that may be longer,
-- `greater_be_256` says whether the first is the greater.
pub greater_be_256-ltb :
    (lhs rhs : Bytes)
    → IsArray 32 (take 32 lhs)
    → IsArray 32 rhs
    → greater_be_256 lhs rhs ≡ ltb (be_value rhs) (be_value (take 32 lhs))
unfolding greater_be_256
greater_be_256-ltb lhs rhs (hl, nl) (hr, nr) =
    rw (take_whole 32 rhs nr) (memcmp_gt-ltb (take 32 lhs) rhs hl hr (nl ∙ sym nr))
