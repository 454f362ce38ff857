-- ===== src/Topics.antt =====
-- The event topics of src/events/normalize.cpp, as `parse_topic_literal` of
-- include/sentinel/events/utils/hex.hpp reads them at compile time.
use risk_sentinel.Common.{ℕ, [], ◌∷◌, Bytes, codes, drop, Outcome, ok, err}
use risk_sentinel.Hex.{hex_nibble, joined}

unfoldable pub value_or_zero : Outcome ℕ → ℕ
value_or_zero (ok n) = n
value_or_zero (err e) = 0

-- `parse_topic_literal`, which the compiler evaluates on literals of 64 digits.
unfoldable pub literal_pairs : Bytes → Bytes
unfolding value_or_zero hex_nibble joined
literal_pairs [] = []
literal_pairs (c ∷ []) = []
literal_pairs (c ∷ d ∷ s) =
    joined (value_or_zero (hex_nibble c)) (value_or_zero (hex_nibble d)) ∷ literal_pairs s

unfoldable pub parse_topic_literal : Bytes → Bytes
unfolding literal_pairs
parse_topic_literal s = literal_pairs (drop 2 s)

unfoldable pub topic_transfer : Bytes
topic_transfer =
    parse_topic_literal (codes "0xddf252ad1be2c89b69c2b068fc378daa952ba7f163c4a11628f55a4df523b3ef")

unfoldable pub topic_swap_v2 : Bytes
topic_swap_v2 =
    parse_topic_literal (codes "0xd78ad95fa46c994b6551d0da85fc275fe613ce37657fb8d5e3d130840159d822")

unfoldable pub topic_swap_v3 : Bytes
topic_swap_v3 =
    parse_topic_literal (codes "0xc42079f94a6350d7e5735f2a153e368fc95153e172ee90824036511a8fb417b3")

unfoldable pub topic_mint : Bytes
topic_mint =
    parse_topic_literal (codes "0x4c209b5fc8ad50758f13e2e1088ba56a560dff694af163234d7f6c31034c568d")

unfoldable pub topic_burn : Bytes
topic_burn =
    parse_topic_literal (codes "0xdccd28e36055d506992d9d40a08e08d6691c9569707248066f2c2f82998396e9")

unfoldable pub topic_ownership_transferred : Bytes
topic_ownership_transferred =
    parse_topic_literal (codes "0x8be0079c531659141344cd1fd0a4f28419497f9722a3daafe3b4186f6b6457e0")

unfoldable pub topic_paused : Bytes
topic_paused =
    parse_topic_literal (codes "0x62e78cea01bee320cd4e420270b5ea74000d11b0c9f74754ebdbfc544b05a258")

unfoldable pub topic_unpaused : Bytes
topic_unpaused =
    parse_topic_literal (codes "0x5db9ee0a495bf2e6ff9c91a7834c1ba4fdd244a5e8aa4e537bd38aeae4b073aa")

unfoldable pub topic_role_granted : Bytes
topic_role_granted =
    parse_topic_literal (codes "0x2f8788117e7eff1d82e926ec794901d17c78024a50270940304540a733656f0d")

unfoldable pub topic_role_revoked : Bytes
topic_role_revoked =
    parse_topic_literal (codes "0xf6391f5c32d9c69d2a47ea670b442974b53935d1edc7fd64eb21e047a839171b")

unfoldable pub topic_upgraded : Bytes
topic_upgraded =
    parse_topic_literal (codes "0xbc7cd75a20ee27fd9adebab32041f755214dbc6bffa90cc0225b39da2e5c2d3b")

unfoldable pub topic_approval : Bytes
topic_approval =
    parse_topic_literal (codes "0x8c5be1e5ebec7d5bd14f71427d1e84f3dd0314c0f7b2291e5b200ac8c7c3b925")

unfoldable pub topic_oracle_answer_updated : Bytes
topic_oracle_answer_updated =
    parse_topic_literal (codes "0x0559884fd3a460db3073b7fc896cc77986f16e378210ded43186175bf646fc5f")
