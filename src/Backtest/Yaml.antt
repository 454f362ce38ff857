-- ===== src/Backtest/Yaml.antt =====
-- What src/backtest/backtest_config.cpp uses of `YAML::Node` of yaml-cpp, as an interface: the
-- conversions and subscripts may throw, and `none` is the undefined node, which tests as false.
use risk_sentinel.Common.{ℕ, ◌^◌, ◌<◌, ◌≡◌, Bool, Option, List, Bytes, Outcome, ok}
use risk_sentinel.Common.Int.{ℤ}

pub record Yaml (Node : Type 0) : Type 0 where
  pub is_null : Node → Bool
  pub is_sequence : Node → Bool
  pub is_map : Node → Bool
  -- `node[field]`
  pub subscript : Node → Bytes → Outcome (Option Node)
  -- the keys of a map and the elements of a sequence, in the order of the iteration
  pub keys : Node → List Node
  pub items : Node → List Node
  -- `node.as<T>()`
  pub as_string : Node → Outcome Bytes
  pub as_uint64 : Node → Outcome ℕ
  pub as_int : Node → Outcome ℤ
  pub as_bool : Node → Outcome Bool
  pub as_uint64-fits : (node : Node) (n : ℕ) → as_uint64 node ≡ ok n → n < 2 ^ 64
