-- ===== src/Backtest/Active.antt =====
-- About src/backtest/backtest_app.cpp: which rules a backtest registers.
use risk_sentinel.Common.{
  ◌≡◌, refl, sym, ◌∙◌, Bool, true, false, List, [], ◌∷◌, ◌++◌, map, append_assoc, append-nil, Bytes,
  codes, bytes_beq_iff, ok, arith, if◌then◌else◌,
}
use risk_sentinel.Engine
use risk_sentinel.Engine.{RiskEngine, register_rule}
use risk_sentinel.Engine.AnyRule.{AnyRule, any_rule, rule_type_name_of}
use risk_sentinel.Engine.Registered.{register_all}
use risk_sentinel.Backtest.Config.{BacktestConfig}
use risk_sentinel.Backtest.Invariant.{IsChecked}
use risk_sentinel.Backtest.App.{
  supported, holds, push_if, active_rule_types, register_if, registered,
}

-- The six rules in the order of the code, each with whether it has a configuration.
abbrev pub candidates : BacktestConfig → List (Bool × AnyRule)
candidates cfg =
    (holds cfg.large_transfer_configs, AnyRule.large_transfer cfg.large_transfer_configs)
    ∷ (holds cfg.governance_rules_by_contract, AnyRule.governance cfg.governance_rules_by_contract)
    ∷ (holds cfg.mint_burn_rules_by_contract, AnyRule.mint_burn cfg.mint_burn_rules_by_contract)
    ∷ (holds cfg.approval_rules_by_contract, AnyRule.approval cfg.approval_rules_by_contract)
    ∷ (
      holds cfg.bridge_configs_by_key,
      AnyRule.bridge_transfer (record {
        configs_by_key = cfg.bridge_configs_by_key;
        bridge_addresses = cfg.bridge_addresses;
        bridge_names = cfg.bridge_names;
      }),
    )
    ∷ (
      holds cfg.oracle_configs_by_feed,
      AnyRule.oracle_update
          (record { configs_by_feed = cfg.oracle_configs_by_feed; last_by_feed = [] }),
    )
    ∷ []

abbrev pub chosen : List (Bool × AnyRule) → List AnyRule
chosen [] = []
chosen ((b, rule) ∷ rest) = if b then rule ∷ chosen rest else chosen rest

register_each : List (Bool × AnyRule) → RiskEngine AnyRule → RiskEngine AnyRule
register_each [] engine = engine
register_each ((b, rule) ∷ rest) engine = register_each rest (register_if b rule engine)

name_each : List (Bool × AnyRule) → List Bytes → List Bytes
name_each [] names = names
name_each ((b, rule) ∷ rest) names = name_each rest (push_if b (rule_type_name_of rule) names)

register_each-chosen :
    (rules : List (Bool × AnyRule)) (engine : RiskEngine AnyRule)
    → register_each rules engine ≡ register_all engine (chosen rules)
unfolding register_each register_if
register_each-chosen [] engine = refl
register_each-chosen ((true, rule) ∷ rest) engine =
    register_each-chosen rest (register_rule engine rule)
register_each-chosen ((false, rule) ∷ rest) engine = register_each-chosen rest engine

name_each-chosen :
    (rules : List (Bool × AnyRule)) (names : List Bytes)
    → name_each rules names ≡ names ++ map rule_type_name_of (chosen rules)
unfolding name_each push_if
name_each-chosen [] names = sym (append-nil names)
name_each-chosen ((true, rule) ∷ rest) names =
    name_each-chosen rest (names ++ rule_type_name_of rule ∷ [])
    ∙ append_assoc names (rule_type_name_of rule ∷ []) (map rule_type_name_of (chosen rest))
name_each-chosen ((false, rule) ∷ rest) names = name_each-chosen rest names

-- A backtest registers, in the order of the code, just the rules that have a configuration, and the
-- types that it counts alerts of are the names of these rules.
pub registered-configured :
    (cfg : BacktestConfig)
    → (registered cfg ≡ register_all Engine.make (chosen (candidates cfg)))
      × (active_rule_types cfg ≡ map rule_type_name_of (chosen (candidates cfg)))
unfolding registered register_each active_rule_types name_each rule_type_name_of
registered-configured cfg =
    (register_each-chosen (candidates cfg) Engine.make, name_each-chosen (candidates cfg) [])

-- A configuration that was loaded has a chain that the application supports.
pub loaded-supported : (cfg : BacktestConfig) → IsChecked cfg → supported cfg.chain ≡ ok tt
unfolding supported
loaded-supported cfg h =
    ground (
      arith,
      bytes_beq_iff cfg.chain (codes "ethereum"),
      bytes_beq_iff cfg.chain (codes "arbitrum"),
    )
