-- ===== src/Backtest/Customers.antt =====
-- src/backtest/backtest_config.cpp: `validate_customer_ids`.
use risk_sentinel.Common.{
  ℕ, Bool, false, not, ◌||◌, List, [], ◌∷◌, ◌++◌, Bytes, codes, ◌==◌, Outcome, ok, ◌>>◌, throw_if,
}
use risk_sentinel.Common.Digits.{to_string}
use risk_sentinel.Signal.{ChainKey, key_eq}
use risk_sentinel.Backtest.Config.{BacktestConfig, CustomerEntry}

-- The set `declared`.
unfoldable pub is_declared : List CustomerEntry → ℕ → Bool
is_declared [] customer_id = false
is_declared (c ∷ customers) customer_id = c.id == customer_id || is_declared customers customer_id

unfoldable pub check : List CustomerEntry → Bytes → ℕ → Outcome (Unit {0})
unfolding is_declared
check customers rule_section customer_id = throw_if (not (is_declared customers customer_id)) (
    codes "backtest config: rule section '"
    ++ (rule_section
        ++ (codes "' references undeclared customer_id="
            ++ (to_string customer_id ++ codes "; add it to the customers section"))))

module _ {ℓ} {C : Type ℓ} where
  -- `for (const auto &c : configs) check(...)`
  unfoldable pub check_each : List CustomerEntry → Bytes → (C → ℕ) → List C → Outcome (Unit {0})
  unfolding check
  check_each customers section id_of [] = ok tt
  check_each customers section id_of (c ∷ configs) = do
    check customers section (id_of c)
    check_each customers section id_of configs

  -- `for (const auto &[key, vec] : map)`
  unfoldable pub check_map :
      List CustomerEntry → Bytes → (C → ℕ) → List (ChainKey × List C) → Outcome (Unit {0})
  unfolding check_each
  check_map customers section id_of [] = ok tt
  check_map customers section id_of ((key, vec) ∷ map) = do
    check_each customers section id_of vec
    check_map customers section id_of map

unfoldable pub validate_customer_ids : BacktestConfig → Outcome (Unit {0})
unfolding check_each check_map
validate_customer_ids cfg = do
  check_each cfg.customers (codes "large_transfer") (λ c. c.customer_id) cfg.large_transfer_configs
  check_map cfg.customers (codes "governance") (λ c. c.customer_id) cfg.governance_rules_by_contract
  check_map cfg.customers (codes "mint_burn") (λ c. c.customer_id) cfg.mint_burn_rules_by_contract
  check_map cfg.customers (codes "approval") (λ c. c.customer_id) cfg.approval_rules_by_contract
  check_map cfg.customers (codes "bridge_transfer") (λ c. c.customer_id) cfg.bridge_configs_by_key
  check_map cfg.customers (codes "oracle_update") (λ c. c.customer_id) cfg.oracle_configs_by_feed
