-- ===== src/Backtest/Safe.antt =====
-- About src/backtest/backtest_config.cpp: what a configuration that is loaded satisfies.
use risk_sentinel.Common.{
  ◌<◌, ◌≡◌, not, ◌&&◌, Option, none, some, Bytes, codes, length, leb, ◌==◌, bytes_beq, if-both,
  arith, Outcome, ok, err,
}
use risk_sentinel.Common.Ensures.{Ensures, Ensures-ok, Ensures-bind, Ensures-throw_if}
use risk_sentinel.Backtest.Yaml.{Yaml}
use risk_sentinel.Backtest.Fields.{warn_unknown_keys, require_uint, require_string}
use risk_sentinel.Backtest.Config.{BacktestConfig}
use risk_sentinel.Backtest.Sections.{
  read_large_transfer, read_governance, read_mint_burn, parse_large_transfer, parse_governance,
  parse_mint_burn, add_large_transfer, add_governance, add_mint_burn,
}
use risk_sentinel.Backtest.Feeds.{
  read_approval, read_bridge, read_oracle, parse_approval, parse_bridge_transfers,
  parse_oracle_update, add_approval, add_bridge_transfers, add_oracle_update,
}
use risk_sentinel.Backtest.Customers.{validate_customer_ids}
use risk_sentinel.Backtest.Load.{
  read_bridge_contract, parse_bridge_contracts, add_bridge_contracts, add_customers, read_customer,
  parse_customers, read_range, parse_rules, rules_if_any, read_head, load_root, load_parsed,
  load_backtest_config,
}
use risk_sentinel.Backtest.Checked.{parse_section-Ensures}
use risk_sentinel.Backtest.Valid.{
  LargeTransferOk, GovernanceOk, MintBurnOk, ApprovalOk, BridgeOk, OracleOk,
  read_large_transfer-Ensures, read_governance-Ensures, read_mint_burn-Ensures,
  read_approval-Ensures, read_bridge-Ensures, read_oracle-Ensures,
}
use risk_sentinel.Backtest.Invariant.{
  IsChecked, not_both, add_customers-IsChecked, add_large_transfer-IsChecked,
  add_governance-IsChecked, add_mint_burn-IsChecked, add_approval-IsChecked,
  add_bridge_transfers-IsChecked, add_oracle_update-IsChecked, add_bridge_contracts-IsChecked,
}

module _ {Node : Type 0} ⦃yaml : Yaml Node⦄ where
  read_range-pos : (node : Option Node) → Ensures (λ range. 0 < range) (read_range node)
  unfolding read_range
  read_range-pos none = Ensures-ok 1000 (omega arith)
  read_range-pos (some value) =
      Ensures-bind (yaml.as_uint64 value) _
        λ range _. Ensures-throw_if (range == 0) _ _ λ e. Ensures-ok range (ground arith)

  read_head-IsChecked : (root : Node) → Ensures IsChecked (read_head root)
  unfolding read_head
  read_head-IsChecked root =
      Ensures-bind (require_string root (codes "chain") (codes "<root>")) _ λ chain _.
        Ensures-throw_if
          (not (bytes_beq chain (codes "ethereum")) && not (bytes_beq chain (codes "arbitrum"))) _ _
          λ known.
            Ensures-bind (require_uint root (codes "start_block") (codes "<root>")) _ λ start _.
              Ensures-bind (require_uint root (codes "end_block") (codes "<root>")) _ λ end _.
                Ensures-throw_if (leb end start) _ _ λ ordered.
                  Ensures-bind (require_string root (codes "output_path") (codes "<root>")) _
                    λ path _. Ensures-throw_if (length path == 0) _ _ λ written.
                      Ensures-bind (yaml.subscript root (codes "max_block_range")) _ λ given _.
                        Ensures-bind (read_range given) _ λ range e. Ensures-ok _ record {
                          head = (
                            not_both chain known,
                            ground arith,
                            ground arith,
                            (read_range-pos given).at range e,
                          );
                          large_transfer = tt;
                          governance = tt;
                          mint_burn = tt;
                          approval = tt;
                          bridge = tt;
                          oracle = tt;
                        }

  parse_customers-IsChecked :
      (node : Option Node) (cfg : BacktestConfig)
      → IsChecked cfg
      → Ensures IsChecked (parse_customers node cfg)
  unfolding parse_customers
  parse_customers-IsChecked =
      parse_section-Ensures (codes "customers") read_customer add_customers (λ c. Unit {0})
        IsChecked (λ ctx item. record { at = λ _ _. tt }) add_customers-IsChecked

  parse_large_transfer-IsChecked :
      (node : Option Node) (cfg : BacktestConfig)
      → IsChecked cfg
      → Ensures IsChecked (parse_large_transfer node cfg)
  unfolding parse_large_transfer
  parse_large_transfer-IsChecked =
      parse_section-Ensures (codes "rules.large_transfer") read_large_transfer add_large_transfer
        (λ c. LargeTransferOk c) IsChecked read_large_transfer-Ensures add_large_transfer-IsChecked

  parse_governance-IsChecked :
      (node : Option Node) (cfg : BacktestConfig)
      → IsChecked cfg
      → Ensures IsChecked (parse_governance node cfg)
  unfolding parse_governance
  parse_governance-IsChecked =
      parse_section-Ensures (codes "rules.governance") read_governance add_governance
        (λ c. GovernanceOk (record { chain_id = c.chain_id; address = c.contract_address }) c)
        IsChecked read_governance-Ensures add_governance-IsChecked

  parse_mint_burn-IsChecked :
      (node : Option Node) (cfg : BacktestConfig)
      → IsChecked cfg
      → Ensures IsChecked (parse_mint_burn node cfg)
  unfolding parse_mint_burn
  parse_mint_burn-IsChecked =
      parse_section-Ensures (codes "rules.mint_burn") read_mint_burn add_mint_burn
        (λ c. MintBurnOk (record { chain_id = c.chain_id; address = c.contract_address }) c)
        IsChecked read_mint_burn-Ensures add_mint_burn-IsChecked

  parse_approval-IsChecked :
      (node : Option Node) (cfg : BacktestConfig)
      → IsChecked cfg
      → Ensures IsChecked (parse_approval node cfg)
  unfolding parse_approval
  parse_approval-IsChecked =
      parse_section-Ensures (codes "rules.approval") read_approval add_approval
        (λ c. ApprovalOk (record { chain_id = c.1.chain_id; address = c.0 }) c.1) IsChecked
        read_approval-Ensures add_approval-IsChecked

  parse_bridge_transfers-IsChecked :
      (node : Option Node) (cfg : BacktestConfig)
      → IsChecked cfg
      → Ensures IsChecked (parse_bridge_transfers node cfg)
  unfolding parse_bridge_transfers
  parse_bridge_transfers-IsChecked =
      parse_section-Ensures (codes "rules.bridge_transfers") read_bridge add_bridge_transfers
        (λ c. BridgeOk (record { chain_id = c.chain_id; address = c.token_address }) c) IsChecked
        read_bridge-Ensures add_bridge_transfers-IsChecked

  parse_oracle_update-IsChecked :
      (node : Option Node) (cfg : BacktestConfig)
      → IsChecked cfg
      → Ensures IsChecked (parse_oracle_update node cfg)
  unfolding parse_oracle_update
  parse_oracle_update-IsChecked =
      parse_section-Ensures (codes "rules.oracle_update") read_oracle add_oracle_update
        (λ c. OracleOk (record { chain_id = c.chain_id; address = c.aggregator_address }) c)
        IsChecked read_oracle-Ensures add_oracle_update-IsChecked

  parse_bridge_contracts-IsChecked :
      (node : Option Node) (cfg : BacktestConfig)
      → IsChecked cfg
      → Ensures IsChecked (parse_bridge_contracts node cfg)
  unfolding parse_bridge_contracts
  parse_bridge_contracts-IsChecked =
      parse_section-Ensures (codes "bridge_contracts") read_bridge_contract add_bridge_contracts
        (λ c. Unit {0}) IsChecked (λ ctx item. record { at = λ _ _. tt })
        add_bridge_contracts-IsChecked

  parse_rules-IsChecked :
      (rules : Node) (cfg : BacktestConfig)
      → IsChecked cfg
      → Ensures IsChecked (parse_rules rules cfg)
  unfolding parse_rules
  parse_rules-IsChecked rules cfg h = Ensures-throw_if (not (yaml.is_map rules)) _ _ λ _.
      Ensures-bind (warn_unknown_keys rules _) _ λ _ _.
        Ensures-bind (yaml.subscript rules (codes "large_transfer")) _ λ n1 _.
          Ensures-bind (parse_large_transfer n1 cfg) _ λ c1 e1.
            Ensures-bind (yaml.subscript rules (codes "governance")) _ λ n2 _.
              Ensures-bind (parse_governance n2 c1) _ λ c2 e2.
                Ensures-bind (yaml.subscript rules (codes "mint_burn")) _ λ n3 _.
                  Ensures-bind (parse_mint_burn n3 c2) _ λ c3 e3.
                    Ensures-bind (yaml.subscript rules (codes "approval")) _ λ n4 _.
                      Ensures-bind (parse_approval n4 c3) _ λ c4 e4.
                        Ensures-bind (yaml.subscript rules (codes "bridge_transfers")) _ λ n5 _.
                          Ensures-bind (parse_bridge_transfers n5 c4) _ λ c5 e5.
                            Ensures-bind (yaml.subscript rules (codes "oracle_update")) _ λ n6 _.
                              let h1 = (parse_large_transfer-IsChecked n1 cfg h).at c1 e1 in
                              let h2 = (parse_governance-IsChecked n2 c1 h1).at c2 e2 in
                              let h3 = (parse_mint_burn-IsChecked n3 c2 h2).at c3 e3 in
                              let h4 = (parse_approval-IsChecked n4 c3 h3).at c4 e4 in
                              let h5 = (parse_bridge_transfers-IsChecked n5 c4 h4).at c5 e5 in
                              parse_oracle_update-IsChecked n6 c5 h5

  rules_if_any-IsChecked :
      (rules : Option Node) (cfg : BacktestConfig)
      → IsChecked cfg
      → Ensures IsChecked (rules_if_any rules cfg)
  unfolding rules_if_any
  rules_if_any-IsChecked none cfg h = Ensures-ok cfg h
  rules_if_any-IsChecked (some rules) cfg h =
      if-both (Ensures IsChecked) (yaml.is_null rules) _ _ (λ _. Ensures-ok cfg h)
        (λ _. parse_rules-IsChecked rules cfg h)

  load_root-IsChecked :
      (root : Node)
      → Ensures (λ cfg. IsChecked cfg × (validate_customer_ids cfg ≡ ok tt)) (load_root root)
  unfolding load_root
  load_root-IsChecked root = Ensures-bind (warn_unknown_keys root _) _ λ _ _.
      Ensures-bind (read_head root) _ λ cfg e0.
        Ensures-bind (yaml.subscript root (codes "customers")) _ λ customers _.
          Ensures-bind (parse_customers customers cfg) _ λ cfg1 e1.
            Ensures-bind (yaml.subscript root (codes "rules")) _ λ rules _.
              Ensures-bind (rules_if_any rules cfg1) _ λ cfg2 e2.
                Ensures-bind (yaml.subscript root (codes "bridge_contracts")) _ λ bridges _.
                  Ensures-bind (parse_bridge_contracts bridges cfg2) _ λ cfg3 e3.
                    let h0 = (read_head-IsChecked root).at cfg e0 in
                    let h1 = (parse_customers-IsChecked customers cfg h0).at cfg1 e1 in
                    let h2 = (rules_if_any-IsChecked rules cfg1 h1).at cfg2 e2 in
                    let h3 = (parse_bridge_contracts-IsChecked bridges cfg2 h2).at cfg3 e3 in
                    Ensures-bind (validate_customer_ids cfg3) _ λ _ e4. Ensures-ok cfg3 (h3, e4)

  pub load-IsChecked :
      (yaml_path : Bytes) (file : Option (Outcome (Option Node))) (cfg : BacktestConfig)
      → load_backtest_config yaml_path file ≡ ok cfg
      → IsChecked cfg × (validate_customer_ids cfg ≡ ok tt)
  unfolding load_backtest_config load_parsed
  load-IsChecked yaml_path none cfg h = cc
  load-IsChecked yaml_path (some (err what)) cfg h = cc
  load-IsChecked yaml_path (some (ok none)) cfg h = cc
  load-IsChecked yaml_path (some (ok (some root))) cfg h =
      (Ensures-throw_if (not (yaml.is_map root)) _ (load_root root)
          λ _. load_root-IsChecked root).at
        cfg h
