-- ===== src/Backtest/Sections.antt =====
-- src/backtest/backtest_config.cpp: the rules on transfers, governance, and mints and burns.
use risk_sentinel.Common.{
  true, Option, none, [], ◌∷◌, ◌++◌, Bytes, codes, replicate, Outcome, ok, ◌>>=◌,
}
use risk_sentinel.Hex.{parse_hex_bytes, decimal_to_be_256}
use risk_sentinel.Signal.{key_eq}
use risk_sentinel.Rules.LargeTransfer.{LargeTransferRuleConfig}
use risk_sentinel.Rules.MintBurn.{MintBurnRuleConfig}
use risk_sentinel.Rules.Governance.{GovernanceRuleConfig}
use risk_sentinel.Backtest.Yaml.{Yaml}
use risk_sentinel.Backtest.Fields.{warn_unknown_keys, require_string, require_uint}
use risk_sentinel.Backtest.Config.{
  BacktestConfig, push_back, parse_section, read_address, read_threshold,
}

unfoldable pub add_large_transfer : LargeTransferRuleConfig → BacktestConfig → BacktestConfig
add_large_transfer c cfg = record cfg {
  large_transfer_configs = cfg.large_transfer_configs ++ c ∷ [];
}

unfoldable pub add_governance : GovernanceRuleConfig → BacktestConfig → BacktestConfig
unfolding push_back
add_governance c cfg = record cfg {
  governance_rules_by_contract =
      push_back (record { chain_id = c.chain_id; address = c.contract_address }) c
        cfg.governance_rules_by_contract;
}

unfoldable pub add_mint_burn : MintBurnRuleConfig → BacktestConfig → BacktestConfig
unfolding push_back
add_mint_burn c cfg = record cfg {
  mint_burn_rules_by_contract =
      push_back (record { chain_id = c.chain_id; address = c.contract_address }) c
        cfg.mint_burn_rules_by_contract;
}

module _ {Node : Type 0} ⦃yaml : Yaml Node⦄ where
  unfoldable pub read_large_transfer : Bytes → Node → Outcome LargeTransferRuleConfig
  unfolding read_address read_threshold
  read_large_transfer ctx item = do
    _ ← warn_unknown_keys item (
        codes "customer_id"
        ∷ codes "chain_id"
        ∷ codes "token_address"
        ∷ codes "threshold_decimal"
        ∷ [])
    customer_id ← require_uint item (codes "customer_id") ctx
    chain_id ← require_uint item (codes "chain_id") ctx
    token ← read_address item (codes "token_address") ctx
    token_address ← parse_hex_bytes token (replicate 20 0)
    threshold_be ← read_threshold item (codes "threshold_decimal") ctx
    ok (record {
      customer_id = customer_id;
      chain_id = chain_id;
      token_address = token_address;
      threshold_be = threshold_be;
    })

  unfoldable pub parse_large_transfer : Option Node → BacktestConfig → Outcome BacktestConfig
  unfolding parse_section read_large_transfer add_large_transfer
  parse_large_transfer =
      parse_section (codes "rules.large_transfer") read_large_transfer add_large_transfer

  unfoldable pub read_governance : Bytes → Node → Outcome GovernanceRuleConfig
  unfolding read_address
  read_governance ctx item = do
    _ ←
        warn_unknown_keys item
          (codes "customer_id" ∷ codes "chain_id" ∷ codes "contract_address" ∷ [])
    customer_id ← require_uint item (codes "customer_id") ctx
    chain_id ← require_uint item (codes "chain_id") ctx
    contract_address ← read_address item (codes "contract_address") ctx
    ok (record {
      customer_id = customer_id;
      chain_id = chain_id;
      contract_address = contract_address;
      enabled = true;
      action_filter = none;
    })

  unfoldable pub parse_governance : Option Node → BacktestConfig → Outcome BacktestConfig
  unfolding parse_section read_governance add_governance
  parse_governance = parse_section (codes "rules.governance") read_governance add_governance

  unfoldable pub read_mint_burn : Bytes → Node → Outcome MintBurnRuleConfig
  unfolding read_address require_string
  read_mint_burn ctx item = do
    _ ← warn_unknown_keys item (
        codes "customer_id"
        ∷ codes "chain_id"
        ∷ codes "contract_address"
        ∷ codes "mint_threshold_decimal"
        ∷ codes "burn_threshold_decimal"
        ∷ [])
    customer_id ← require_uint item (codes "customer_id") ctx
    chain_id ← require_uint item (codes "chain_id") ctx
    contract_address ← read_address item (codes "contract_address") ctx
    mint_thr ← require_string item (codes "mint_threshold_decimal") ctx
    burn_thr ← require_string item (codes "burn_threshold_decimal") ctx
    mint_threshold_be ← decimal_to_be_256 mint_thr
    burn_threshold_be ← decimal_to_be_256 burn_thr
    ok (record {
      customer_id = customer_id;
      chain_id = chain_id;
      contract_address = contract_address;
      mint_threshold_be = mint_threshold_be;
      burn_threshold_be = burn_threshold_be;
      enabled = true;
    })

  unfoldable pub parse_mint_burn : Option Node → BacktestConfig → Outcome BacktestConfig
  unfolding parse_section read_mint_burn add_mint_burn
  parse_mint_burn = parse_section (codes "rules.mint_burn") read_mint_burn add_mint_burn
