-- ===== src/Backtest/Invariant.antt =====
-- About src/backtest/backtest_config.cpp: what a configuration satisfies, and that adding to it keeps this.
use risk_sentinel.Common.{
  ◌<◌, ◌≡◌, false, not, ◌&&◌, ◌⊎◌, [], ◌∷◌, Bytes, codes, length, bytes_beq, bytes_beq_iff, All,
  All-append, arith,
}
use risk_sentinel.Signal.{ChainKey}
use risk_sentinel.Rules.LargeTransfer.{LargeTransferRuleConfig}
use risk_sentinel.Rules.Approval.{ApprovalRuleConfig}
use risk_sentinel.Rules.MintBurn.{MintBurnRuleConfig}
use risk_sentinel.Rules.Governance.{GovernanceRuleConfig}
use risk_sentinel.Rules.BridgeTransfer.{BridgeRuleConfig}
use risk_sentinel.Rules.OracleUpdate.{OracleRuleConfig}
use risk_sentinel.Backtest.Config.{BacktestConfig, CustomerEntry}
use risk_sentinel.Backtest.Sections.{add_large_transfer, add_governance, add_mint_burn}
use risk_sentinel.Backtest.Feeds.{add_approval, add_bridge_transfers, add_oracle_update}
use risk_sentinel.Backtest.Load.{add_bridge_contracts, add_customers}
use risk_sentinel.Backtest.Checked.{AllIn, AllIn-push_back}
use risk_sentinel.Backtest.Valid.{
  LargeTransferOk, GovernanceOk, MintBurnOk, ApprovalOk, BridgeOk, OracleOk,
}

-- The members before the sections: a known chain, an interval of blocks that is not empty, an
-- output, and a range that is not zero.
abbrev pub HeadOk : BacktestConfig → Type 0
HeadOk cfg =
    ((cfg.chain ≡ codes "ethereum") ⊎ (cfg.chain ≡ codes "arbitrum"))
    × (cfg.start_block < cfg.end_block)
    × (0 < length cfg.output_path)
    × (0 < cfg.max_block_range)

-- Every configuration is within the types of its rule, under the key that the rule looks it up by.
pub record IsChecked (cfg : BacktestConfig) : Type 0 where
  pub head : HeadOk cfg
  pub large_transfer : All LargeTransferOk cfg.large_transfer_configs
  pub governance : AllIn GovernanceOk cfg.governance_rules_by_contract
  pub mint_burn : AllIn MintBurnOk cfg.mint_burn_rules_by_contract
  pub approval : AllIn ApprovalOk cfg.approval_rules_by_contract
  pub bridge : AllIn BridgeOk cfg.bridge_configs_by_key
  pub oracle : AllIn OracleOk cfg.oracle_configs_by_feed

pub not_both :
    (chain : Bytes)
    → (not (bytes_beq chain (codes "ethereum")) && not (bytes_beq chain (codes "arbitrum"))) ≡ false
    → (chain ≡ codes "ethereum") ⊎ (chain ≡ codes "arbitrum")
not_both chain h =
    ground (arith, bytes_beq_iff chain (codes "ethereum"), bytes_beq_iff chain (codes "arbitrum"))

pub add_customers-IsChecked :
    (c : CustomerEntry) (cfg : BacktestConfig)
    → Unit {0}
    → IsChecked cfg
    → IsChecked (add_customers c cfg)
unfolding add_customers
add_customers-IsChecked c cfg q h = record {
  head = h.head;
  large_transfer = h.large_transfer;
  governance = h.governance;
  mint_burn = h.mint_burn;
  approval = h.approval;
  bridge = h.bridge;
  oracle = h.oracle;
}

pub add_large_transfer-IsChecked :
    (c : LargeTransferRuleConfig) (cfg : BacktestConfig)
    → LargeTransferOk c
    → IsChecked cfg
    → IsChecked (add_large_transfer c cfg)
unfolding add_large_transfer
add_large_transfer-IsChecked c cfg q h = record {
  head = h.head;
  large_transfer =
      All-append LargeTransferOk cfg.large_transfer_configs (c ∷ []) h.large_transfer (q, tt);
  governance = h.governance;
  mint_burn = h.mint_burn;
  approval = h.approval;
  bridge = h.bridge;
  oracle = h.oracle;
}

pub add_governance-IsChecked :
    (c : GovernanceRuleConfig) (cfg : BacktestConfig)
    → GovernanceOk (record { chain_id = c.chain_id; address = c.contract_address }) c
    → IsChecked cfg
    → IsChecked (add_governance c cfg)
unfolding add_governance
add_governance-IsChecked c cfg q h = record {
  head = h.head;
  large_transfer = h.large_transfer;
  governance =
      AllIn-push_back GovernanceOk (record { chain_id = c.chain_id; address = c.contract_address })
        c cfg.governance_rules_by_contract h.governance q;
  mint_burn = h.mint_burn;
  approval = h.approval;
  bridge = h.bridge;
  oracle = h.oracle;
}

pub add_mint_burn-IsChecked :
    (c : MintBurnRuleConfig) (cfg : BacktestConfig)
    → MintBurnOk (record { chain_id = c.chain_id; address = c.contract_address }) c
    → IsChecked cfg
    → IsChecked (add_mint_burn c cfg)
unfolding add_mint_burn
add_mint_burn-IsChecked c cfg q h = record {
  head = h.head;
  large_transfer = h.large_transfer;
  governance = h.governance;
  mint_burn =
      AllIn-push_back MintBurnOk (record { chain_id = c.chain_id; address = c.contract_address }) c
        cfg.mint_burn_rules_by_contract h.mint_burn q;
  approval = h.approval;
  bridge = h.bridge;
  oracle = h.oracle;
}

pub add_approval-IsChecked :
    (c : Bytes × ApprovalRuleConfig) (cfg : BacktestConfig)
    → ApprovalOk (record { chain_id = c.1.chain_id; address = c.0 }) c.1
    → IsChecked cfg
    → IsChecked (add_approval c cfg)
unfolding add_approval
add_approval-IsChecked c cfg q h = record {
  head = h.head;
  large_transfer = h.large_transfer;
  governance = h.governance;
  mint_burn = h.mint_burn;
  approval =
      AllIn-push_back ApprovalOk (record { chain_id = c.1.chain_id; address = c.0 }) c.1
        cfg.approval_rules_by_contract h.approval q;
  bridge = h.bridge;
  oracle = h.oracle;
}

pub add_bridge_transfers-IsChecked :
    (c : BridgeRuleConfig) (cfg : BacktestConfig)
    → BridgeOk (record { chain_id = c.chain_id; address = c.token_address }) c
    → IsChecked cfg
    → IsChecked (add_bridge_transfers c cfg)
unfolding add_bridge_transfers
add_bridge_transfers-IsChecked c cfg q h = record {
  head = h.head;
  large_transfer = h.large_transfer;
  governance = h.governance;
  mint_burn = h.mint_burn;
  approval = h.approval;
  bridge =
      AllIn-push_back BridgeOk (record { chain_id = c.chain_id; address = c.token_address }) c
        cfg.bridge_configs_by_key h.bridge q;
  oracle = h.oracle;
}

pub add_oracle_update-IsChecked :
    (c : OracleRuleConfig) (cfg : BacktestConfig)
    → OracleOk (record { chain_id = c.chain_id; address = c.aggregator_address }) c
    → IsChecked cfg
    → IsChecked (add_oracle_update c cfg)
unfolding add_oracle_update
add_oracle_update-IsChecked c cfg q h = record {
  head = h.head;
  large_transfer = h.large_transfer;
  governance = h.governance;
  mint_burn = h.mint_burn;
  approval = h.approval;
  bridge = h.bridge;
  oracle =
      AllIn-push_back OracleOk (record { chain_id = c.chain_id; address = c.aggregator_address }) c
        cfg.oracle_configs_by_feed h.oracle q;
}

pub add_bridge_contracts-IsChecked :
    (c : ChainKey × Bytes) (cfg : BacktestConfig)
    → Unit {0}
    → IsChecked cfg
    → IsChecked (add_bridge_contracts c cfg)
unfolding add_bridge_contracts
add_bridge_contracts-IsChecked c cfg q h = record {
  head = h.head;
  large_transfer = h.large_transfer;
  governance = h.governance;
  mint_burn = h.mint_burn;
  approval = h.approval;
  bridge = h.bridge;
  oracle = h.oracle;
}
