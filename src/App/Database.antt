-- ===== src/App/Database.antt =====
-- src/app/app.cpp: the members of `App` that the database fills, in `init_modules_`, and the rules that
-- `register_rules_` makes of them.
use risk_sentinel.Common.{
  ℕ, ◌&&◌, Option, List, [], Bytes, codes, if◌then◌else◌, nat_eq, Outcome, ok, ◌>>=◌,
}
use risk_sentinel.Common.Assoc.{assign}
use risk_sentinel.Signal.{ChainKey, key_eq}
use risk_sentinel.Rules.LargeTransfer.{LargeTransferRuleConfig}
use risk_sentinel.Rules.Approval.{ApprovalRuleConfig}
use risk_sentinel.Rules.MintBurn.{MintBurnRuleConfig}
use risk_sentinel.Rules.Governance.{GovernanceRuleConfig}
use risk_sentinel.Rules.BridgeTransfer.{BridgeRuleConfig}
use risk_sentinel.Rules.OracleUpdate.{OracleRuleConfig}
use risk_sentinel.Engine.{RiskEngine, register_rule}
use risk_sentinel.Engine.AnyRule.{AnyRule, any_rule}
use risk_sentinel.Security.{Openssl}
use risk_sentinel.Backtest.App.{holds}
use risk_sentinel.App.Rows.{PqxxRow, Json, load, add_some}
use risk_sentinel.App.Loaders.{
  Registry, append_one, read_large_transfer_row, read_governance_row, add_governance_row,
  read_mint_burn_row, add_mint_burn_row, read_approval_row, add_approval_row, read_contract_row,
  add_contract_row, read_bridge_row, add_bridge_row, read_oracle_row, add_oracle_row,
}
use risk_sentinel.App.Webhooks.{Webhooks, WebhookRow, load_webhook_channels}

-- What each query returns.
pub record Queries (R : Type 0) : Type 0 where
  pub customers : Outcome (List R)
  pub governance_rules : Outcome (List R)
  pub mint_burn_rules : Outcome (List R)
  pub approval_rules : Outcome (List R)
  pub bridge_contracts : Outcome (List R)
  pub bridge_rules : Outcome (List R)
  pub oracle_rules : Outcome (List R)
  pub webhook_channels : Outcome (List WebhookRow)
  pub risk_rules : Outcome (List R)

pub record Members : Type 0 where
  pub customer_id_to_key : List (ℕ × Bytes)
  pub token_addresses_to_symbols : List (ChainKey × Bytes)
  pub governance_rules_by_contract : List (ChainKey × List GovernanceRuleConfig)
  pub mint_burn_rules_by_contract : List (ChainKey × List MintBurnRuleConfig)
  pub approval_rules_by_contract : List (ChainKey × List ApprovalRuleConfig)
  pub registry : Registry
  pub bridge_configs_by_key : List (ChainKey × List BridgeRuleConfig)
  pub oracle_configs_by_feed : List (ChainKey × List OracleRuleConfig)
  pub customer_webhooks : Webhooks

unfoldable pub add_customer_row : ℕ × Bytes → List (ℕ × Bytes) → List (ℕ × Bytes)
add_customer_row c map = assign c.0 c.1 map

unfoldable pub load_token_map : List (ChainKey × Bytes) → List (ChainKey × Bytes)
load_token_map map =
    assign
      (record { chain_id = 42161; address = codes "0xfd086bc7cd5c481dcc9c85ebe478a1c0b69fcbb9" })
      (codes "USDT") map

module _ {R : Type 0} ⦃row_of : PqxxRow R⦄ where
  unfoldable pub read_customer_row : R → Outcome (ℕ × Bytes)
  read_customer_row row = do
    id ← row_of.as_uint64 row (codes "id")
    key ← row_of.as_string row (codes "customer_key")
    ok (id, key)

  -- The configurations are loaded only behind a registry that was read to its end and is not empty.
  unfoldable pub load_bridge_configs :
      Outcome (List R)
      → Outcome (List R)
      → Registry × List (ChainKey × List BridgeRuleConfig)
      → Registry × List (ChainKey × List BridgeRuleConfig)
  unfolding load holds read_contract_row add_contract_row read_bridge_row add_bridge_row
  load_bridge_configs res1 res2 (registry, configs) =
      let (registry', finished) = load read_contract_row add_contract_row res1 registry in
      if finished && holds registry'.bridge_addresses
      then (registry', (load read_bridge_row add_bridge_row res2 configs).0)
      else (registry', configs)

  unfoldable pub load_large_transfer_configs :
      {J : Type 0} → Json J → Outcome (List R) → List LargeTransferRuleConfig
  unfolding load read_large_transfer_row add_some
  load_large_transfer_configs json res =
      (load (read_large_transfer_row json) (add_some append_one) res []).0

  -- The calls of `init_modules_` from `load_customer_map_` to `load_webhook_channels_`
  unfoldable pub load_members : Openssl → Option Bytes → Queries R → Members → Members
  unfolding load read_customer_row add_customer_row load_token_map read_governance_row
      add_governance_row read_mint_burn_row add_mint_burn_row read_approval_row add_approval_row
      load_bridge_configs read_oracle_row add_oracle_row add_some load_webhook_channels
  load_members ssl env db m =
      let (registry, bridges) =
        load_bridge_configs db.bridge_contracts db.bridge_rules
          (m.registry, m.bridge_configs_by_key) in
      record {
        customer_id_to_key =
            (load read_customer_row add_customer_row db.customers m.customer_id_to_key).0;
        token_addresses_to_symbols = load_token_map m.token_addresses_to_symbols;
        governance_rules_by_contract =
            (load read_governance_row add_governance_row db.governance_rules
              m.governance_rules_by_contract).0;
        mint_burn_rules_by_contract =
            (load read_mint_burn_row add_mint_burn_row db.mint_burn_rules
              m.mint_burn_rules_by_contract).0;
        approval_rules_by_contract =
            (load read_approval_row add_approval_row db.approval_rules
              m.approval_rules_by_contract).0;
        registry = registry;
        bridge_configs_by_key = bridges;
        oracle_configs_by_feed =
            (load read_oracle_row (add_some add_oracle_row) db.oracle_rules
              m.oracle_configs_by_feed).0;
        customer_webhooks = load_webhook_channels ssl env db.webhook_channels m.customer_webhooks;
      }

unfoldable pub register_rules :
    List LargeTransferRuleConfig → Members → RiskEngine AnyRule → RiskEngine AnyRule
register_rules configs m engine =
    let e1 = register_rule engine (AnyRule.large_transfer configs) in
    let e2 = register_rule e1 (AnyRule.governance m.governance_rules_by_contract) in
    let e3 = register_rule e2 (AnyRule.mint_burn m.mint_burn_rules_by_contract) in
    let e4 = register_rule e3 (AnyRule.approval m.approval_rules_by_contract) in
    let bridge = AnyRule.bridge_transfer (record {
      configs_by_key = m.bridge_configs_by_key;
      bridge_addresses = m.registry.bridge_addresses;
      bridge_names = m.registry.bridge_names;
    }) in
    let e5 = register_rule e4 bridge in
    register_rule e5 (
      AnyRule.oracle_update
        (record { configs_by_feed = m.oracle_configs_by_feed; last_by_feed = [] }))
