-- ===== src/App/Loaders.antt =====
-- src/app/app.cpp: the functions that load the rules' configurations from the database. Each adds to a
-- member of `App`, which is its last argument.
use risk_sentinel.Common.{
  ℕ, true, not, ◌||◌, Option, none, List, [], ◌∷◌, ◌++◌, Bytes, codes, replicate, if◌then◌else◌,
  Outcome, ok, ◌>>=◌,
}
use risk_sentinel.Common.Int.{at_most, is_below_zero, to_unsigned}
use risk_sentinel.Common.Assoc.{assign}
use risk_sentinel.Common.Lower.{lower}
use risk_sentinel.Hex.{parse_hex_bytes, decimal_to_be_256}
use risk_sentinel.Signal.{ChainKey, key_eq}
use risk_sentinel.Rules.LargeTransfer.{LargeTransferRuleConfig}
use risk_sentinel.Rules.Approval.{ApprovalRuleConfig}
use risk_sentinel.Rules.MintBurn.{MintBurnRuleConfig}
use risk_sentinel.Rules.Governance.{GovernanceRuleConfig}
use risk_sentinel.Rules.BridgeTransfer.{BridgeRuleConfig}
use risk_sentinel.Rules.OracleUpdate.{OracleRuleConfig}
use risk_sentinel.Backtest.Config.{push_back}
use risk_sentinel.Backtest.Load.{insert}
use risk_sentinel.App.Rows.{PqxxRow, Json, skipped}

module _ {J : Type 0} (json : Json J) where
  -- The inner `try` of `load_large_transfer_configs_`
  unfoldable pub read_params : ℕ → Bytes → Outcome LargeTransferRuleConfig
  read_params customer_id params_str = do
    params ← json.parse params_str
    chain_id ← json.value_uint64 params (codes "chain_id") 42161
    token_str ←
        json.value_string params (codes "token_address")
          (codes "0xFd086bC7CD5C481DCC9C85ebE478A1C0b69FCbb9")
    token_address ← parse_hex_bytes token_str (replicate 20 0)
    threshold_str ← json.value_string params (codes "threshold") (codes "10000000000")
    threshold_be ← decimal_to_be_256 threshold_str
    ok (record {
      customer_id = customer_id;
      chain_id = chain_id;
      token_address = token_address;
      threshold_be = threshold_be;
    })

abbrev pub append_one {ℓ} : {C : Type ℓ} → C → List C → List C
append_one c cs = cs ++ c ∷ []

unfoldable pub add_governance_row :
    GovernanceRuleConfig
    → List (ChainKey × List GovernanceRuleConfig)
    → List (ChainKey × List GovernanceRuleConfig)
unfolding push_back
add_governance_row c map =
    push_back (record { chain_id = c.chain_id; address = c.contract_address }) c map

unfoldable pub add_mint_burn_row :
    MintBurnRuleConfig
    → List (ChainKey × List MintBurnRuleConfig)
    → List (ChainKey × List MintBurnRuleConfig)
unfolding push_back
add_mint_burn_row c map =
    push_back (record { chain_id = c.chain_id; address = c.contract_address }) c map

-- The key has the address as a text.
unfoldable pub add_approval_row :
    Bytes × ApprovalRuleConfig
    → List (ChainKey × List ApprovalRuleConfig)
    → List (ChainKey × List ApprovalRuleConfig)
unfolding push_back
add_approval_row c map = push_back (record { chain_id = c.1.chain_id; address = c.0 }) c.1 map

unfoldable pub add_bridge_row :
    BridgeRuleConfig
    → List (ChainKey × List BridgeRuleConfig)
    → List (ChainKey × List BridgeRuleConfig)
unfolding push_back
add_bridge_row c map = push_back (record { chain_id = c.chain_id; address = c.token_address }) c map

unfoldable pub add_oracle_row :
    OracleRuleConfig
    → List (ChainKey × List OracleRuleConfig)
    → List (ChainKey × List OracleRuleConfig)
unfolding push_back
add_oracle_row c map =
    push_back (record { chain_id = c.chain_id; address = c.aggregator_address }) c map

-- `bridge_addresses_` and `bridge_names_`
pub record Registry : Type 0 where
  pub bridge_addresses : List ChainKey
  pub bridge_names : List (ChainKey × Bytes)

unfoldable pub add_contract_row : ChainKey × Bytes → Registry → Registry
unfolding insert
add_contract_row c registry = record {
  bridge_addresses = insert c.0 registry.bridge_addresses;
  bridge_names = assign c.0 c.1 registry.bridge_names;
}

module _ {R : Type 0} ⦃row_of : PqxxRow R⦄ where
  unfoldable pub read_large_transfer_row :
      {J : Type 0} → Json J → R → Outcome (Option LargeTransferRuleConfig)
  unfolding read_params skipped
  read_large_transfer_row json row = do
    customer_id ← row_of.as_uint64 row (codes "customer_id")
    params_str ← row_of.as_string row (codes "params_jsonb")
    ok (skipped (read_params json customer_id params_str))

  unfoldable pub read_governance_row : R → Outcome GovernanceRuleConfig
  unfolding lower
  read_governance_row row = do
    customer_id ← row_of.as_uint64 row (codes "customer_id")
    chain_id ← row_of.as_uint64 row (codes "chain_id")
    contract_address ← row_of.as_string row (codes "contract_address")
    enabled ← row_of.as_bool row (codes "enabled")
    ok (record {
      customer_id = customer_id;
      chain_id = chain_id;
      contract_address = lower contract_address;
      enabled = enabled;
      action_filter = none;
    })

  unfoldable pub read_mint_burn_row : R → Outcome MintBurnRuleConfig
  unfolding lower
  read_mint_burn_row row = do
    customer_id ← row_of.as_uint64 row (codes "customer_id")
    chain_id ← row_of.as_uint64 row (codes "chain_id")
    contract_address ← row_of.as_string row (codes "contract_address")
    mint_threshold_raw ← row_of.as_string row (codes "mint_threshold_raw")
    burn_threshold_raw ← row_of.as_string row (codes "burn_threshold_raw")
    enabled ← row_of.as_bool row (codes "enabled")
    mint_threshold_be ← decimal_to_be_256 mint_threshold_raw
    burn_threshold_be ← decimal_to_be_256 burn_threshold_raw
    ok (record {
      customer_id = customer_id;
      chain_id = chain_id;
      contract_address = lower contract_address;
      mint_threshold_be = mint_threshold_be;
      burn_threshold_be = burn_threshold_be;
      enabled = enabled;
    })

  unfoldable pub read_approval_row : R → Outcome (Bytes × ApprovalRuleConfig)
  unfolding lower
  read_approval_row row = do
    customer_id ← row_of.as_uint64 row (codes "customer_id")
    chain_id ← row_of.as_uint64 row (codes "chain_id")
    token ← row_of.as_string row (codes "token_address")
    threshold_raw ← row_of.as_string row (codes "threshold_raw")
    alert_on_infinite ← row_of.as_bool row (codes "alert_on_infinite")
    enabled ← row_of.as_bool row (codes "enabled")
    token_address ← parse_hex_bytes (lower token) (replicate 20 0)
    threshold_be ← decimal_to_be_256 threshold_raw
    ok (
      lower token,
      record {
        customer_id = customer_id;
        chain_id = chain_id;
        token_address = token_address;
        threshold_be = threshold_be;
        alert_on_infinite = alert_on_infinite;
        enabled = enabled;
      },
    )

  unfoldable pub read_contract_row : R → Outcome (ChainKey × Bytes)
  unfolding lower
  read_contract_row row = do
    chain_id ← row_of.as_uint64 row (codes "chain_id")
    address ← row_of.as_string row (codes "address")
    bridge_name ← row_of.as_string row (codes "bridge_name")
    addr_bytes ← parse_hex_bytes (lower address) (replicate 20 0)
    ok (record { chain_id = chain_id; address = addr_bytes }, bridge_name)

  unfoldable pub read_bridge_row : R → Outcome BridgeRuleConfig
  unfolding lower
  read_bridge_row row = do
    customer_id ← row_of.as_uint64 row (codes "customer_id")
    chain_id ← row_of.as_uint64 row (codes "chain_id")
    token ← row_of.as_string row (codes "token_address")
    threshold_raw ← row_of.as_string row (codes "threshold_raw")
    token_address ← parse_hex_bytes (lower token) (replicate 20 0)
    threshold_be ← decimal_to_be_256 threshold_raw
    ok (record {
      customer_id = customer_id;
      chain_id = chain_id;
      token_address = token_address;
      threshold_be = threshold_be;
      enabled = true;
    })

  -- A number out of range or a malformed address leaves the row out.
  unfoldable pub read_oracle_row : R → Outcome (Option OracleRuleConfig)
  unfolding lower skipped
  read_oracle_row row = do
    customer_id ← row_of.as_uint64 row (codes "customer_id")
    chain_id ← row_of.as_uint64 row (codes "chain_id")
    aggregator ← row_of.as_string row (codes "aggregator_address")
    feed_label ← row_of.as_string row (codes "feed_label")
    bps ← row_of.as_int row (codes "spike_threshold_bps")
    decimals ← row_of.as_int row (codes "decimals")
    ok (
        if at_most bps 0 || not (at_most bps 100000)
        then none
        else if is_below_zero decimals || not (at_most decimals 255)
        then none
        else skipped (do
          aggregator_address ← parse_hex_bytes (lower aggregator) (replicate 20 0)
          ok (record {
            customer_id = customer_id;
            chain_id = chain_id;
            aggregator_address = aggregator_address;
            feed_label = feed_label;
            spike_threshold_bps = to_unsigned 32 bps;
            decimals = to_unsigned 8 decimals;
            enabled = true;
          })))
