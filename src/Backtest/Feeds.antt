-- ===== src/Backtest/Feeds.antt =====
-- src/backtest/backtest_config.cpp: the rules on approvals, bridges and oracles.
use risk_sentinel.Common.{
  true, false, not, ◌||◌, Option, [], ◌∷◌, ◌++◌, Bytes, codes, replicate, Outcome, ok, ◌>>=◌, ◌>>◌,
  throw_if,
}
use risk_sentinel.Common.Int.{at_most, is_below_zero, to_unsigned}
use risk_sentinel.Hex.{parse_hex_bytes}
use risk_sentinel.Signal.{key_eq}
use risk_sentinel.Rules.Approval.{ApprovalRuleConfig}
use risk_sentinel.Rules.BridgeTransfer.{BridgeRuleConfig}
use risk_sentinel.Rules.OracleUpdate.{OracleRuleConfig}
use risk_sentinel.Backtest.Yaml.{Yaml}
use risk_sentinel.Backtest.Fields.{warn_unknown_keys, require_string, require_uint, require_int}
use risk_sentinel.Backtest.Config.{
  BacktestConfig, push_back, parse_section, read_address, read_threshold, optional,
}

unfoldable pub add_approval : Bytes × ApprovalRuleConfig → BacktestConfig → BacktestConfig
unfolding push_back
add_approval c cfg = record cfg {
  approval_rules_by_contract =
      push_back (record { chain_id = c.1.chain_id; address = c.0 }) c.1
        cfg.approval_rules_by_contract;
}

unfoldable pub add_bridge_transfers : BridgeRuleConfig → BacktestConfig → BacktestConfig
unfolding push_back
add_bridge_transfers c cfg = record cfg {
  bridge_configs_by_key =
      push_back (record { chain_id = c.chain_id; address = c.token_address }) c
        cfg.bridge_configs_by_key;
}

unfoldable pub add_oracle_update : OracleRuleConfig → BacktestConfig → BacktestConfig
unfolding push_back
add_oracle_update c cfg = record cfg {
  oracle_configs_by_feed =
      push_back (record { chain_id = c.chain_id; address = c.aggregator_address }) c
        cfg.oracle_configs_by_feed;
}

module _ {Node : Type 0} ⦃yaml : Yaml Node⦄ where
  unfoldable pub read_approval : Bytes → Node → Outcome (Bytes × ApprovalRuleConfig)
  unfolding read_address read_threshold optional
  read_approval ctx item = do
    _ ← warn_unknown_keys item (
        codes "customer_id"
        ∷ codes "chain_id"
        ∷ codes "token_address"
        ∷ codes "threshold_decimal"
        ∷ codes "alert_on_infinite"
        ∷ [])
    customer_id ← require_uint item (codes "customer_id") ctx
    chain_id ← require_uint item (codes "chain_id") ctx
    token ← read_address item (codes "token_address") ctx
    token_address ← parse_hex_bytes token (replicate 20 0)
    threshold_be ← read_threshold item (codes "threshold_decimal") ctx
    infinite ← yaml.subscript item (codes "alert_on_infinite")
    alert_on_infinite ← optional yaml.as_bool false infinite
    ok (
      token,
      record {
        customer_id = customer_id;
        chain_id = chain_id;
        token_address = token_address;
        threshold_be = threshold_be;
        alert_on_infinite = alert_on_infinite;
        enabled = true;
      },
    )

  -- The key holds the address as text.
  unfoldable pub parse_approval : Option Node → BacktestConfig → Outcome BacktestConfig
  unfolding parse_section read_approval add_approval
  parse_approval = parse_section (codes "rules.approval") read_approval add_approval

  unfoldable pub read_bridge : Bytes → Node → Outcome BridgeRuleConfig
  unfolding read_address read_threshold
  read_bridge ctx item = do
    _ ← warn_unknown_keys item (
        codes "customer_id"
        ∷ codes "chain_id"
        ∷ codes "token_address"
        ∷ codes "threshold_decimal"
        ∷ [])
    customer_id ← require_uint item (codes "customer_id") ctx
    chain_id ← require_uint item (codes "chain_id") ctx
    token ← read_address item (codes "token_address") ctx
    token_address ← parse_hex_bytes token (replicate 20 0)
    threshold_be ← read_threshold item (codes "threshold_decimal") ctx
    ok (record {
      customer_id = customer_id;
      chain_id = chain_id;
      token_address = token_address;
      threshold_be = threshold_be;
      enabled = true;
    })

  unfoldable pub parse_bridge_transfers : Option Node → BacktestConfig → Outcome BacktestConfig
  unfolding parse_section read_bridge add_bridge_transfers
  parse_bridge_transfers =
      parse_section (codes "rules.bridge_transfers") read_bridge add_bridge_transfers

  -- `static_cast` of the checked numbers to 32 and 8 bits
  unfoldable pub read_oracle : Bytes → Node → Outcome OracleRuleConfig
  unfolding read_address require_string require_int
  read_oracle ctx item = do
    _ ← warn_unknown_keys item (
        codes "customer_id"
        ∷ codes "chain_id"
        ∷ codes "aggregator_address"
        ∷ codes "feed_label"
        ∷ codes "spike_threshold_bps"
        ∷ codes "decimals"
        ∷ [])
    customer_id ← require_uint item (codes "customer_id") ctx
    chain_id ← require_uint item (codes "chain_id") ctx
    addr ← read_address item (codes "aggregator_address") ctx
    aggregator_address ← parse_hex_bytes addr (replicate 20 0)
    feed_label ← require_string item (codes "feed_label") ctx
    bps ← require_int item (codes "spike_threshold_bps") ctx
    throw_if (at_most bps 0 || not (at_most bps 100000))
        (codes "backtest config: spike_threshold_bps out of range in " ++ ctx)
    dec ← require_int item (codes "decimals") ctx
    throw_if (is_below_zero dec || not (at_most dec 255))
        (codes "backtest config: decimals out of range in " ++ ctx)
    ok (record {
      customer_id = customer_id;
      chain_id = chain_id;
      aggregator_address = aggregator_address;
      feed_label = feed_label;
      spike_threshold_bps = to_unsigned 32 bps;
      decimals = to_unsigned 8 dec;
      enabled = true;
    })

  unfoldable pub parse_oracle_update : Option Node → BacktestConfig → Outcome BacktestConfig
  unfolding parse_section read_oracle add_oracle_update
  parse_oracle_update = parse_section (codes "rules.oracle_update") read_oracle add_oracle_update
