-- ===== src/Backtest/Tests.antt =====
-- Tests of src/backtest/ on concrete inputs, and instances of the theorems.
use risk_sentinel.Common.{
  ℕ, ◌≡◌, ◌↔◌, refl, true, false, none, some, List, [], ◌∷◌, ◌++◌, map, Bytes, codes, filter_by, ok,
  err, replicate, ok_value, arith, not, ◌&&◌,
}
use risk_sentinel.Common.{bytes_beq}
use risk_sentinel.Common.Assoc.{find, assign}
use risk_sentinel.Common.Digits.{to_string, put_digits}
use risk_sentinel.Hex.{lacks_prefix, validate_hex, parse_hex_bytes, decimal_to_be_256}
use risk_sentinel.Signal.{Signal, SignalType, EvmLogEvent, evm_log}
use risk_sentinel.Rules.{unusable}
use risk_sentinel.Rules.Approval
use risk_sentinel.Rules.Approval.{ApprovalRuleConfig}
use risk_sentinel.Backtest.Nodes.{
  Value, text, num, flag, seq, mapping, nil, cons, end, member, value_yaml, value_at, word_of,
  is_null_value, is_seq, is_mapping, keys_of, items_of, text_of, int_of, bool_of,
}
use risk_sentinel.Backtest.Fields.{warn_unknown_keys, require_uint}
use risk_sentinel.Backtest.Config.{BacktestConfig}
use risk_sentinel.Backtest.Load.{load_backtest_config}
use risk_sentinel.Backtest.Customers.{validate_customer_ids}
use risk_sentinel.Backtest.Feeds.{read_approval, add_approval, parse_approval}
use risk_sentinel.Backtest.Items.{AreItems}
use risk_sentinel.Backtest.Buckets.{read_all, add_all, asks_for, approval_items-alerts}
use risk_sentinel.Engine
use risk_sentinel.Engine.AnyRule.{any_rule, rule_type_name_of}
use risk_sentinel.Engine.Registered.{register_all}
use risk_sentinel.Backtest.App.{registered, active_rule_types}
use risk_sentinel.Backtest.Active.{candidates, chosen, registered-configured}
use risk_sentinel.Backtest.Invariant.{IsChecked}
use risk_sentinel.Backtest.Declared.{
  AllDeclared, validate_customer_ids-AllDeclared, load_backtest_config-IsChecked,
}

abbrev token : Bytes
token = codes "0xAAAAAAAAAAAAAAAAAAAAAAAAAAAAAAAAAAAAAAAA"

abbrev approval_item : Value
approval_item = mapping (
    member (codes "customer_id") (num 7) (
      member (codes "chain_id") (num 42161) (
        member (codes "token_address") (text token) (
          member (codes "threshold_decimal") (text (codes "1000"))
            (member (codes "comment") (flag true) end)))))

abbrev oracle_item : Value
oracle_item = mapping (
    member (codes "customer_id") (num 7) (
      member (codes "chain_id") (num 1) (
        member (codes "aggregator_address") (text token) (
          member (codes "feed_label") (text (codes "ETH/USD")) (
            member (codes "spike_threshold_bps") (num 500)
              (member (codes "decimals") (num 8) end))))))

abbrev customer : ℕ → Value
customer id =
    mapping (member (codes "id") (num id) (member (codes "key") (text (codes "acme")) end))

abbrev file_of : ℕ → Value
file_of id = mapping (
    member (codes "chain") (text (codes "arbitrum")) (
      member (codes "start_block") (num 10) (
        member (codes "end_block") (num 20) (
          member (codes "output_path") (text (codes "out.jsonl")) (
            member (codes "customers") (seq (cons (customer id) nil)) (
              member (codes "rules")
                (mapping (
                  member (codes "approval") (seq (cons approval_item nil))
                    (member (codes "oracle_update") (seq (cons oracle_item nil)) end)))
                end))))))

abbrev path : Bytes
path = codes "backtest.yaml"

abbrev no_config : BacktestConfig
no_config = record {
  chain = [];
  start_block = 0;
  end_block = 0;
  output_path = [];
  max_block_range = 0;
  customers = [];
  large_transfer_configs = [];
  governance_rules_by_contract = [];
  mint_burn_rules_by_contract = [];
  approval_rules_by_contract = [];
  bridge_configs_by_key = [];
  bridge_addresses = [];
  bridge_names = [];
  oracle_configs_by_feed = [];
}

loaded : BacktestConfig
unfolding ok_value
loaded = ok_value no_config (load_backtest_config path (some (ok (some (file_of 7)))))

loads : load_backtest_config path (some (ok (some (file_of 7)))) ≡ ok loaded
unfolding loaded load_backtest_config value_at word_of is_null_value is_seq is_mapping keys_of
    items_of text_of int_of bool_of warn_unknown_keys bytes_beq lacks_prefix validate_hex
    parse_hex_bytes decimal_to_be_256 assign find
loads = refl

load_backtest_config-IsChecked_example : IsChecked loaded × AllDeclared loaded
load_backtest_config-IsChecked_example =
    load_backtest_config-IsChecked path (some (ok (some (file_of 7)))) loaded loads

undeclared :
    load_backtest_config path (some (ok (some (file_of 8))))
    ≡ err (
        codes
          "backtest config: rule section 'approval' references undeclared customer_id=7; add it to the customers section")
unfolding load_backtest_config value_at word_of is_null_value is_seq is_mapping keys_of items_of
    text_of int_of bool_of warn_unknown_keys bytes_beq lacks_prefix validate_hex parse_hex_bytes
    decimal_to_be_256 assign find to_string put_digits
undeclared = refl

validate_customer_ids-AllDeclared_example :
    (validate_customer_ids loaded ≡ ok tt) ↔ AllDeclared loaded
validate_customer_ids-AllDeclared_example = validate_customer_ids-AllDeclared loaded

abbrev token_bytes : Bytes
token_bytes = replicate 20 0xaa

abbrev approval_log : EvmLogEvent
approval_log = record {
  chain_id = 42161;
  tx_index = 0;
  log_index = 0;
  removed = false;
  address = token_bytes;
  topic_count = 3;
  topics = replicate 4 (replicate 32 0);
  data_size = 32;
  data_bytes = replicate 30 0 ++ replicate 226 4;
  truncated = false;
}

abbrev approval_signal : Signal
approval_signal = record {
  type = SignalType.approval;
  meta = record {
    timestamp_ms = 5;
    internal_ingress_time_ms = 6;
    block_number = some 11;
    tx_hash = none;
    is_final = false;
    source_id = 1;
  };
  payload = evm_log approval_log;
}

abbrev approval_config : ApprovalRuleConfig
approval_config = record {
  customer_id = 7;
  chain_id = 42161;
  token_address = token_bytes;
  threshold_be = replicate 30 0 ++ 3 ∷ 232 ∷ [];
  alert_on_infinite = false;
  enabled = true;
}

abbrev approval_read : List (Bytes × ApprovalRuleConfig)
approval_read = (codes "0xaaaaaaaaaaaaaaaaaaaaaaaaaaaaaaaaaaaaaaaa", approval_config) ∷ []

reads : read_all (codes "rules.approval") read_approval 0 (approval_item ∷ []) ≡ ok approval_read
unfolding read_approval value_at word_of is_null_value is_seq is_mapping keys_of items_of text_of
    int_of bool_of warn_unknown_keys bytes_beq lacks_prefix validate_hex parse_hex_bytes
    decimal_to_be_256 require_uint
reads = refl

approval_items-alerts_example :
    AreItems (approval_item ∷ []) (approval_config ∷ [])
    × (parse_approval (some (seq (cons approval_item nil))) no_config
        ≡ ok (add_all add_approval approval_read no_config))
    × (Approval.evaluate
          (add_all add_approval approval_read no_config).approval_rules_by_contract
          approval_signal
          []
        ≡ map (Approval.alert_for 5 approval_log) (
            filter_by
              (λ c.
                asks_for approval_log c
                && (not (unusable approval_log) && Approval.is_alert approval_log c))
              (approval_config ∷ [])))
unfolding is_null_value is_seq items_of
approval_items-alerts_example =
    approval_items-alerts (seq (cons approval_item nil)) no_config approval_read approval_signal
      approval_log [] refl refl reads refl refl refl (omega arith) (omega arith)

registered-configured_example :
    (registered loaded ≡ register_all Engine.make (chosen (candidates loaded)))
    × (active_rule_types loaded ≡ map rule_type_name_of (chosen (candidates loaded)))
registered-configured_example = registered-configured loaded

two_rules : active_rule_types loaded ≡ codes "approval" ∷ codes "oracle_update" ∷ []
unfolding loaded active_rule_types load_backtest_config value_at word_of is_null_value is_seq
    is_mapping keys_of items_of text_of int_of bool_of warn_unknown_keys bytes_beq lacks_prefix
    validate_hex parse_hex_bytes decimal_to_be_256 assign find
two_rules = refl
