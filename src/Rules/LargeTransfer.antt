-- ===== src/Rules/LargeTransfer.antt =====
-- include/sentinel/risk/rules/large_transfer_rule.hpp: `LargeTransferRule`.
use risk_sentinel.Common.{
  ℕ, Bool, Option, none, some, List, ◌++◌, Bytes, codes, ◌≡◌, if◌then◌else◌, map, All, IsArray,
  filter_by, ltb, not, ◌&&◌, ◌==◌, bytes_beq, take, arith,
}
use risk_sentinel.Hex.{greater_be_256, uint256_be_to_decimal}
use risk_sentinel.Hex.Value.{be_value}
use risk_sentinel.Hex.Compare.{greater_be_256-ltb}
use risk_sentinel.Signal.{Signal, SignalType, Alert, EvmLogEvent, make_mask, evm_log}
use risk_sentinel.Rules.{
  address_to_hex, unusable, emit_each, as_evm, guarded-filter, emit_each-filter,
}

pub record LargeTransferRuleConfig : Type 0 where
  pub customer_id : ℕ
  pub chain_id : ℕ
  pub token_address : Bytes
  pub threshold_be : Bytes

unfoldable pub interests : ℕ
unfolding make_mask
interests = make_mask SignalType.transfer

abbrev pub rule_type_name : Bytes
rule_type_name = codes "large_transfer"

unfoldable pub alert_for : ℕ → EvmLogEvent → LargeTransferRuleConfig → Alert
alert_for timestamp_ms evm config = record {
  customer_id = config.customer_id;
  rule_type = codes "large_transfer";
  message = codes "Large transfer detected";
  timestamp_ms = timestamp_ms;
  internal_ingress_time_ms = 0;
  amount_decimal = some (uint256_be_to_decimal evm.data_bytes);
  token_address = some (address_to_hex config.token_address);
  chain_id = some config.chain_id;
}

-- One round of the loop over `configs_`.
unfoldable pub body : ℕ → EvmLogEvent → LargeTransferRuleConfig → Option Alert
body timestamp_ms evm config =
    if not (evm.chain_id == config.chain_id)
    then none
    else if not (bytes_beq evm.address config.token_address)
    then none
    else if greater_be_256 evm.data_bytes config.threshold_be
    then some (alert_for timestamp_ms evm config)
    else none

unfoldable pub evaluate : List LargeTransferRuleConfig → Signal → List Alert → List Alert
evaluate configs signal out = elim (as_evm signal.payload) [
  | none ↦ out
  | some evm ↦
      if unusable evm then out else emit_each (body signal.meta.timestamp_ms evm) configs out
]

-- The number that a transfer moves: the first word of the log's data.
abbrev pub amount : EvmLogEvent → ℕ
amount evm = be_value (take 32 evm.data_bytes)

-- What a configuration asks for: this token on this chain, and more than the threshold.
abbrev pub is_large : EvmLogEvent → LargeTransferRuleConfig → Bool
is_large evm config =
    evm.chain_id == config.chain_id
    && bytes_beq evm.address config.token_address
    && ltb (be_value config.threshold_be) (amount evm)

body_lem :
    (timestamp_ms : ℕ) (evm : EvmLogEvent)
    → IsArray 32 (take 32 evm.data_bytes)
    → (config : LargeTransferRuleConfig) → IsArray 32 config.threshold_be
    → body timestamp_ms evm config
      ≡ (if is_large evm config then some (alert_for timestamp_ms evm config) else none)
unfolding body
body_lem timestamp_ms evm h config ht =
    ground (arith, greater_be_256-ltb evm.data_bytes config.threshold_be h ht)

-- A raw log, with a word of data and thresholds of 32 bytes, raises, in the order of the
-- configurations, one alert for each that asks for its token on its chain with a threshold
-- strictly below the amount, and no other; a log that is removed, truncated or too short raises
-- none.
pub evaluate-is_large :
    (configs : List LargeTransferRuleConfig) (signal : Signal) (evm : EvmLogEvent)
    (out : List Alert)
    → signal.payload ≡ evm_log evm
    → IsArray 32 (take 32 evm.data_bytes)
    → All (λ config. IsArray 32 config.threshold_be) configs
    → evaluate configs signal out
      ≡ out
        ++ map
            (alert_for signal.meta.timestamp_ms evm)
            (filter_by (λ config. not (unusable evm) && is_large evm config) configs)
unfolding evaluate as_evm
evaluate-is_large configs signal evm out p h all = rw p (
    guarded-filter (unusable evm) (is_large evm) (alert_for signal.meta.timestamp_ms evm) configs
      out _
      (λ _.
        emit_each-filter (body signal.meta.timestamp_ms evm) (is_large evm)
          (alert_for signal.meta.timestamp_ms evm) (λ config. IsArray 32 config.threshold_be)
          (body_lem signal.meta.timestamp_ms evm h) configs out all))
