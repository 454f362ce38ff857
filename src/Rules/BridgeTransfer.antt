-- ===== src/Rules/BridgeTransfer.antt =====
-- src/risk/rules/bridge_transfer_rule.cpp: `BridgeTransferRule`.
use risk_sentinel.Common.{
  ℕ, Bool, true, false, Option, none, some, List, [], ◌∷◌, ◌++◌, Bytes, codes, ◌≡◌, refl,
  if◌then◌else◌, map, All, IsArray, filter_by, ltb, not, ◌&&◌, ◌||◌, take, drop, get_or, arith, ◌∙◌,
}
use risk_sentinel.Common.Assoc.{find}
use risk_sentinel.Hex.{greater_be_256, uint256_be_to_decimal}
use risk_sentinel.Hex.Value.{be_value}
use risk_sentinel.Hex.Compare.{greater_be_256-ltb}
use risk_sentinel.Signal.{
  Signal, SignalType, type_beq, Alert, EvmLogEvent, ChainKey, key_beq, key_eq, make_mask, evm_log,
}
use risk_sentinel.Rules.{
  address_to_hex, unusable, emit_found, as_evm, found-filter, guarded-filter, bucket,
}

pub record BridgeRuleConfig : Type 0 where
  pub customer_id : ℕ
  pub chain_id : ℕ
  pub token_address : Bytes
  pub threshold_be : Bytes
  pub enabled : Bool

-- The rule's members: the configurations, the set of bridges and their names.
pub record BridgeTransferRule : Type 0 where
  pub configs_by_key : List (ChainKey × List BridgeRuleConfig)
  pub bridge_addresses : List ChainKey
  pub bridge_names : List (ChainKey × Bytes)

unfoldable pub interests : ℕ
unfolding make_mask
interests = make_mask SignalType.transfer

-- `std::unordered_set::contains`
unfoldable pub contains : List ChainKey → ChainKey → Bool
contains [] key = false
contains (k ∷ keys) key = key_beq k key || contains keys key

-- `topics[2]` without its first twelve bytes, on the log's chain.
unfoldable pub bridge_key : EvmLogEvent → ChainKey
bridge_key evm = record { chain_id = evm.chain_id; address = drop 12 (get_or evm.topics 2 []) }

unfoldable pub rule_key : EvmLogEvent → ChainKey
rule_key evm = record { chain_id = evm.chain_id; address = evm.address }

-- `bridge_name_ptr ? *bridge_name_ptr : kUnknownBridge`
unfoldable pub shown_name : Option Bytes → Bytes
shown_name none = codes "unknown bridge"
shown_name (some name) = name

unfoldable pub alert_for : ℕ → EvmLogEvent → Option Bytes → BridgeRuleConfig → Alert
alert_for timestamp_ms evm bridge_name config = record {
  customer_id = config.customer_id;
  rule_type = codes "bridge_transfer";
  message = codes "Large transfer to bridge '" ++ (shown_name bridge_name ++ codes "' detected");
  timestamp_ms = timestamp_ms;
  internal_ingress_time_ms = 0;
  amount_decimal = some (uint256_be_to_decimal evm.data_bytes);
  token_address = some (address_to_hex evm.address);
  chain_id = some config.chain_id;
}

unfoldable pub body : ℕ → EvmLogEvent → Option Bytes → BridgeRuleConfig → Option Alert
body timestamp_ms evm bridge_name config =
    if not config.enabled
    then none
    else if not (greater_be_256 evm.data_bytes config.threshold_be)
    then none
    else some (alert_for timestamp_ms evm bridge_name config)

unfoldable pub evaluate : BridgeTransferRule → Signal → List Alert → List Alert
evaluate rule signal out =
    if not (type_beq signal.type SignalType.transfer) then out else elim (as_evm signal.payload) [
      | none ↦ out
      | some evm ↦
          if unusable evm
          then out
          else if not (contains rule.bridge_addresses (bridge_key evm))
          then out
          else emit_found
              (body signal.meta.timestamp_ms evm (find (bridge_key evm) rule.bridge_names))
              (find (rule_key evm) rule.configs_by_key) out
    ]

-- The number that a transfer moves: the first word of the log's data.
abbrev pub amount : EvmLogEvent → ℕ
amount evm = be_value (take 32 evm.data_bytes)

abbrev pub exceeds : EvmLogEvent → BridgeRuleConfig → Bool
exceeds evm config = config.enabled && ltb (be_value config.threshold_be) (amount evm)

-- The log is a transfer that was not reverted, to an address of the bridge set.
abbrev pub skips : BridgeTransferRule → EvmLogEvent → Bool
skips rule evm = unusable evm || not (contains rule.bridge_addresses (bridge_key evm))

body_lem :
    (timestamp_ms : ℕ) (evm : EvmLogEvent) (name : Option Bytes)
    → IsArray 32 (take 32 evm.data_bytes)
    → (config : BridgeRuleConfig) → IsArray 32 config.threshold_be
    → body timestamp_ms evm name config
      ≡ (if exceeds evm config then some (alert_for timestamp_ms evm name config) else none)
unfolding body
body_lem timestamp_ms evm name h config ht =
    ground (arith, greater_be_256-ltb evm.data_bytes config.threshold_be h ht)

two_guards {ℓ} :
    {A : Type ℓ} (a b : Bool) (x y : A)
    → (if a then x else if b then x else y) ≡ (if a || b then x else y)
two_guards true b x y = refl
two_guards false b x y = refl

-- A transfer log, with a word of data and thresholds of 32 bytes, raises, in the order of the
-- bucket of its chain and token, one alert for each enabled configuration whose threshold is
-- strictly below the amount, and no other, provided that the log is usable and its recipient is a
-- bridge of that chain; otherwise it raises none.
pub evaluate-exceeds :
    (rule : BridgeTransferRule) (signal : Signal) (evm : EvmLogEvent) (out : List Alert)
    → signal.type ≡ SignalType.transfer
    → signal.payload ≡ evm_log evm
    → IsArray 32 (take 32 evm.data_bytes)
    → All
        (λ config. IsArray 32 config.threshold_be)
        (bucket (find (rule_key evm) rule.configs_by_key))
    → evaluate rule signal out
      ≡ out
        ++ map (alert_for signal.meta.timestamp_ms evm (find (bridge_key evm) rule.bridge_names)) (
            filter_by
              (λ config. not (skips rule evm) && exceeds evm config)
              (bucket (find (rule_key evm) rule.configs_by_key)))
unfolding evaluate as_evm
evaluate-exceeds rule signal evm out t p h all =
    let name = find (bridge_key evm) rule.bridge_names in
    let ts = signal.meta.timestamp_ms in
    rw (t, p)
      (two_guards (unusable evm) (not (contains rule.bridge_addresses (bridge_key evm))) out _
        ∙ guarded-filter (skips rule evm) (exceeds evm) (alert_for ts evm name)
            (bucket (find (rule_key evm) rule.configs_by_key)) out _
            (λ _.
              found-filter (body ts evm name) (exceeds evm) (alert_for ts evm name)
                (λ config. IsArray 32 config.threshold_be) (body_lem ts evm name h)
                (find (rule_key evm) rule.configs_by_key) out all))
