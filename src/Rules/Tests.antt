-- ===== src/Rules/Tests.antt =====
-- The rules on concrete events: thresholds, filters, bridges and oracle feeds.
use risk_sentinel.Common.{
  ℕ, ◌<◌, ◌≡◌, refl, Bool, true, false, not, ◌&&◌, none, some, List, [], ◌∷◌, ◌++◌, Bytes, codes,
  arith, IsArray, IsArray-all_of, replicate, map, filter_by, All, nat_eq, bytes_eq, bytes_beq, ◌↔◌,
}
use risk_sentinel.Common.Assoc.{find}
use risk_sentinel.Hex.{hex_pairs, hex_digit}
use risk_sentinel.Signal.{
  Signal, SignalType, SignalPayload, SignalMeta, EvmLogEvent, GovernanceEvent, GovernanceAction,
  MintBurnEvent, MintBurnDirection, ChainKey, key_eq, key_beq, evm_log, governance_event,
  mint_burn_event,
}
use risk_sentinel.Rules.{address_to_hex, bucket, unusable}
use risk_sentinel.Rules.LargeTransfer
use risk_sentinel.Rules.Approval
use risk_sentinel.Rules.MintBurn
use risk_sentinel.Rules.Governance
use risk_sentinel.Rules.BridgeTransfer

abbrev word : ℕ → Bytes
word b = replicate 31 0 ++ b ∷ []

word-IsArray : (b : ℕ) → b < 256 → IsArray 32 (word b)
word-IsArray b h = IsArray-all_of 32 (word b) (ground arith) refl

abbrev token : Bytes
token = replicate 19 0 ++ 17 ∷ []

abbrev meta : SignalMeta
meta = record {
  timestamp_ms = 1000;
  internal_ingress_time_ms = 1001;
  block_number = none;
  tx_hash = none;
  is_final = true;
  source_id = 1;
}

-- A transfer of 9 of the token, to the address 34.
abbrev transfer_log : EvmLogEvent
transfer_log = record {
  chain_id = 1;
  tx_index = 0;
  log_index = 0;
  removed = false;
  address = token;
  topic_count = 3;
  topics = word 1 ∷ word 33 ∷ word 34 ∷ [];
  data_size = 32;
  data_bytes = word 9;
  truncated = false;
}

abbrev signal_of : SignalType → SignalPayload → Signal
signal_of type payload = record { type = type; meta = meta; payload = payload }

abbrev transfer_signal : Signal
transfer_signal = signal_of SignalType.transfer (evm_log transfer_log)

abbrev large : ℕ → ℕ → LargeTransfer.LargeTransferRuleConfig
large customer threshold = record {
  customer_id = customer;
  chain_id = 1;
  token_address = token;
  threshold_be = word threshold;
}

abbrev large_configs : List LargeTransfer.LargeTransferRuleConfig
large_configs = large 1 8 ∷ large 2 9 ∷ []

large_configs-IsArray : All (λ config. IsArray 32 config.threshold_be) large_configs
large_configs-IsArray = (word-IsArray 8 (omega arith), (word-IsArray 9 (omega arith), tt))

large_example :
    LargeTransfer.evaluate large_configs transfer_signal []
    ≡ map (LargeTransfer.alert_for 1000 transfer_log) (
        filter_by
          (λ config. not (unusable transfer_log) && LargeTransfer.is_large transfer_log config)
          large_configs)
large_example =
    LargeTransfer.evaluate-is_large large_configs transfer_signal transfer_log [] refl
      (word-IsArray 9 (omega arith)) large_configs-IsArray

abbrev approval_signal : Signal
approval_signal = signal_of SignalType.approval (evm_log transfer_log)

abbrev approval_cfg : ℕ → Bool → Approval.ApprovalRuleConfig
approval_cfg threshold infinite = record {
  customer_id = 1;
  chain_id = 1;
  token_address = token;
  threshold_be = word threshold;
  alert_on_infinite = infinite;
  enabled = true;
}

abbrev hex_key : ChainKey
hex_key = record { chain_id = 1; address = codes "0x0000000000000000000000000000000000000011" }

abbrev approval_map : Approval.ConfigMap
approval_map = (hex_key, approval_cfg 8 false ∷ approval_cfg 200 true ∷ []) ∷ []

approval_key : Approval.key_of transfer_log ≡ hex_key
unfolding Approval.key_of address_to_hex hex_pairs hex_digit
approval_key = refl

approval_bucket :
    All
      (λ cfg. IsArray 32 cfg.threshold_be)
      (bucket (find (Approval.key_of transfer_log) approval_map))
unfolding find key_beq bytes_beq Approval.key_of address_to_hex hex_pairs hex_digit
approval_bucket = (word-IsArray 8 (omega arith), (word-IsArray 200 (omega arith), tt))

approval_example :
    Approval.evaluate approval_map approval_signal []
    ≡ map (Approval.alert_for 1000 transfer_log) (
        filter_by
          (λ cfg. not (unusable transfer_log) && Approval.is_alert transfer_log cfg)
          (bucket (find (Approval.key_of transfer_log) approval_map)))
approval_example =
    Approval.evaluate-is_alert approval_map approval_signal transfer_log [] refl refl
      (word-IsArray 9 (omega arith)) approval_bucket

-- A mint of 9 of the token.
abbrev mint_event : MintBurnEvent
mint_event = record {
  direction = MintBurnDirection.mint;
  chain_id = 1;
  token_address = token;
  amount = word 9;
  sender = replicate 20 0;
  recipient = replicate 20 5;
}

abbrev mint_map : MintBurn.ConfigMap
mint_map =
    (
      hex_key,
      record {
        customer_id = 4;
        chain_id = 1;
        contract_address = token;
        mint_threshold_be = word 9;
        burn_threshold_be = word 50;
        enabled = true;
      }
          ∷ [],
    )
    ∷ []

mint_bucket : All MintBurn.HasThresholds (bucket (find (MintBurn.key_of mint_event) mint_map))
unfolding find key_beq bytes_beq MintBurn.key_of address_to_hex hex_pairs hex_digit
mint_bucket = ((word-IsArray 9 (omega arith), word-IsArray 50 (omega arith)), tt)

mint_example :
    MintBurn.evaluate mint_map (signal_of SignalType.mint_burn (mint_burn_event mint_event)) []
    ≡ map (MintBurn.alert_for 1000 mint_event) (
        filter_by
          (MintBurn.reaches mint_event)
          (bucket (find (MintBurn.key_of mint_event) mint_map)))
mint_example =
    MintBurn.evaluate-reaches mint_map (signal_of SignalType.mint_burn (mint_burn_event mint_event))
      mint_event [] refl refl (word-IsArray 9 (omega arith)) mint_bucket

abbrev paused_event : GovernanceEvent
paused_event = record { action = GovernanceAction.paused; chain_id = 1; contract_address = token }

abbrev governance_map : Governance.ConfigMap
governance_map =
    (
      hex_key,
      record {
        customer_id = 4;
        chain_id = 1;
        contract_address = token;
        enabled = true;
        action_filter = some GovernanceAction.paused;
      }
          ∷ [],
    )
    ∷ []

governance_example :
    (Governance.evaluate governance_map
        (signal_of SignalType.governance (governance_event paused_event))
        []
      ≡ map (Governance.alert_for 1000 paused_event) (
          filter_by
            (Governance.listens GovernanceAction.paused)
            (bucket (find (Governance.key_of paused_event) governance_map))))
    × ((cfg : Governance.GovernanceRuleConfig)
        → (Governance.listens GovernanceAction.paused cfg ≡ true)
          ↔ Governance.Listens GovernanceAction.paused cfg)
governance_example =
    Governance.evaluate-Listens governance_map
      (signal_of SignalType.governance (governance_event paused_event)) paused_event [] refl refl

-- The recipient of the transfer is a bridge.
abbrev bridge_rule : BridgeTransfer.BridgeTransferRule
bridge_rule = record {
  configs_by_key =
      (
        record { chain_id = 1; address = token },
        record {
          customer_id = 6;
          chain_id = 1;
          token_address = token;
          threshold_be = word 3;
          enabled = true;
        }
            ∷ [],
      )
      ∷ [];
  bridge_addresses = record { chain_id = 1; address = replicate 19 0 ++ 34 ∷ [] } ∷ [];
  bridge_names = [];
}

bridge_bucket :
    All
      (λ config. IsArray 32 config.threshold_be)
      (bucket (find (BridgeTransfer.rule_key transfer_log) bridge_rule.configs_by_key))
unfolding find key_beq bytes_beq BridgeTransfer.rule_key
bridge_bucket = (word-IsArray 3 (omega arith), tt)

bridge_found : BridgeTransfer.skips bridge_rule transfer_log ≡ false
unfolding BridgeTransfer.contains BridgeTransfer.bridge_key key_beq bytes_beq unusable
bridge_found = refl

bridge_example :
    BridgeTransfer.evaluate bridge_rule transfer_signal []
    ≡ map
        (BridgeTransfer.alert_for 1000 transfer_log
          (find (BridgeTransfer.bridge_key transfer_log) bridge_rule.bridge_names))
        (filter_by
          (λ config.
            not (BridgeTransfer.skips bridge_rule transfer_log)
            && BridgeTransfer.exceeds transfer_log config)
          (bucket (find (BridgeTransfer.rule_key transfer_log) bridge_rule.configs_by_key)))
bridge_example =
    BridgeTransfer.evaluate-exceeds bridge_rule transfer_signal transfer_log [] refl refl
      (word-IsArray 9 (omega arith)) bridge_bucket
