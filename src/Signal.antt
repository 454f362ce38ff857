-- ===== src/Signal.antt =====
-- include/sentinel/risk/signal.hpp, and `Alert` of risk/alert_dispatcher.hpp.
-- Arrays and strings are byte lists; `uint8_t`, `uint32_t` and `uint64_t` are native numbers.
use risk_sentinel.Common.{
  ℕ, ◌^◌, Bool, true, ◌&&◌, Option, List, Bytes, ◌==◌, bytes_beq, Eq, ◌≡◌, ◌↔◌, arith,
  bytes_beq_iff,
}

pub data SignalType : Type 0 where
  unknown swap transfer mint_burn liquidity_change price_tick pool_snapshot governance approval
        oracle_update control :
      SignalType

abbrev pub signal_type_count : ℕ
signal_type_count = 11

-- `static_cast<uint8_t>(type)`
abbrev pub index : SignalType → ℕ
index unknown = 0
index swap = 1
index transfer = 2
index mint_burn = 3
index liquidity_change = 4
index price_tick = 5
index pool_snapshot = 6
index governance = 7
index approval = 8
index oracle_update = 9
index control = 10

-- `type == SignalType::...`
abbrev pub type_beq : SignalType → SignalType → Bool
type_beq a b = index a == index b

-- `1 << static_cast<uint8_t>(type)`
unfoldable pub make_mask : SignalType → ℕ
make_mask type = 2 ^ index type

pub record SignalMeta : Type 0 where
  pub timestamp_ms : ℕ
  pub internal_ingress_time_ms : ℕ
  pub block_number : Option ℕ
  pub tx_hash : Option Bytes
  pub is_final : Bool
  pub source_id : ℕ

pub record EvmLogEvent : Type 0 where
  pub chain_id : ℕ
  pub tx_index : ℕ
  pub log_index : ℕ
  pub removed : Bool
  pub address : Bytes
  pub topic_count : ℕ
  pub topics : List Bytes
  pub data_size : ℕ
  pub data_bytes : Bytes
  pub truncated : Bool

pub data Command : Type 0 where
  stop sync : Command

pub data GovernanceAction : Type 0 where
  unknown ownership_transferred paused unpaused role_granted role_revoked upgraded :
      GovernanceAction

pub record GovernanceEvent : Type 0 where
  pub action : GovernanceAction
  pub chain_id : ℕ
  pub contract_address : Bytes

pub data MintBurnDirection : Type 0 where
  unknown mint burn : MintBurnDirection

pub record MintBurnEvent : Type 0 where
  pub direction : MintBurnDirection
  pub chain_id : ℕ
  pub token_address : Bytes
  pub amount : Bytes
  pub sender : Bytes
  pub recipient : Bytes

pub record OracleUpdateEvent : Type 0 where
  pub chain_id : ℕ
  pub aggregator_address : Bytes
  pub current_answer : Bytes
  pub round_id : Bytes
  pub updated_at : ℕ

-- The alternatives of the `std::variant`.
pub data SignalPayload : Type 0 where
  monostate : SignalPayload
  evm_log : EvmLogEvent → SignalPayload
  price : ℕ → SignalPayload
  snapshot : ℕ → ℕ → SignalPayload
  governance_event : GovernanceEvent → SignalPayload
  control_signal : Command → SignalPayload
  mint_burn_event : MintBurnEvent → SignalPayload
  oracle_event : OracleUpdateEvent → SignalPayload

pub record Signal : Type 0 where
  pub type : SignalType
  pub meta : SignalMeta
  pub payload : SignalPayload

pub record Alert : Type 0 where
  pub customer_id : ℕ
  pub rule_type : Bytes
  pub message : Bytes
  pub timestamp_ms : ℕ
  pub internal_ingress_time_ms : ℕ
  pub amount_decimal : Option Bytes
  pub token_address : Option Bytes
  pub chain_id : Option ℕ

-- `GovernanceContractKey`, `MintBurnContractKey`, `ApprovalContractKey` and `TokenKey` (a hex
-- string), `BridgeRuleKey`, `BridgeAddressKey` and `OracleFeedKey` (the raw bytes): each is a chain
-- and an address, compared field by field.
pub record ChainKey : Type 0 where
  pub chain_id : ℕ
  pub address : Bytes

unfoldable pub key_beq : ChainKey → ChainKey → Bool
key_beq a b = a.chain_id == b.chain_id && bytes_beq a.address b.address

pub key_beq_iff : (a b : ChainKey) → (key_beq a b ≡ true) ↔ (a ≡ b)
unfolding key_beq
key_beq_iff a b = ground (arith, bytes_beq_iff a.address b.address)

instance abbrev pub key_eq : Eq ChainKey
key_eq = record { beq = key_beq; beq_iff = key_beq_iff }
