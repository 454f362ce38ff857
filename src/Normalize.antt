-- ===== src/Normalize.antt =====
-- src/events/normalize.cpp: a raw log in hex becomes a signal.
pub mod Arrays
pub mod Classes
pub mod Printed
mod Tests
use risk_sentinel.Common.{
  ℕ, zero, suc, ◌+◌, ◌-◌, ◌*◌, ◌/◌, ◌%◌, ◌^◌, min, Bool, true, false, ◌&&◌, ◌||◌, Option, none,
  some, List, [], ◌∷◌, Bytes, codes, length, get_or, take, drop, replicate, all_of, ltb, leb, ◌==◌,
  if◌then◌else◌, bytes_beq, Outcome, ok, err, ◌>>=◌, ◌>>◌, throw_if,
}
use risk_sentinel.Hex.{hex_nibble, joined, parse_hex_uint64, parse_hex_bytes, validate_hex}
use risk_sentinel.Topics.{
  topic_transfer, topic_swap_v2, topic_swap_v3, topic_mint, topic_burn, topic_ownership_transferred,
  topic_paused, topic_unpaused, topic_role_granted, topic_role_revoked, topic_upgraded,
  topic_approval, topic_oracle_answer_updated,
}
use risk_sentinel.Signal.{
  Signal, SignalType, SignalPayload, SignalMeta, EvmLogEvent, GovernanceAction, GovernanceEvent,
  MintBurnDirection, MintBurnEvent, OracleUpdateEvent, type_beq, evm_log, governance_event,
  mint_burn_event, oracle_event,
}
use risk_sentinel.Rules.OracleUpdate.{read_word}

-- The strings of a log as the adapter hands them over.
pub record RawLog : Type 0 where
  pub address : Bytes
  pub topics : List Bytes
  pub hex_data : Bytes
  pub block_number : Bytes
  pub transaction_hash : Bytes
  pub log_index : Bytes
  pub transaction_index : Bytes
  pub removed : Bool

unfoldable pub classify_topic0 : Bytes → SignalType
classify_topic0 topic0 =
    if bytes_beq topic0 topic_transfer
    then SignalType.transfer
    else if bytes_beq topic0 topic_swap_v2
    then SignalType.swap
    else if bytes_beq topic0 topic_swap_v3
    then SignalType.swap
    else if bytes_beq topic0 topic_mint
    then SignalType.liquidity_change
    else if bytes_beq topic0 topic_burn
    then SignalType.liquidity_change
    else if bytes_beq topic0 topic_ownership_transferred
        || (bytes_beq topic0 topic_paused
            || (bytes_beq topic0 topic_unpaused
                || (bytes_beq topic0 topic_role_granted
                    || (bytes_beq topic0 topic_role_revoked || bytes_beq topic0 topic_upgraded))))
    then SignalType.governance
    else if bytes_beq topic0 topic_approval
    then SignalType.approval
    else if bytes_beq topic0 topic_oracle_answer_updated
    then SignalType.oracle_update
    else SignalType.unknown

-- The chain of tests that finds the action of a governance log.
unfoldable pub action_of : Bytes → GovernanceAction
action_of topic0 =
    if bytes_beq topic0 topic_ownership_transferred
    then GovernanceAction.ownership_transferred
    else if bytes_beq topic0 topic_paused
    then GovernanceAction.paused
    else if bytes_beq topic0 topic_unpaused
    then GovernanceAction.unpaused
    else if bytes_beq topic0 topic_role_granted
    then GovernanceAction.role_granted
    else if bytes_beq topic0 topic_role_revoked
    then GovernanceAction.role_revoked
    else if bytes_beq topic0 topic_upgraded
    then GovernanceAction.upgraded
    else GovernanceAction.unknown

unfoldable pub is_zero : Bytes → Bool
is_zero = all_of (λ b. b == 0)

abbrev pub topic : ℕ → EvmLogEvent → Bytes
topic i evm = get_or evm.topics i []

unfoldable pub direction_of : Bool → Bool → MintBurnDirection
direction_of is_mint is_burn =
    if is_mint && is_burn
    then MintBurnDirection.unknown
    else if is_mint
    then MintBurnDirection.mint
    else MintBurnDirection.burn

unfoldable pub mint_burn_of : EvmLogEvent → MintBurnEvent
mint_burn_of evm = record {
  direction = direction_of (is_zero (topic 1 evm)) (is_zero (topic 2 evm));
  chain_id = evm.chain_id;
  token_address = evm.address;
  amount = take 32 evm.data_bytes;
  sender = drop 12 (topic 1 evm);
  recipient = drop 12 (topic 2 evm);
}

-- Bytes 24 to 31 of the data, read as a big-endian `uint64_t`.
unfoldable pub oracle_of : EvmLogEvent → OracleUpdateEvent
unfolding read_word
oracle_of evm = record {
  chain_id = evm.chain_id;
  aggregator_address = evm.address;
  current_answer = topic 1 evm;
  round_id = topic 2 evm;
  updated_at = read_word 0 (take 8 (drop 24 evm.data_bytes));
}

-- The payload by the class of the first topic, for a log that has one.
unfoldable pub payload_for : SignalType → EvmLogEvent → SignalType × SignalPayload
payload_for type evm =
    if type_beq type SignalType.governance
    then (
      type,
      governance_event (record {
        action = action_of (topic 0 evm);
        chain_id = evm.chain_id;
        contract_address = evm.address;
      }),
    )
    else if type_beq type SignalType.transfer && leb 3 evm.topic_count
    then (if (is_zero (topic 1 evm) || is_zero (topic 2 evm)) && leb 32 evm.data_size
        then (SignalType.mint_burn, mint_burn_event (mint_burn_of evm))
        else (type, evm_log evm))
    else if type_beq type SignalType.oracle_update
        && (leb 3 evm.topic_count && leb 32 evm.data_size)
    then (type, oracle_event (oracle_of evm))
    else (type, evm_log evm)

unfoldable pub classify : EvmLogEvent → SignalType × SignalPayload
classify evm =
    if ltb 0 evm.topic_count
    then payload_for (classify_topic0 (topic 0 evm)) evm
    else (SignalType.unknown, evm_log evm)

-- The four topics of 32 bytes: those of the log, then zeros.
unfoldable pub parse_topics : ℕ → List Bytes → Outcome (List Bytes)
unfolding parse_hex_bytes
parse_topics zero topics = ok []
parse_topics (suc n) [] = do rest ← parse_topics n []; ok (replicate 32 0 ∷ rest)
parse_topics (suc n) (hex ∷ topics) = do
  first ← parse_hex_bytes hex (replicate 32 0)
  rest ← parse_topics n topics
  ok (first ∷ rest)

abbrev pub uint32_max : ℕ
uint32_max = 2 ^ 32 - 1

-- `evm`, once all of its fields are set.
unfoldable pub evm_of : RawLog → ℕ → ℕ → ℕ → Bytes → List Bytes → Bytes → EvmLogEvent
evm_of raw chain_id txi lgi address topics data_bytes =
    let byte_len = (length raw.hex_data - 2) / 2 in
    record {
      chain_id = chain_id;
      tx_index = txi;
      log_index = lgi;
      removed = raw.removed;
      address = address;
      topic_count = min (length raw.topics) 4;
      topics = topics;
      data_size = if ltb 256 byte_len then 256 else byte_len;
      data_bytes = data_bytes;
      truncated = ltb 256 byte_len;
    }

unfoldable pub decode : RawLog → ℕ → Outcome EvmLogEvent
unfolding parse_hex_uint64 parse_hex_bytes validate_hex parse_topics evm_of
decode raw chain_id = do
  txi ← parse_hex_uint64 raw.transaction_index
  lgi ← parse_hex_uint64 raw.log_index
  throw_if (ltb uint32_max txi || ltb uint32_max lgi) (codes "tx_index/log_index out of range")
  address ← parse_hex_bytes raw.address (replicate 20 0)
  topics ← parse_topics 4 raw.topics
  validate_hex raw.hex_data
  data_bytes ← parse_hex_bytes raw.hex_data (replicate 256 0)
  ok (evm_of raw chain_id txi lgi address topics data_bytes)

unfoldable pub meta_of : ℕ → ℕ → ℕ → Bytes → SignalMeta
meta_of chain_id block_timestamp block_number tx_hash = record {
  timestamp_ms = block_timestamp;
  internal_ingress_time_ms = 0;
  block_number = some block_number;
  tx_hash = some tx_hash;
  is_final = false;
  source_id = chain_id % 2 ^ 32;
}

-- `uninitialized` is what the local array for the transaction's hash holds before it is parsed.
unfoldable pub normalize : RawLog → ℕ → ℕ → Bytes → Outcome Signal
unfolding parse_hex_uint64 parse_hex_bytes decode classify meta_of
normalize raw chain_id block_timestamp uninitialized = do
  block_number ← parse_hex_uint64 raw.block_number
  tx_hash ← parse_hex_bytes raw.transaction_hash uninitialized
  evm ← decode raw chain_id
  let (type, payload) = classify evm
  ok (record {
    type = type;
    meta = meta_of chain_id block_timestamp block_number tx_hash;
    payload = payload;
  })
