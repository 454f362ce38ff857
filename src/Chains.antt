-- ===== src/Chains.antt =====
-- src/chains/arbitrum/ArbitrumAdapter.cpp and src/chains/ethereum/EthereumAdapter.cpp, which do the same:
-- what a node is asked and how its answers are read.
pub mod Quantity
pub mod Node
mod Tests
use risk_sentinel.Common.{
  ℕ, Bool, true, false, not, ◌||◌, List, [], ◌∷◌, ◌++◌, Bytes, codes, length, take, drop, ltb,
  if◌then◌else◌, bytes_beq, Outcome, ok, err, ◌>>=◌, ◌>>◌, throw_if,
}
use risk_sentinel.Common.Stoull.{stoull}
use risk_sentinel.Hex.{to_hex_quantity}
use risk_sentinel.Normalize.{RawLog}
use risk_sentinel.Rpc.{JsonValue, JsonRpcClient, call}

-- `hex.size() < 3 || hex.rfind("0x", 0) != 0`
unfoldable pub parse_hex_u64 : Bytes → Outcome ℕ
unfolding stoull bytes_beq
parse_hex_u64 hex = do
  throw_if (ltb (length hex) 3 || not (bytes_beq (take 2 hex) (codes "0x")))
      (codes "Expected 0x-prefixed hex string, got: " ++ hex)
  stoull 16 (drop 2 hex)

module _ {J : Type 0} ⦃json : JsonValue J⦄ where
  -- `value.at(key).get<std::string>()`
  unfoldable pub string_at : J → Bytes → Outcome Bytes
  string_at value key = do member ← json.at value key; json.get_string member

  unfoldable pub strings : List J → Outcome (List Bytes)
  strings [] = ok []
  strings (value ∷ values) = do s ← json.get_string value; rest ← strings values; ok (s ∷ rest)

  unfoldable pub get_strings : J → Outcome (List Bytes)
  unfolding strings
  get_strings value =
      if json.is_array value then strings (json.items value) else err (codes "type must be array")

  -- `from_json` of a `RawLog`, which its macro defines, member by member
  unfoldable pub raw_log_of : J → Outcome RawLog
  unfolding string_at get_strings
  raw_log_of value = do
    address ← string_at value (codes "address")
    list ← json.at value (codes "topics")
    topics ← get_strings list
    hex_data ← string_at value (codes "data")
    block_number ← string_at value (codes "blockNumber")
    transaction_hash ← string_at value (codes "transactionHash")
    log_index ← string_at value (codes "logIndex")
    transaction_index ← string_at value (codes "transactionIndex")
    flag ← json.at value (codes "removed")
    removed ← json.get_bool flag
    ok (record {
      address = address;
      topics = topics;
      hex_data = hex_data;
      block_number = block_number;
      transaction_hash = transaction_hash;
      log_index = log_index;
      transaction_index = transaction_index;
      removed = removed;
    })

  -- One log that cannot be read ends the loop by an exception.
  unfoldable pub raw_logs : List J → Outcome (List RawLog)
  unfolding raw_log_of
  raw_logs [] = ok []
  raw_logs (value ∷ values) = do log ← raw_log_of value; rest ← raw_logs values; ok (log ∷ rest)

  -- `!res.contains("result") || res["result"].is_null()`
  unfoldable pub is_absent : Outcome J → Bool
  is_absent (ok value) = json.is_null value
  is_absent (err e) = true

  unfoldable pub is_no_array : Outcome J → Bool
  is_no_array (ok value) = not (json.is_array value)
  is_no_array (err e) = true

  unfoldable pub filter : ℕ → ℕ → J
  filter from_block to_block = json.object (
      (codes "fromBlock", json.text (to_hex_quantity from_block))
      ∷ (codes "toBlock", json.text (to_hex_quantity to_block))
      ∷ [])

  module _ (rpc : JsonRpcClient J) where
    -- `rpc_.call(method)`, whose default parameters are an empty array
    unfoldable pub quantity_of : Bytes → Bytes → Outcome ℕ
    unfolding call string_at parse_hex_u64
    quantity_of method missing = do
      res ← (call rpc method (json.array [])).0
      throw_if (not (json.contains res (codes "result"))) missing
      text ← string_at res (codes "result")
      parse_hex_u64 text

    unfoldable pub chain_id : Outcome ℕ
    unfolding quantity_of
    chain_id = quantity_of (codes "eth_chainId") (codes "eth_chainId: missing result field")

    unfoldable pub latest_block : Outcome ℕ
    unfolding quantity_of
    latest_block =
        quantity_of (codes "eth_blockNumber") (codes "eth_blockNumber: missing result field")

    unfoldable pub block_timestamp : ℕ → Outcome ℕ
    unfolding call is_absent string_at parse_hex_u64
    block_timestamp block_number = do
      res ←
          (call rpc (codes "eth_getBlockByNumber")
            (json.array (json.text (to_hex_quantity block_number) ∷ json.flag false ∷ []))).0
      throw_if
          (not (json.contains res (codes "result")) || is_absent (json.at res (codes "result")))
          (codes "eth_getBlockByNumber: missing result")
      result ← json.at res (codes "result")
      throw_if (not (json.contains result (codes "timestamp")))
          (codes "eth_getBlockByNumber: missing timestamp")
      text ← string_at result (codes "timestamp")
      parse_hex_u64 text

    unfoldable pub get_logs : ℕ → ℕ → Outcome (List RawLog)
    unfolding call is_no_array filter raw_logs
    get_logs from_block to_block = do
      throw_if (ltb to_block from_block) (codes "getLogs: to_block < from_block")
      res ← (call rpc (codes "eth_getLogs") (json.array (filter from_block to_block ∷ []))).0
      throw_if
          (not (json.contains res (codes "result")) || is_no_array (json.at res (codes "result")))
          (codes "eth_getLogs: missing result array")
      arr ← json.at res (codes "result")
      raw_logs (json.items arr)
