-- ===== src/Chains/Node.antt =====
-- About src/rpc/JsonRpcClient.cpp and src/chains/: what an adapter reads from a node that answers as its
-- protocol says.
use risk_sentinel.Common.{
  ℕ, bytes_eq, ◌^◌, ◌<◌, ◌≡◌, Bool, true, false, none, some, List, [], ◌∷◌, map, Bytes, codes, ok,
}
use risk_sentinel.Common.Assoc.{find}
use risk_sentinel.Hex.{to_hex_quantity}
use risk_sentinel.Normalize.{RawLog}
use risk_sentinel.Rpc.{JsonValue, JsonRpcClient}

-- What is documented of the JSON library: a value that was built gives back its parts.
pub record IsJson {J : Type 0} (json : JsonValue J) : Type 0 where
  pub get_text : (s : Bytes) → json.get_string (json.text s) ≡ ok s
  pub get_flag : (b : Bool) → json.get_bool (json.flag b) ≡ ok b
  pub array_is : (xs : List J) → json.is_array (json.array xs) ≡ true
  pub items_array : (xs : List J) → json.items (json.array xs) ≡ xs
  pub object_is : (ms : List (Bytes × J)) → json.is_null (json.object ms) ≡ false
  pub at_member :
      (ms : List (Bytes × J)) (k : Bytes) (v : J)
      → find k ms ≡ some v
      → json.at (json.object ms) k ≡ ok v
  pub has_member :
      (ms : List (Bytes × J)) (k : Bytes) (v : J)
      → find k ms ≡ some v
      → json.contains (json.object ms) k ≡ true
  pub lacks_member :
      (ms : List (Bytes × J)) (k : Bytes)
      → find k ms ≡ none
      → json.contains (json.object ms) k ≡ false

module _ {J : Type 0} ⦃json : JsonValue J⦄ where
  -- The answer of a node with a result.
  abbrev pub answer : J → J
  answer value = json.object (
      (codes "jsonrpc", json.text (codes "2.0"))
      ∷ (codes "id", json.number 1)
      ∷ (codes "result", value)
      ∷ [])

  -- A log as a node writes it.
  abbrev pub log_value : RawLog → J
  log_value log = json.object (
      (codes "address", json.text log.address)
      ∷ (codes "topics", json.array (map json.text log.topics))
      ∷ (codes "data", json.text log.hex_data)
      ∷ (codes "blockNumber", json.text log.block_number)
      ∷ (codes "transactionHash", json.text log.transaction_hash)
      ∷ (codes "logIndex", json.text log.log_index)
      ∷ (codes "transactionIndex", json.text log.transaction_index)
      ∷ (codes "removed", json.flag log.removed)
      ∷ [])

  -- A request of JSON-RPC 2.0, as the protocol writes it.
  abbrev pub asked : Bytes → J → J
  asked method params = json.object (
      (codes "jsonrpc", json.text (codes "2.0"))
      ∷ (codes "id", json.number 1)
      ∷ (codes "method", json.text method)
      ∷ (codes "params", params)
      ∷ [])

  -- The parameter of `eth_getLogs` for the blocks from one to another.
  abbrev pub range_filter : ℕ → ℕ → J
  range_filter from to = json.object (
      (codes "fromBlock", json.text (to_hex_quantity from))
      ∷ (codes "toBlock", json.text (to_hex_quantity to))
      ∷ [])

  -- The reply to a request is the answer with this result.
  pub record Answers (rpc : JsonRpcClient J) (method : Bytes) (params value : J) : Type 0 where
    pub sent : (rpc.send (json.dump (asked method params))).handle ≡ true
    pub arrived : (rpc.send (json.dump (asked method params))).failure ≡ none
    pub accepted : (rpc.send (json.dump (asked method params))).http_code ≡ 200
    pub reads : json.parse (rpc.send (json.dump (asked method params))).response ≡ ok (answer value)

  -- A block without its transactions, of which only the time is read.
  abbrev pub block_value : ℕ → J
  block_value time = json.object ((codes "timestamp", json.text (to_hex_quantity time)) ∷ [])

  -- What a node holds: its chain, its head, and for the range and the block that are asked for the
  -- logs and the time.
  pub record Honest (rpc : JsonRpcClient J) (chain head from to block time : ℕ) (logs : List RawLog)
      : Type 0 where
    pub chain_fits : chain < 2 ^ 64
    pub head_fits : head < 2 ^ 64
    pub time_fits : time < 2 ^ 64
    pub says_chain :
        Answers rpc (codes "eth_chainId") (json.array []) (json.text (to_hex_quantity chain))
    pub says_head :
        Answers rpc (codes "eth_blockNumber") (json.array []) (json.text (to_hex_quantity head))
    pub says_logs :
        Answers rpc
          (codes "eth_getLogs")
          (json.array (range_filter from to ∷ []))
          (json.array (map log_value logs))
    pub says_time :
        Answers rpc
          (codes "eth_getBlockByNumber")
          (json.array (json.text (to_hex_quantity block) ∷ json.flag false ∷ []))
          (block_value time)
