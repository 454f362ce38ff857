-- ===== src/Chains/Tests.antt =====
-- A toy node and a toy JSON library: an instance of the theorem.
use risk_sentinel.Common.{
  Bool, true, false, Option, none, some, List, [], ◌∷◌, map, Bytes, codes, bytes_beq, bytes_eq,
  if◌then◌else◌, Outcome, ok, err,
}
use risk_sentinel.Hex.{to_hex_quantity}
use risk_sentinel.Normalize.{RawLog}
use risk_sentinel.Backtest.Nodes.{
  Value, num, text, flag, seq, mapping, Elements, nil, cons, Members, end, member, member_at,
  is_null_value, is_seq, items_of, text_of, bool_of,
}
use risk_sentinel.Rpc.{JsonValue, JsonRpcClient}

unfoldable to_elements : List Value → Elements
to_elements [] = nil
to_elements (v ∷ vs) = cons v (to_elements vs)

unfoldable to_members : List (Bytes × Value) → Members
to_members [] = end
to_members ((k, v) ∷ ms) = member k v (to_members ms)

unfoldable look : Value → Bytes → Option Value
unfolding member_at
look (mapping ms) key = member_at key ms
look _ key = none

unfoldable is_found : Option Value → Bool
is_found none = false
is_found (some v) = true

unfoldable found : Option Value → Outcome Value
found none = err (codes "key not found")
found (some v) = ok v

unfoldable string_or_empty : Option Value → Bytes
string_or_empty (some (text s)) = s
string_or_empty _ = []

abbrev log : RawLog
log = record {
  address = codes "0xaa";
  topics = codes "0x01" ∷ codes "0x02" ∷ [];
  hex_data = codes "0x";
  block_number = codes "0x7";
  transaction_hash = codes "0xbb";
  log_index = codes "0x0";
  transaction_index = codes "0x1";
  removed = false;
}

abbrev with_result : Value → Value
with_result v = mapping (
    member (codes "jsonrpc") (text (codes "2.0"))
      (member (codes "id") (num 1) (member (codes "result") v end)))

abbrev log_of : RawLog → Value
log_of l = mapping (
    member (codes "address") (text l.address) (
      member (codes "topics") (seq (to_elements (map text l.topics))) (
        member (codes "data") (text l.hex_data) (
          member (codes "blockNumber") (text l.block_number) (
            member (codes "transactionHash") (text l.transaction_hash) (
              member (codes "logIndex") (text l.log_index) (
                member (codes "transactionIndex") (text l.transaction_index)
                  (member (codes "removed") (flag l.removed) end))))))))

-- The requests are told apart by their method.
unfoldable result_of : Bytes → Value
unfolding bytes_beq to_elements
result_of method =
    if bytes_beq method (codes "eth_chainId")
    then text (to_hex_quantity 42161)
    else if bytes_beq method (codes "eth_blockNumber")
    then text (to_hex_quantity 9)
    else if bytes_beq method (codes "eth_getLogs")
    then seq (cons (log_of log) nil)
    else mapping (member (codes "timestamp") (text (to_hex_quantity 1700000000)) end)

instance abbrev value_json : JsonValue Value
value_json = record {
  contains = λ v k. is_found (look v k);
  at = λ v k. found (look v k);
  is_null = is_null_value;
  is_array = is_seq;
  items = items_of;
  get_string = text_of;
  get_bool = bool_of;
  text = text;
  flag = flag;
  number = num;
  array = λ xs. seq (to_elements xs);
  object = λ ms. mapping (to_members ms);
  dump = λ v. string_or_empty (look v (codes "method"));
  parse = λ s. ok (with_result (result_of s));
}

abbrev node : JsonRpcClient Value
node = record {
  send = λ body. record { handle = true; failure = none; http_code = 200; response = body };
}
