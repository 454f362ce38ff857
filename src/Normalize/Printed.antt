-- ===== src/Normalize/Printed.antt =====
-- `normalize` on the log that a node prints in hex.
use risk_sentinel.Common.{
  ℕ, zero, suc, ◌+◌, ◌-◌, ◌*◌, ◌/◌, ◌%◌, ◌^◌, ◌<◌, ◌≡◌, refl, ap, sym, ◌∙◌, Bool, false, ◌||◌, ltb,
  List, [], ◌∷◌, ◌++◌, Bytes, length, take, drop, replicate, AreBytes, IsArray, All, arith, ok,
  if◌then◌else◌, min, map,
}
use risk_sentinel.Hex.{fill, parse_hex_bytes, validate_hex, all_nibbles, hex_pairs, to_hex_quantity}
use risk_sentinel.Hex.Quantity.{
  parse_hex_uint64-to_hex_quantity, hex_nibble-hex_digit, joined_lem, length-hex_pairs,
}
use risk_sentinel.Rules.{address_to_hex}
use risk_sentinel.Signal.{EvmLogEvent}
use risk_sentinel.Normalize.{
  RawLog, normalize, decode, classify, parse_topics, evm_of, meta_of, uint32_max,
}

-- The fields of a log, as the chain has them.
pub record ChainLog : Type 0 where
  pub address : Bytes
  pub topics : List Bytes
  pub log_data : Bytes
  pub block_number : ℕ
  pub transaction_hash : Bytes
  pub log_index : ℕ
  pub transaction_index : ℕ
  pub removed : Bool

pub record IsChainLog (log : ChainLog) : Type 0 where
  pub address_array : IsArray 20 log.address
  pub topic_arrays : All (IsArray 32) log.topics
  pub data_bytes : AreBytes log.log_data
  pub block_fits : log.block_number < 2 ^ 64
  pub hash_array : IsArray 32 log.transaction_hash
  pub log_index_fits : log.log_index < 2 ^ 32
  pub transaction_index_fits : log.transaction_index < 2 ^ 32

-- How a node prints it: quantities without leading zeros, bytes with two digits each.
abbrev pub printed : ChainLog → RawLog
printed log = record {
  address = address_to_hex log.address;
  topics = map address_to_hex log.topics;
  hex_data = address_to_hex log.log_data;
  block_number = to_hex_quantity log.block_number;
  transaction_hash = address_to_hex log.transaction_hash;
  log_index = to_hex_quantity log.log_index;
  transaction_index = to_hex_quantity log.transaction_index;
  removed = log.removed;
}

-- The first `n` topics, and zeros in place of those that are missing.
abbrev pub pad : ℕ → List Bytes → List Bytes
pad zero topics = []
pad (suc n) [] = replicate 32 0 ∷ pad n []
pad (suc n) (t ∷ topics) = t ∷ pad n topics

-- An array whose front is overwritten by bytes, as many as fit.
abbrev pub overwrite : Bytes → Bytes → Bytes
overwrite bs out = take (length out) bs ++ drop (length bs) out

-- What the log becomes.
abbrev pub decoded : ChainLog → ℕ → EvmLogEvent
decoded log chain_id = record {
  chain_id = chain_id;
  tx_index = log.transaction_index;
  log_index = log.log_index;
  removed = log.removed;
  address = log.address;
  topic_count = min (length log.topics) 4;
  topics = pad 4 log.topics;
  data_size = min (length log.log_data) 256;
  data_bytes = overwrite log.log_data (replicate 256 0);
  truncated = ltb 256 (length log.log_data);
}

fill-overwrite : (bs out : Bytes) → AreBytes bs → fill (hex_pairs bs) out ≡ ok (overwrite bs out)
unfolding fill hex_pairs
fill-overwrite [] [] h = refl
fill-overwrite [] (o ∷ out) h = refl
fill-overwrite (b ∷ bs) [] h = refl
fill-overwrite (b ∷ bs) (o ∷ out) h = rw (
  hex_nibble-hex_digit (b / 16) (omega (arith, h.0)),
  hex_nibble-hex_digit (b % 16) (omega arith),
  fill-overwrite bs out h.1,
  joined_lem b h.0,
)

length-address_to_hex : (bs : Bytes) → length (address_to_hex bs) ≡ 2 + 2 * length bs
unfolding address_to_hex
length-address_to_hex bs = omega (arith, length-hex_pairs bs)

parse_hex_bytes-overwrite :
    (bs out : Bytes) → AreBytes bs → parse_hex_bytes (address_to_hex bs) out ≡ ok (overwrite bs out)
unfolding parse_hex_bytes address_to_hex
parse_hex_bytes-overwrite bs out h = ground (arith, length-hex_pairs bs, fill-overwrite bs out h)

-- Bytes of the array's own length replace it.
overwrite_all : (bs out : Bytes) → length bs ≡ length out → overwrite bs out ≡ bs
overwrite_all [] [] e = refl
overwrite_all [] (o ∷ out) e = absurd (omega arith)
overwrite_all (b ∷ bs) [] e = absurd (omega arith)
overwrite_all (b ∷ bs) (o ∷ out) e = ap (λ t. b ∷ t) (overwrite_all bs out (omega arith))

parse_hex_bytes-all :
    (bs out : Bytes)
    → AreBytes bs
    → length bs ≡ length out
    → parse_hex_bytes (address_to_hex bs) out ≡ ok bs
parse_hex_bytes-all bs out h e = parse_hex_bytes-overwrite bs out h ∙ ap ok (overwrite_all bs out e)

all_nibbles-hex_pairs : (bs : Bytes) → AreBytes bs → all_nibbles (hex_pairs bs) ≡ ok tt
unfolding all_nibbles hex_pairs
all_nibbles-hex_pairs [] h = refl
all_nibbles-hex_pairs (b ∷ bs) h = rw (
  hex_nibble-hex_digit (b / 16) (omega (arith, h.0)),
  hex_nibble-hex_digit (b % 16) (omega arith),
  all_nibbles-hex_pairs bs h.1,
)

validate_hex-printed : (bs : Bytes) → AreBytes bs → validate_hex (address_to_hex bs) ≡ ok tt
unfolding validate_hex address_to_hex
validate_hex-printed bs h = ground (arith, length-hex_pairs bs, all_nibbles-hex_pairs bs h)

parse_topics-pad :
    (n : ℕ) (topics : List Bytes)
    → All (IsArray 32) topics
    → parse_topics n (map address_to_hex topics) ≡ ok (pad n topics)
unfolding parse_topics
parse_topics-pad zero topics h = refl
parse_topics-pad (suc n) [] h = rw (parse_topics-pad n [] tt)
parse_topics-pad (suc n) (t ∷ topics) h =
    rw (parse_hex_bytes-all t (replicate 32 0) h.0.0 h.0.1, parse_topics-pad n topics h.1)

length-map : (topics : List Bytes) → length (map address_to_hex topics) ≡ length topics
length-map [] = refl
length-map (t ∷ topics) = ap suc (length-map topics)

size_lem : (n : ℕ) → (if ltb 256 n then 256 else n) ≡ min n 256
size_lem n = ground arith

half : (n : ℕ) → (2 + 2 * n - 2) / 2 ≡ n
half n = omega arith

evm_of-decoded :
    (log : ChainLog) (chain_id : ℕ)
    → evm_of
        (printed log)
        chain_id
        log.transaction_index
        log.log_index
        log.address
        (pad 4 log.topics)
        (overwrite log.log_data (replicate 256 0))
      ≡ decoded log chain_id
unfolding evm_of
evm_of-decoded log chain_id = rw (
  length-map log.topics,
  length-address_to_hex log.log_data,
  half (length log.log_data),
  size_lem (length log.log_data),
)

indices_fit : (a b : ℕ) → a < 2 ^ 32 → b < 2 ^ 32 → (ltb uint32_max a || ltb uint32_max b) ≡ false
indices_fit a b ha hb = ground arith

decode-printed :
    (log : ChainLog) (chain_id : ℕ)
    → IsChainLog log
    → decode (printed log) chain_id ≡ ok (decoded log chain_id)
unfolding decode
decode-printed log chain_id h = rw (
  parse_hex_uint64-to_hex_quantity log.transaction_index (omega (arith, h.transaction_index_fits)),
  parse_hex_uint64-to_hex_quantity log.log_index (omega (arith, h.log_index_fits)),
  indices_fit log.transaction_index log.log_index h.transaction_index_fits h.log_index_fits,
  parse_hex_bytes-all log.address (replicate 20 0) h.address_array.0 h.address_array.1,
  parse_topics-pad 4 log.topics h.topic_arrays,
  validate_hex-printed log.log_data h.data_bytes,
  parse_hex_bytes-overwrite log.log_data (replicate 256 0) h.data_bytes,
  evm_of-decoded log chain_id,
)

-- A log with fields within their types that a node prints is normalized to the signal of its
-- fields: the indices and the block are read back, the transaction's hash replaces whatever the
-- local array of 32 bytes held, topics beyond the fourth and data beyond 256 bytes are cut off and
-- the cut of the data is marked, missing ones are zero, and the class follows from these fields
-- alone.
pub normalize-printed :
    (log : ChainLog) (chain_id block_timestamp : ℕ) (uninitialized : Bytes)
    → IsChainLog log
    → length uninitialized ≡ 32
    → normalize (printed log) chain_id block_timestamp uninitialized
      ≡ ok (record {
        type = (classify (decoded log chain_id)).0;
        meta = meta_of chain_id block_timestamp log.block_number log.transaction_hash;
        payload = (classify (decoded log chain_id)).1;
      })
unfolding normalize
normalize-printed log chain_id block_timestamp uninitialized h len = rw (
  parse_hex_uint64-to_hex_quantity log.block_number h.block_fits,
  parse_hex_bytes-all log.transaction_hash uninitialized h.hash_array.0 (h.hash_array.1 ∙ sym len),
  decode-printed log chain_id h,
)
