-- ===== src/Normalize/Tests.antt =====
-- A transfer log as a node prints it.
use risk_sentinel.Common.{
  ℕ, ◌<◌, ◌≡◌, refl, false, [], ◌∷◌, ◌++◌, Bytes, replicate, IsArray, IsArray-all_of, arith, ok,
  bytes_beq,
}
use risk_sentinel.Signal.{Signal, SignalType}
use risk_sentinel.Topics.{topic_transfer, parse_topic_literal}
use risk_sentinel.Normalize.{normalize, classify, meta_of, payload_for, classify_topic0, is_zero}
use risk_sentinel.Normalize.Classes.{Fits, normalize-Fits}
use risk_sentinel.Normalize.Printed.{ChainLog, IsChainLog, printed, decoded, normalize-printed}

abbrev word : ℕ → Bytes
word b = replicate 31 0 ++ b ∷ []

word-IsArray : (b : ℕ) → b < 256 → IsArray 32 (word b)
word-IsArray b h = IsArray-all_of 32 (word b) (ground arith) refl

-- The topic of Transfer, written out.
abbrev transfer_topic : Bytes
transfer_topic =
    221 ∷ 242 ∷ 82 ∷ 173 ∷ 27 ∷ 226 ∷ 200 ∷ 155 ∷ 105 ∷ 194 ∷ 176 ∷ 104 ∷ 252 ∷ 55 ∷ 141 ∷ 170 ∷ 149
    ∷ 43 ∷ 167 ∷ 241 ∷ 99 ∷ 196 ∷ 161 ∷ 22 ∷ 40 ∷ 245 ∷ 90 ∷ 77 ∷ 245 ∷ 35 ∷ 179 ∷ 239 ∷ []

topic_of_transfer : topic_transfer ≡ transfer_topic
unfolding topic_transfer parse_topic_literal
topic_of_transfer = refl

abbrev transfer : ChainLog
transfer = record {
  address = replicate 19 0 ++ 17 ∷ [];
  topics = transfer_topic ∷ word 1 ∷ word 2 ∷ [];
  log_data = word 9;
  block_number = 1000;
  transaction_hash = word 7;
  log_index = 3;
  transaction_index = 4;
  removed = false;
}

transfer-IsChainLog : IsChainLog transfer
transfer-IsChainLog = record {
  address_array = IsArray-all_of 20 (replicate 19 0 ++ 17 ∷ []) refl refl;
  topic_arrays = (
    IsArray-all_of 32 transfer_topic refl refl,
    (word-IsArray 1 (omega arith), (word-IsArray 2 (omega arith), tt)),
  );
  data_bytes = (word-IsArray 9 (omega arith)).0;
  block_fits = omega arith;
  hash_array = word-IsArray 7 (omega arith);
  log_index_fits = omega arith;
  transaction_index_fits = omega arith;
}

transfer_type : (classify (decoded transfer 1)).0 ≡ SignalType.transfer
unfolding classify payload_for classify_topic0 topic_transfer parse_topic_literal bytes_beq is_zero
transfer_type = refl

normalize-printed_example :
    normalize (printed transfer) 1 60000 (replicate 32 0)
    ≡ ok (record {
      type = (classify (decoded transfer 1)).0;
      meta = meta_of 1 60000 1000 (word 7);
      payload = (classify (decoded transfer 1)).1;
    })
normalize-printed_example =
    normalize-printed transfer 1 60000 (replicate 32 0) transfer-IsChainLog refl

abbrev transfer_signal : Signal
transfer_signal = record {
  type = (classify (decoded transfer 1)).0;
  meta = meta_of 1 60000 1000 (word 7);
  payload = (classify (decoded transfer 1)).1;
}

normalized : normalize (printed transfer) 1 60000 (replicate 32 0) ≡ ok transfer_signal
normalized = normalize-printed transfer 1 60000 (replicate 32 0) transfer-IsChainLog refl

normalize-Fits_example : Fits transfer_signal.type transfer_signal.payload
normalize-Fits_example =
    normalize-Fits (printed transfer) 1 60000 (replicate 32 0) transfer_signal normalized
