-- ===== src/Pipeline/Tests.antt =====
-- A transfer of nine of a token, under a threshold of eight.
use risk_sentinel.Common.{
  ℕ, ◌<◌, ◌≡◌, refl, false, [], ◌∷◌, ◌++◌, List, Bytes, replicate, IsArray, IsArray-all_of, arith,
  ok, map, filter_by, codes, ok_value, All, true, length,
}
use risk_sentinel.Hex.Value.{be_value}
use risk_sentinel.Signal.{Signal, ChainKey}
use risk_sentinel.Topics.{topic_transfer, parse_topic_literal}
use risk_sentinel.Normalize.{RawLog, normalize, is_zero}
use risk_sentinel.Normalize.Printed.{ChainLog, IsChainLog, printed, decoded}
use risk_sentinel.Rules.LargeTransfer.{LargeTransferRuleConfig, evaluate, alert_for}
use risk_sentinel.Rules.OracleUpdate.{OracleRuleConfig, LastObservation}
use risk_sentinel.Rules.OracleUpdate.Baseline.{Inv}
use risk_sentinel.Rules.OracleUpdate.History.{fresh, run}
use risk_sentinel.Pipeline.{
  IsTransfer, IsNormalized, transfer_signal, asks, transfer-alerts, normalized-Inv,
}

abbrev word : ℕ → Bytes
word b = replicate 31 0 ++ b ∷ []

word-IsArray : (b : ℕ) → b < 256 → IsArray 32 (word b)
word-IsArray b h = IsArray-all_of 32 (word b) (ground arith) refl

-- The topic of Transfer, written out.
abbrev transfer_topic : Bytes
transfer_topic =
    221 ∷ 242 ∷ 82 ∷ 173 ∷ 27 ∷ 226 ∷ 200 ∷ 155 ∷ 105 ∷ 194 ∷ 176 ∷ 104 ∷ 252 ∷ 55 ∷ 141 ∷ 170 ∷ 149
    ∷ 43 ∷ 167 ∷ 241 ∷ 99 ∷ 196 ∷ 161 ∷ 22 ∷ 40 ∷ 245 ∷ 90 ∷ 77 ∷ 245 ∷ 35 ∷ 179 ∷ 239 ∷ []

topic_of_transfer : topic_transfer ≡ transfer_topic
unfolding topic_transfer parse_topic_literal
topic_of_transfer = refl

abbrev transfer : ChainLog
transfer = record {
  address = replicate 19 0 ++ 17 ∷ [];
  topics = transfer_topic ∷ word 1 ∷ word 2 ∷ [];
  log_data = word 9;
  block_number = 1000;
  transaction_hash = word 7;
  log_index = 3;
  transaction_index = 4;
  removed = false;
}

transfer-IsChainLog : IsChainLog transfer
transfer-IsChainLog = record {
  address_array = IsArray-all_of 20 (replicate 19 0 ++ 17 ∷ []) refl refl;
  topic_arrays = (
    IsArray-all_of 32 transfer_topic refl refl,
    (word-IsArray 1 (omega arith), (word-IsArray 2 (omega arith), tt)),
  );
  data_bytes = (word-IsArray 9 (omega arith)).0;
  block_fits = omega arith;
  hash_array = word-IsArray 7 (omega arith);
  log_index_fits = omega arith;
  transaction_index_fits = omega arith;
}

three : transfer.topics ≡ topic_transfer ∷ word 1 ∷ word 2 ∷ []
unfolding topic_transfer parse_topic_literal
three = refl

sender : is_zero (word 1) ≡ false
unfolding is_zero
sender = refl

recipient : is_zero (word 2) ≡ false
unfolding is_zero
recipient = refl

transfer-IsTransfer : IsTransfer transfer (word 1) (word 2)
transfer-IsTransfer = record {
  chain_log = transfer-IsChainLog;
  three_topics = three;
  not_minted = sender;
  not_burnt = recipient;
  one_word = refl;
  kept = refl;
}

abbrev configs : List LargeTransferRuleConfig
configs =
    record {
      customer_id = 5;
      chain_id = 1;
      token_address = replicate 19 0 ++ 17 ∷ [];
      threshold_be = word 8;
    }
    ∷ []

transfer-alerts_example :
    (normalize (printed transfer) 1 60000 (replicate 32 0) ≡ ok (transfer_signal transfer 1 60000))
    × (evaluate configs (transfer_signal transfer 1 60000) []
        ≡ map (alert_for 60000 (decoded transfer 1)) (filter_by (asks 1 transfer) configs))
transfer-alerts_example =
    transfer-alerts transfer 1 60000 (replicate 32 0) (word 1) (word 2) configs transfer-IsTransfer
      refl (word-IsArray 8 (omega arith), tt)

abbrev aggregator : Bytes
aggregator = replicate 20 0xaa

-- A feed that is monitored, and two updates of it: 100000 and then 110000.
abbrev feeds : List (ChainKey × List OracleRuleConfig)
feeds =
    (
      record { chain_id = 1; address = aggregator },
      record {
        customer_id = 5;
        chain_id = 1;
        aggregator_address = aggregator;
        feed_label = codes "ETH/USD";
        spike_threshold_bps = 500;
        decimals = 8;
        enabled = true;
      }
          ∷ [],
    )
    ∷ []

abbrev update : Bytes → RawLog
update answer = record {
  address = codes "0xaaaaaaaaaaaaaaaaaaaaaaaaaaaaaaaaaaaaaaaa";
  topics =
      codes "0x0559884fd3a460db3073b7fc896cc77986f16e378210ded43186175bf646fc5f"
      ∷ answer
      ∷ codes "0x0000000000000000000000000000000000000000000000000000000000000001"
      ∷ [];
  hex_data = codes "0x0000000000000000000000000000000000000000000000000000000000000009";
  block_number = codes "0xb";
  transaction_hash = codes "0x";
  log_index = codes "0x0";
  transaction_index = codes "0x1";
  removed = false;
}

abbrev first_answer : Bytes
first_answer = codes "0x00000000000000000000000000000000000000000000000000000000000186a0"

abbrev second_answer : Bytes
second_answer = codes "0x000000000000000000000000000000000000000000000000000000000001adb0"

update_signal : Bytes → Signal
unfolding ok_value
update_signal answer =
    ok_value (transfer_signal transfer 1 60000) (normalize (update answer) 1 60000 [])

first_normalized : normalize (update first_answer) 1 60000 [] ≡ ok (update_signal first_answer)
unfolding update_signal normalize
first_normalized = refl

second_normalized : normalize (update second_answer) 1 60000 [] ≡ ok (update_signal second_answer)
unfolding update_signal normalize
second_normalized = refl

abbrev updates : List Signal
updates = update_signal first_answer ∷ update_signal second_answer ∷ []

updates-AreNormalized : All IsNormalized updates
updates-AreNormalized = (
  (update first_answer, 1, 60000, [], (update_signal first_answer).meta, first_normalized),
  ((update second_answer, 1, 60000, [], (update_signal second_answer).meta, second_normalized), tt),
)

-- The second answer is kept as the feed's baseline.
kept :
    map
      (λ (l : ChainKey × LastObservation). be_value l.1.answer)
      (run (fresh feeds) updates []).0.last_by_feed
    ≡ 110000 ∷ []
unfolding run fresh update_signal normalize ok_value risk_sentinel.Rules.OracleUpdate.evaluate
    risk_sentinel.Normalize.payload_for risk_sentinel.Normalize.classify_topic0 topic_transfer
    parse_topic_literal risk_sentinel.Topics.topic_swap_v2 risk_sentinel.Topics.topic_swap_v3
    risk_sentinel.Topics.topic_mint risk_sentinel.Topics.topic_burn
    risk_sentinel.Topics.topic_ownership_transferred risk_sentinel.Topics.topic_paused
    risk_sentinel.Topics.topic_unpaused risk_sentinel.Topics.topic_role_granted
    risk_sentinel.Topics.topic_role_revoked risk_sentinel.Topics.topic_upgraded
    risk_sentinel.Topics.topic_approval risk_sentinel.Topics.topic_oracle_answer_updated
    risk_sentinel.Common.Assoc.assign risk_sentinel.Common.Assoc.find risk_sentinel.Common.bytes_beq
    risk_sentinel.Hex.all_nibbles risk_sentinel.Hex.fill risk_sentinel.Hex.hex_nibble
    risk_sentinel.Hex.joined risk_sentinel.Hex.lacks_prefix risk_sentinel.Hex.nibbles
    risk_sentinel.Hex.parse_hex_bytes risk_sentinel.Hex.parse_hex_uint64 risk_sentinel.Hex.shift_in
    risk_sentinel.Hex.validate_hex risk_sentinel.Normalize.action_of
    risk_sentinel.Normalize.classify risk_sentinel.Normalize.decode
    risk_sentinel.Normalize.direction_of risk_sentinel.Normalize.evm_of is_zero
    risk_sentinel.Normalize.meta_of risk_sentinel.Normalize.mint_burn_of
    risk_sentinel.Normalize.oracle_of risk_sentinel.Normalize.parse_topics
    risk_sentinel.Rules.OracleUpdate.alerts_against risk_sentinel.Rules.OracleUpdate.as_oracle
    risk_sentinel.Rules.OracleUpdate.body risk_sentinel.Rules.OracleUpdate.delta_bps
    risk_sentinel.Rules.OracleUpdate.fits_u64 risk_sentinel.Rules.OracleUpdate.is_negative
    risk_sentinel.Rules.OracleUpdate.key_of risk_sentinel.Rules.OracleUpdate.low_u64
    risk_sentinel.Rules.OracleUpdate.observe risk_sentinel.Rules.OracleUpdate.read_word
    risk_sentinel.Rules.OracleUpdate.record_last risk_sentinel.Rules.emit_each
    risk_sentinel.Rules.push risk_sentinel.Signal.key_beq risk_sentinel.Topics.literal_pairs
    risk_sentinel.Topics.value_or_zero
kept = refl

normalized-Inv_example : Inv (run (fresh feeds) updates []).0
normalized-Inv_example = normalized-Inv feeds updates [] updates-AreNormalized
