-- ===== src/Rules/OracleUpdate/Tests.antt =====
-- An oracle feed that answers 100 and then 106, under a threshold of five percent.
use risk_sentinel.Common.{
  ℕ, ◌^◌, ◌<◌, ◌≡◌, refl, true, ◌&&◌, none, some, List, [], ◌∷◌, ◌++◌, Bytes, codes, arith, IsArray,
  IsArray-all_of, replicate, map, filter_by, All, bytes_beq, if◌then◌else◌, subst,
}
use risk_sentinel.Common.Assoc.{find, assign}
use risk_sentinel.Common.Digits.{to_string, put_digits}
use risk_sentinel.Hex.Value.{be_value}
use risk_sentinel.Signal.{
  Signal, SignalType, OracleUpdateEvent, ChainKey, key_eq, key_beq, oracle_event,
}
use risk_sentinel.Rules.{bucket, emit_each, push}
use risk_sentinel.Rules.OracleUpdate.{
  OracleRuleConfig, OracleUpdateRule, evaluate, observe, alerts_against, record_last, as_oracle,
  key_of, is_negative, fits_u64, low_u64, read_word, delta_bps, body, alert_for,
  format_pct_from_bps,
}
use risk_sentinel.Rules.OracleUpdate.Baseline.{
  Inv, takes, spikes, reported, evaluate-baseline, evaluate-spikes,
}
use risk_sentinel.Rules.OracleUpdate.History.{fresh, run, IsTyped, AreTyped, run-fresh-Inv}

abbrev word : ℕ → Bytes
word b = replicate 31 0 ++ b ∷ []

word-IsArray : (b : ℕ) → b < 256 → IsArray 32 (word b)
word-IsArray b h = IsArray-all_of 32 (word b) (ground arith) refl

abbrev feed : Bytes
feed = replicate 19 0 ++ 17 ∷ []

abbrev update : ℕ → OracleUpdateEvent
update answer = record {
  chain_id = 1;
  aggregator_address = feed;
  current_answer = word answer;
  round_id = word 1;
  updated_at = 60;
}

abbrev update_signal : ℕ → Signal
update_signal answer = record {
  type = SignalType.oracle_update;
  meta = record {
    timestamp_ms = 1000;
    internal_ingress_time_ms = 1001;
    block_number = none;
    tx_hash = none;
    is_final = true;
    source_id = 1;
  };
  payload = oracle_event (update answer);
}

abbrev feed_config : OracleRuleConfig
feed_config = record {
  customer_id = 3;
  chain_id = 1;
  aggregator_address = feed;
  feed_label = codes "ETH/USD";
  spike_threshold_bps = 500;
  decimals = 8;
  enabled = true;
}

abbrev feeds : List (ChainKey × List OracleRuleConfig)
feeds = (record { chain_id = 1; address = feed }, feed_config ∷ []) ∷ []

update-IsTyped : (answer : ℕ) → answer < 256 → IsTyped (update_signal answer)
update-IsTyped answer h event e = subst (λ a. IsArray 32 a) (answers e) (word-IsArray answer h)
  where
    answers : oracle_event (update answer) ≡ oracle_event event → word answer ≡ event.current_answer
    answers e' = cc

history-AreTyped : AreTyped (update_signal 100 ∷ update_signal 106 ∷ [])
history-AreTyped = (update-IsTyped 100 (omega arith), (update-IsTyped 106 (omega arith), tt))

-- The first answer is the baseline, and the second raises an alert for a change of six percent.
six_percent :
    map
      (λ alert. alert.message)
      (run (fresh feeds) (update_signal 100 ∷ update_signal 106 ∷ []) []).1
    ≡ codes "Oracle spike on ETH/USD: 6.00% change" ∷ []
unfolding run evaluate as_oracle find key_beq bytes_beq is_negative fits_u64 low_u64 read_word
    delta_bps body alert_for format_pct_from_bps observe alerts_against record_last assign emit_each
    push to_string put_digits key_of fresh
six_percent = refl

abbrev warm : OracleUpdateRule
warm = (run (fresh feeds) (update_signal 100 ∷ []) []).0

warm-Inv : Inv warm
warm-Inv = run-fresh-Inv feeds (update_signal 100 ∷ []) [] (history-AreTyped.0, tt)

warm_thresholds :
    All
      (λ cfg. cfg.spike_threshold_bps < 2 ^ 32)
      (bucket (find (key_of (update 106)) warm.configs_by_feed))
unfolding run evaluate as_oracle find key_beq bytes_beq is_negative fits_u64 low_u64 read_word
    observe record_last assign key_of fresh
warm_thresholds = (omega arith, tt)

spikes_example :
    (evaluate warm (update_signal 106) []).1
    ≡ map
        (alert_for 1000
          (update 106)
          (be_value (word 106))
          (reported (find (key_of (update 106)) warm.last_by_feed) (be_value (word 106))))
        (filter_by
          (λ cfg.
            takes warm (update 106)
            && spikes (find (key_of (update 106)) warm.last_by_feed) (be_value (word 106)) cfg)
          (bucket (find (key_of (update 106)) warm.configs_by_feed)))
spikes_example =
    evaluate-spikes warm (update_signal 106) (update 106) [] warm-Inv refl refl
      (word-IsArray 106 (omega arith)) warm_thresholds

baseline_example :
    find (key_of (update 106)) (evaluate warm (update_signal 106) []).0.last_by_feed ≡ (
      if takes warm (update 106) && key_beq (key_of (update 106)) (key_of (update 106))
      then some (record { answer = word 106; updated_at = 60 })
      else find (key_of (update 106)) warm.last_by_feed)
baseline_example =
    evaluate-baseline warm (update_signal 106) (update 106) [] (key_of (update 106)) refl refl
      (word-IsArray 106 (omega arith))
