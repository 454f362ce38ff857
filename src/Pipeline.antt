-- ===== src/Pipeline.antt =====
-- From the log on the chain to the alert: src/events/normalize.cpp before the rules.
mod Tests
use risk_sentinel.Common.{
  ℕ, zero, suc, ◌+◌, ◌-◌, ◌*◌, ◌^◌, ◌<◌, ◌≤◌, ◌≡◌, refl, ap, subst, sym, ◌∙◌, Bool, true, false,
  not, ◌&&◌, ◌||◌, ltb, leb, ◌==◌, List, [], ◌∷◌, ◌++◌, Bytes, length, take, drop, replicate,
  AreBytes, IsArray, All, Outcome, ok, err, arith, map, filter_by, if◌then◌else◌, bytes_beq,
  bytes_beq_refl, min, take_whole, get_or,
}
use risk_sentinel.Hex.Value.{be_value}
use risk_sentinel.Signal.{
  Signal, SignalType, SignalPayload, SignalMeta, EvmLogEvent, Alert, OracleUpdateEvent, type_beq,
  evm_log, oracle_event, ChainKey,
}
use risk_sentinel.Topics.{topic_transfer}
use risk_sentinel.Normalize.{
  RawLog, normalize, classify, payload_for, classify_topic0, is_zero, topic, meta_of,
}
use risk_sentinel.Normalize.Classes.{Fits, normalize-Fits}
use risk_sentinel.Normalize.Printed.{
  ChainLog, IsChainLog, printed, decoded, overwrite, pad, normalize-printed,
}
use risk_sentinel.Rules.{unusable}
use risk_sentinel.Rules.LargeTransfer.{
  LargeTransferRuleConfig, evaluate, alert_for, is_large, evaluate-is_large,
}
use risk_sentinel.Rules.OracleUpdate.{OracleUpdateRule, OracleRuleConfig}
use risk_sentinel.Rules.OracleUpdate.Baseline.{Inv}
use risk_sentinel.Rules.OracleUpdate.History.{fresh, run, IsTyped, AreTyped, run-fresh-Inv}

-- A signal that `normalize` has made, whatever has been written into its meta data since.
abbrev pub IsNormalized : Signal → Type 0
IsNormalized signal =
    (raw : RawLog) × (chain_id block_timestamp : ℕ) × (uninitialized : Bytes) × (meta : SignalMeta)
    × (normalize raw chain_id block_timestamp uninitialized ≡ ok (record signal { meta = meta }))

oracle_answer :
    (type : SignalType) (payload : SignalPayload) (event : OracleUpdateEvent)
    → payload ≡ oracle_event event
    → Fits type payload
    → IsArray 32 event.current_answer
oracle_answer type payload event e h = (subst (Fits type) e h).2

IsNormalized-IsTyped : (signal : Signal) → IsNormalized signal → IsTyped signal
IsNormalized-IsTyped signal (raw, chain_id, block_timestamp, uninitialized, meta, n) event e =
    oracle_answer signal.type signal.payload event e
      (normalize-Fits raw chain_id block_timestamp uninitialized (record signal { meta = meta }) n)

AreNormalized-AreTyped : (signals : List Signal) → All IsNormalized signals → AreTyped signals
AreNormalized-AreTyped [] h = tt
AreNormalized-AreTyped (signal ∷ signals) h =
    (IsNormalized-IsTyped signal h.0, AreNormalized-AreTyped signals h.1)

-- Whatever logs the chain has, the baselines that the oracle rule keeps from the signals that
-- `normalize` makes of them are numbers below 2 ^ 64 of configured feeds.
pub normalized-Inv :
    (configs : List (ChainKey × List OracleRuleConfig)) (signals : List Signal) (out : List Alert)
    → All IsNormalized signals
    → Inv (run (fresh configs) signals out).0
normalized-Inv configs signals out h =
    run-fresh-Inv configs signals out (AreNormalized-AreTyped signals h)

-- A transfer of tokens between two accounts, of a log that the chain keeps.
pub record IsTransfer (log : ChainLog) (sender recipient : Bytes) : Type 0 where
  pub chain_log : IsChainLog log
  pub three_topics : log.topics ≡ topic_transfer ∷ sender ∷ recipient ∷ []
  pub not_minted : is_zero sender ≡ false
  pub not_burnt : is_zero recipient ≡ false
  pub one_word : length log.log_data ≡ 32
  pub kept : log.removed ≡ false

-- A configuration asks for the transfer: its token on its chain, above its threshold.
abbrev pub asks : ℕ → ChainLog → LargeTransferRuleConfig → Bool
asks chain_id log config =
    chain_id == config.chain_id
    && bytes_beq log.address config.token_address
    && ltb (be_value config.threshold_be) (be_value log.log_data)

classified_transfer : classify_topic0 topic_transfer ≡ SignalType.transfer
unfolding classify_topic0
classified_transfer = rw (bytes_beq_refl topic_transfer)

plain_transfer :
    (evm : EvmLogEvent)
    → evm.topic_count ≡ 3
    → topic 0 evm ≡ topic_transfer
    → is_zero (topic 1 evm) ≡ false
    → is_zero (topic 2 evm) ≡ false
    → classify evm ≡ (SignalType.transfer, evm_log evm)
unfolding classify payload_for
plain_transfer evm c t a b = rw (c, t, classified_transfer, a, b)

decoded_topics :
    (log : ChainLog) (chain_id : ℕ) (first sender recipient : Bytes)
    → log.topics ≡ first ∷ sender ∷ recipient ∷ []
    → ((decoded log chain_id).topic_count ≡ 3)
      × (topic 0 (decoded log chain_id) ≡ first)
      × (topic 1 (decoded log chain_id) ≡ sender)
      × (topic 2 (decoded log chain_id) ≡ recipient)
decoded_topics log chain_id first sender recipient e = (
  ap (λ t. min (length t) 4) e,
  ap (λ t. get_or (pad 4 t) 0 []) e,
  ap (λ t. get_or (pad 4 t) 1 []) e,
  ap (λ t. get_or (pad 4 t) 2 []) e,
)

transfer-classify :
    (log : ChainLog) (chain_id : ℕ) (sender recipient : Bytes)
    → IsTransfer log sender recipient
    → classify (decoded log chain_id) ≡ (SignalType.transfer, evm_log (decoded log chain_id))
transfer-classify log chain_id sender recipient h =
    let (c, t, a, b) = decoded_topics log chain_id topic_transfer sender recipient h.three_topics in
    plain_transfer (decoded log chain_id) c t (ap is_zero a ∙ h.not_minted)
      (ap is_zero b ∙ h.not_burnt)

take_short : (n : ℕ) (bs : Bytes) → length bs ≤ n → take n bs ≡ bs
take_short zero [] h = refl
take_short zero (b ∷ bs) h = absurd (omega arith)
take_short (suc n) [] h = refl
take_short (suc n) (b ∷ bs) h = ap (λ t. b ∷ t) (take_short n bs (omega arith))

take_front : (n : ℕ) (bs rest : Bytes) → length bs ≡ n → take n (bs ++ rest) ≡ bs
take_front zero [] rest h = refl
take_front zero (b ∷ bs) rest h = absurd (omega arith)
take_front (suc n) [] rest h = absurd (omega arith)
take_front (suc n) (b ∷ bs) rest h = ap (λ t. b ∷ t) (take_front n bs rest (omega arith))

front_word : (bs out : Bytes) → length bs ≡ 32 → length out ≡ 256 → take 32 (overwrite bs out) ≡ bs
front_word bs out h n =
    ap (λ t. take 32 (t ++ drop (length bs) out)) (take_short (length out) bs (omega arith))
    ∙ take_front 32 bs (drop (length bs) out) h

usable :
    (evm : EvmLogEvent)
    → evm.removed ≡ false
    → evm.topic_count ≡ 3
    → evm.data_size ≡ 32
    → evm.truncated ≡ false
    → unusable evm ≡ false
unfolding unusable
usable evm r c d t = rw (r, c, d, t)

-- The signal of a transfer that a node prints, as the large-transfer rule gets it.
abbrev pub transfer_signal : ChainLog → ℕ → ℕ → Signal
transfer_signal log chain_id block_timestamp = record {
  type = SignalType.transfer;
  meta = meta_of chain_id block_timestamp log.block_number log.transaction_hash;
  payload = evm_log (decoded log chain_id);
}

normalize-transfer :
    (log : ChainLog) (chain_id block_timestamp : ℕ) (uninitialized sender recipient : Bytes)
    → IsTransfer log sender recipient
    → length uninitialized ≡ 32
    → normalize (printed log) chain_id block_timestamp uninitialized
      ≡ ok (transfer_signal log chain_id block_timestamp)
normalize-transfer log chain_id block_timestamp uninitialized sender recipient h n =
    normalize-printed log chain_id block_timestamp uninitialized h.chain_log n
    ∙ ap
        (λ (p : SignalType × SignalPayload). ok (record {
          type = p.0;
          meta = meta_of chain_id block_timestamp log.block_number log.transaction_hash;
          payload = p.1;
        }))
        (transfer-classify log chain_id sender recipient h)

usable_transfer :
    (log : ChainLog) (chain_id : ℕ) (sender recipient : Bytes)
    → IsTransfer log sender recipient
    → unusable (decoded log chain_id) ≡ false
usable_transfer log chain_id sender recipient h =
    let (c, _, _, _) = decoded_topics log chain_id topic_transfer sender recipient h.three_topics in
    usable (decoded log chain_id) h.kept c (omega (arith, h.one_word))
      (ap (λ n. ltb 256 n) h.one_word)

-- A token transfer that a node prints, between two accounts and of one word of data, is
-- normalized, and then raises one alert for each configuration of the large-transfer rule that
-- asks for its token on its chain with a threshold strictly below the number that the data spells,
-- in the order of the configurations, and no other; the fields being within their types,
-- thresholds of 32 bytes, and the local array for the hash too.
pub transfer-alerts :
    (log : ChainLog) (chain_id block_timestamp : ℕ) (uninitialized sender recipient : Bytes)
    (configs : List LargeTransferRuleConfig)
    → IsTransfer log sender recipient
    → length uninitialized ≡ 32
    → All (λ config. IsArray 32 config.threshold_be) configs
    → (normalize (printed log) chain_id block_timestamp uninitialized
        ≡ ok (transfer_signal log chain_id block_timestamp))
      × (evaluate configs (transfer_signal log chain_id block_timestamp) []
          ≡ map
              (alert_for block_timestamp (decoded log chain_id))
              (filter_by (asks chain_id log) configs))
unfolding meta_of
transfer-alerts log chain_id block_timestamp uninitialized sender recipient configs h n all =
    let word = front_word log.log_data (replicate 256 0) h.one_word refl in
    let alerts =
      evaluate-is_large configs (transfer_signal log chain_id block_timestamp)
        (decoded log chain_id) [] refl
        (subst (IsArray 32) (sym word) (h.chain_log.data_bytes, h.one_word)) all in
    (
      normalize-transfer log chain_id block_timestamp uninitialized sender recipient h n,
      alerts
          ∙ rw (usable_transfer log chain_id sender recipient h) (
              ap
                (λ amount. map (alert_for block_timestamp (decoded log chain_id)) (
                  filter_by
                    (λ config.
                      chain_id == config.chain_id
                      && bytes_beq log.address config.token_address
                      && ltb (be_value config.threshold_be) (be_value amount))
                    configs))
                word),
    )
