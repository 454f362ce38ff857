-- ===== src/Normalize/Classes.antt =====
-- Which payload a log gets.
use risk_sentinel.Common.{
  ℕ, zero, suc, ◌*◌, ◌%◌, ◌^◌, ◌<◌, ◌≡◌, ◌≢◌, refl, subst, Bool, true, false, ◌&&◌, ◌||◌, ltb, leb,
  List, [], ◌∷◌, Bytes, length, take, drop, get_or, AreBytes, IsArray, arith, ok, bind-ok,
  ok-injective, if-both, bit_or, take-IsArray, drop-IsArray,
}
use risk_sentinel.Common.Bits.{bit_or_byte}
use risk_sentinel.Hex.{parse_hex_uint64, parse_hex_bytes}
use risk_sentinel.Signal.{
  Signal, SignalType, SignalPayload, EvmLogEvent, GovernanceAction, type_beq, evm_log,
  governance_event, mint_burn_event, oracle_event,
}
use risk_sentinel.Rules.OracleUpdate.{read_word}
use risk_sentinel.Normalize.{
  RawLog, normalize, decode, classify, payload_for, classify_topic0, action_of, is_zero, topic,
  mint_burn_of, oracle_of,
}
use risk_sentinel.Normalize.Arrays.{IsLog, AreTopics, decode-IsLog}

-- A governance log has one of the six actions.
action_known :
    (topic0 : Bytes)
    → classify_topic0 topic0 ≡ SignalType.governance
    → action_of topic0 ≢ GovernanceAction.unknown
unfolding classify_topic0 action_of
action_known topic0 h e = ground arith

shift_byte : (value b : ℕ) → b < 256 → bit_or (value * 256 % 2 ^ 64) b < 2 ^ 64
shift_byte value b h =
    let low : value * 256 % 2 ^ 64 ≡ value % 2 ^ 56 * 256 = omega arith in
    rw (low, bit_or_byte (value % 2 ^ 56) b h) (omega (arith, h))

read_word-lt : (value : ℕ) (bs : Bytes) → value < 2 ^ 64 → AreBytes bs → read_word value bs < 2 ^ 64
unfolding read_word
read_word-lt value [] h hb = h
read_word-lt value (b ∷ bs) h hb =
    read_word-lt (bit_or (value * 256 % 2 ^ 64) b) bs (shift_byte value b hb.0) hb.1

nth-IsArray :
    (i n : ℕ) (topics : List Bytes) → AreTopics n topics → i < n → IsArray 32 (get_or topics i [])
nth-IsArray i n [] h lt = absurd (omega (arith, h.1))
nth-IsArray zero n (t ∷ topics) h lt = h.0.0
nth-IsArray (suc i) n (t ∷ topics) h lt =
    nth-IsArray i (length topics) topics (h.0.1, refl) (omega (arith, h.1))

-- What the payload of a signal of a type is: its arrays have their lengths, and the types of
-- decoded events are those of their payloads.
abbrev pub Fits : SignalType → SignalPayload → Type 0
Fits type (evm_log evm) =
    IsLog evm
    × (type ≢ SignalType.governance)
    × (type ≢ SignalType.mint_burn)
    × (type ≢ SignalType.control)
Fits type (governance_event event) =
    (type ≡ SignalType.governance)
    × IsArray 20 event.contract_address
    × (event.action ≢ GovernanceAction.unknown)
Fits type (mint_burn_event event) =
    (type ≡ SignalType.mint_burn)
    × IsArray 20 event.token_address
    × IsArray 32 event.amount
    × IsArray 20 event.sender
    × IsArray 20 event.recipient
Fits type (oracle_event event) =
    (type ≡ SignalType.oracle_update)
    × IsArray 20 event.aggregator_address
    × IsArray 32 event.current_answer
    × IsArray 32 event.round_id
    × (event.updated_at < 2 ^ 64)
Fits type _ = ⊥

mint_burn-Fits :
    (evm : EvmLogEvent) → IsLog evm → Fits SignalType.mint_burn (mint_burn_event (mint_burn_of evm))
unfolding mint_burn_of
mint_burn-Fits evm h = (
  refl,
  h.address_array,
  take-IsArray 32 256 evm.data_bytes (omega arith) h.data_array,
  drop-IsArray 12 20 (topic 1 evm) (nth-IsArray 1 4 evm.topics h.topic_arrays (omega arith)),
  drop-IsArray 12 20 (topic 2 evm) (nth-IsArray 2 4 evm.topics h.topic_arrays (omega arith)),
)

oracle-Fits :
    (type : SignalType) (evm : EvmLogEvent)
    → type ≡ SignalType.oracle_update
    → IsLog evm
    → Fits type (oracle_event (oracle_of evm))
unfolding oracle_of
oracle-Fits type evm t h = (
  t,
  h.address_array,
  nth-IsArray 1 4 evm.topics h.topic_arrays (omega arith),
  nth-IsArray 2 4 evm.topics h.topic_arrays (omega arith),
  read_word-lt 0 (take 8 (drop 24 evm.data_bytes)) (omega arith)
      (take-IsArray 8 232 (drop 24 evm.data_bytes) (omega arith)
        (drop-IsArray 24 232 evm.data_bytes h.data_array)).0,
)

type_beq_sound : (a b : SignalType) → type_beq a b ≡ true → a ≡ b
type_beq_sound a b h = ground arith

type_beq_apart : (a b : SignalType) → type_beq a b ≡ false → a ≢ b
type_beq_apart a b h e = ground arith

classified :
    (topic0 : Bytes)
    → (classify_topic0 topic0 ≢ SignalType.mint_burn)
      × (classify_topic0 topic0 ≢ SignalType.control)
unfolding classify_topic0
classified topic0 = (λ h. ground arith, λ h. ground arith)

abbrev FitsPair : SignalType × SignalPayload → Type 0
FitsPair (type, payload) = Fits type payload

and_left : (a b : Bool) → (a && b) ≡ true → a ≡ true
and_left a b h = ground arith

plain-Fits :
    (evm : EvmLogEvent)
    → IsLog evm
    → type_beq (classify_topic0 (topic 0 evm)) SignalType.governance ≡ false
    → FitsPair (classify_topic0 (topic 0 evm), evm_log evm)
plain-Fits evm h g =
    let (m, c) = classified (topic 0 evm) in
    (h, type_beq_apart (classify_topic0 (topic 0 evm)) SignalType.governance g, m, c)

payload_for-Fits :
    (evm : EvmLogEvent) → IsLog evm → FitsPair (payload_for (classify_topic0 (topic 0 evm)) evm)
unfolding payload_for
payload_for-Fits evm h =
    let type = classify_topic0 (topic 0 evm) in
    if-both FitsPair (type_beq type SignalType.governance) _ _
      (λ g. (
        type_beq_sound type _ g,
        h.address_array,
        action_known (topic 0 evm) (type_beq_sound type _ g),
      ))
      (λ g.
        if-both FitsPair (type_beq type SignalType.transfer && leb 3 evm.topic_count) _ _
          (λ _.
            if-both FitsPair
              ((is_zero (topic 1 evm) || is_zero (topic 2 evm)) && leb 32 evm.data_size) _ _
              (λ _. mint_burn-Fits evm h) (λ _. plain-Fits evm h g))
          (λ _.
            if-both FitsPair
              (type_beq type SignalType.oracle_update
                && (leb 3 evm.topic_count && leb 32 evm.data_size))
              _ _ (λ o. oracle-Fits type evm (type_beq_sound type _ (and_left _ _ o)) h)
              (λ _. plain-Fits evm h g)))

classify-Fits : (evm : EvmLogEvent) → IsLog evm → FitsPair (classify evm)
unfolding classify
classify-Fits evm h =
    if-both FitsPair (ltb 0 evm.topic_count) _ _ (λ _. payload_for-Fits evm h)
      (λ _. (h, λ e. ground arith, λ e. ground arith, λ e. ground arith))

-- The payload of a signal that `normalize` makes has arrays and numbers within the types of the
-- source. A decoded event comes under its own type, a governance event has one of the six known
-- actions, and a raw log is never of type governance, mint_burn or control.
pub normalize-Fits :
    (raw : RawLog) (chain_id block_timestamp : ℕ) (uninitialized : Bytes) (signal : Signal)
    → normalize raw chain_id block_timestamp uninitialized ≡ ok signal
    → Fits signal.type signal.payload
unfolding normalize
normalize-Fits raw chain_id block_timestamp uninitialized signal e =
    let (number, _, e₁) = bind-ok (parse_hex_uint64 raw.block_number) _ signal e in
    let (tx_hash, _, e₂) =
      bind-ok (parse_hex_bytes raw.transaction_hash uninitialized) _ signal e₁ in
    let (evm, d, e₃) = bind-ok (decode raw chain_id) _ signal e₂ in
    subst (λ s. Fits s.type s.payload) (ok-injective _ signal e₃)
      (classify-Fits evm (decode-IsLog raw chain_id evm d))
