-- ===== src/Rules/OracleUpdate.antt =====
-- src/risk/rules/oracle_update_rule.cpp: `OracleUpdateRule`, which keeps the last answer of each
-- feed that a customer is configured for.
pub mod Answer
pub mod Spike
pub mod Baseline
pub mod History
mod Tests
use risk_sentinel.Common.{
  ℕ, ◌+◌, ◌-◌, ◌*◌, ◌/◌, ◌%◌, ◌^◌, bit_and, bit_or, Bool, true, false, Option, none, some, List, [],
  ◌∷◌, ◌++◌, Bytes, codes, if◌then◌else◌, all_of, ltb, leb, not, ◌==◌, take, drop, get_or,
}
use risk_sentinel.Common.Assoc.{find, assign}
use risk_sentinel.Common.Digits.{to_string}
use risk_sentinel.Signal.{
  Signal, SignalType, SignalPayload, type_beq, Alert, OracleUpdateEvent, ChainKey, key_eq,
  make_mask, oracle_event,
}
use risk_sentinel.Rules.{address_to_hex, emit_each}

pub record OracleRuleConfig : Type 0 where
  pub customer_id : ℕ
  pub chain_id : ℕ
  pub aggregator_address : Bytes
  pub feed_label : Bytes
  pub spike_threshold_bps : ℕ
  pub decimals : ℕ
  pub enabled : Bool

pub record LastObservation : Type 0 where
  pub answer : Bytes
  pub updated_at : ℕ

pub record OracleUpdateRule : Type 0 where
  pub configs_by_feed : List (ChainKey × List OracleRuleConfig)
  pub last_by_feed : List (ChainKey × LastObservation)

unfoldable pub interests : ℕ
unfolding make_mask
interests = make_mask SignalType.oracle_update

-- `std::get_if<OracleUpdateEvent>(&signal.payload)`
unfoldable pub as_oracle : SignalPayload → Option OracleUpdateEvent
as_oracle (oracle_event event) = some event
as_oracle _ = none

-- Whole percents, a point, and two digits of hundredths.
unfoldable pub format_pct_from_bps : ℕ → Bytes
format_pct_from_bps delta_bps =
    let whole = delta_bps / 100 in
    let frac = delta_bps % 100 in
    to_string whole ++ (b'.' ∷ ((if ltb frac 10 then b'0' ∷ [] else []) ++ to_string frac))

-- `answer[0] & 0x80`
unfoldable pub is_negative : Bytes → Bool
is_negative answer = not (bit_and (get_or answer 0 0) 0x80 == 0)

-- Bytes 0 to 23 are zero.
unfoldable pub fits_u64 : Bytes → Bool
fits_u64 answer = all_of (λ b. b == 0) (take 24 answer)

-- `value = (value << 8) | byte` over the bytes, in `uint64_t`.
unfoldable pub read_word : ℕ → Bytes → ℕ
read_word value [] = value
read_word value (b ∷ bs) = read_word (bit_or (value * 256 % 2 ^ 64) b) bs

-- Bytes 24 to 31.
unfoldable pub low_u64 : Bytes → ℕ
low_u64 answer = read_word 0 (drop 24 answer)

abbrev pub uint64_max : ℕ
uint64_max = 2 ^ 64 - 1

-- `diff * 10000` is below 2 ^ 78, so the `__int128` does not wrap; `prev` is not 0 here.
unfoldable pub delta_bps : ℕ → ℕ → ℕ
delta_bps current prev =
    let diff = if ltb prev current then current - prev else prev - current in
    let delta = diff * 10000 / prev in if ltb uint64_max delta then uint64_max else delta

unfoldable pub alert_for : ℕ → OracleUpdateEvent → ℕ → ℕ → OracleRuleConfig → Alert
alert_for timestamp_ms event current delta cfg = record {
  customer_id = cfg.customer_id;
  rule_type = codes "oracle_update";
  message =
      codes "Oracle spike on "
      ++ (cfg.feed_label ++ (codes ": " ++ (format_pct_from_bps delta ++ codes "% change")));
  timestamp_ms = timestamp_ms;
  internal_ingress_time_ms = 0;
  amount_decimal = some (to_string current);
  token_address = some (address_to_hex event.aggregator_address);
  chain_id = some event.chain_id;
}

unfoldable pub body : ℕ → OracleUpdateEvent → ℕ → ℕ → OracleRuleConfig → Option Alert
body timestamp_ms event current delta cfg =
    if not cfg.enabled
    then none
    else if leb delta cfg.spike_threshold_bps
    then none
    else some (alert_for timestamp_ms event current delta cfg)

unfoldable pub key_of : OracleUpdateEvent → ChainKey
key_of event = record { chain_id = event.chain_id; address = event.aggregator_address }

-- `state_it->second = LastObservation{...}`, or `emplace` for a feed that is new.
unfoldable pub record_last : OracleUpdateRule → OracleUpdateEvent → OracleUpdateRule
record_last rule event = record rule {
  last_by_feed =
      assign (key_of event)
        (record { answer = event.current_answer; updated_at = event.updated_at }) rule.last_by_feed;
}

-- What is appended to `out`: nothing on a cold start or after a zero, else the loop's alerts.
unfoldable pub alerts_against :
    Option LastObservation → ℕ → OracleUpdateEvent → List OracleRuleConfig → List Alert → List Alert
alerts_against none timestamp_ms event configs out = out
alerts_against (some last) timestamp_ms event configs out =
    let current = low_u64 event.current_answer in
    let prev = low_u64 last.answer in
    if prev == 0
    then out
    else emit_each (body timestamp_ms event current (delta_bps current prev)) configs out

-- The part behind the guards: compare with the last answer, if there is one, and remember this one.
unfoldable pub observe :
    OracleUpdateRule
    → ℕ
    → OracleUpdateEvent
    → List OracleRuleConfig
    → List Alert
    → OracleUpdateRule × List Alert
observe rule timestamp_ms event configs out = (
  record_last rule event,
  alerts_against (find (key_of event) rule.last_by_feed) timestamp_ms event configs out,
)

unfoldable pub evaluate : OracleUpdateRule → Signal → List Alert → OracleUpdateRule × List Alert
evaluate rule signal out =
    if not (type_beq signal.type SignalType.oracle_update)
    then (rule, out)
    else elim (as_oracle signal.payload) [
      | none ↦ (rule, out)
      | some event ↦ elim (find (key_of event) rule.configs_by_feed) [
        | none ↦ (rule, out)
        | some configs ↦
            if is_negative event.current_answer
            then (rule, out)
            else if not (fits_u64 event.current_answer)
            then (rule, out)
            else observe rule signal.meta.timestamp_ms event configs out
      ]
    ]
