-- ===== src/Rules/OracleUpdate/Baseline.antt =====
-- What `OracleUpdateRule::evaluate` remembers, and which alerts follow from it.
use risk_sentinel.Common.{
  ℕ, ◌+◌, ◌*◌, ◌^◌, ◌<◌, Bool, true, false, Option, none, some, List, ◌++◌, Bytes, IsArray, All,
  ltb, leb, not, ◌&&◌, ◌==◌, arith, ◌≡◌, refl, if◌then◌else◌, map, filter_by, Bool-cases, ltb→lt,
  inl, inr, sym, append-nil, Option-cases,
}
use risk_sentinel.Common.Assoc.{find, find-assign}
use risk_sentinel.Hex.Value.{be_value}
use risk_sentinel.Signal.{
  Signal, SignalType, Alert, OracleUpdateEvent, ChainKey, key_beq, key_eq, oracle_event,
}
use risk_sentinel.Rules.{bucket, emit_each-filter, guarded-filter, filter_by_none}
use risk_sentinel.Rules.OracleUpdate.{
  OracleRuleConfig, OracleUpdateRule, LastObservation, evaluate, observe, alerts_against,
  record_last, as_oracle, key_of, is_negative, fits_u64, delta_bps, body, alert_for,
}
use risk_sentinel.Rules.OracleUpdate.Answer.{negative-fits, fits_u64-ltb, low_u64-value}
use risk_sentinel.Rules.OracleUpdate.Spike.{distance, delta_bps-above}

-- The answers that are kept are numbers below 2 ^ 64, of feeds that somebody is configured for.
abbrev pub IsKept : OracleUpdateRule → ChainKey → Type 0
IsKept rule key =
    (last : LastObservation)
    → find key rule.last_by_feed ≡ some last
    → IsArray 32 last.answer
      × (be_value last.answer < 2 ^ 64)
      × ((configs : List OracleRuleConfig) × (find key rule.configs_by_feed ≡ some configs))

unfoldable pub Inv : OracleUpdateRule → Type 0
Inv rule = (key : ChainKey) → IsKept rule key

abbrev pub within_u64 : Option (List OracleRuleConfig) → ℕ → Bool
within_u64 none value = false
within_u64 (some configs) value = ltb value (2 ^ 64)

-- An update is taken if its feed is configured and its answer is a number below 2 ^ 64.
abbrev pub takes : OracleUpdateRule → OracleUpdateEvent → Bool
takes rule event =
    within_u64 (find (key_of event) rule.configs_by_feed) (be_value event.current_answer)

-- A change of more than the threshold of an enabled configuration.
abbrev pub rises : LastObservation → ℕ → OracleRuleConfig → Bool
rises last current cfg =
    let prev = be_value last.answer in
    cfg.enabled && leb ((cfg.spike_threshold_bps + 1) * prev) (distance current prev * 10000)

-- What one configuration asks for, against the last answer of the feed: not a cold start, not a
-- baseline of zero, and such a change.
abbrev pub spikes : Option LastObservation → ℕ → OracleRuleConfig → Bool
spikes none current cfg = false
spikes (some last) current cfg = not (be_value last.answer == 0) && rises last current cfg

guards :
    {R : Type 0} (answer : Bytes) (x y : R)
    → IsArray 32 answer
    → (if is_negative answer then x else if not (fits_u64 answer) then x else y)
      ≡ (if ltb (be_value answer) (2 ^ 64) then y else x)
guards answer x y h = elim (Bool-cases (is_negative answer)) [
  | inl s ↦ rw (s, ← fits_u64-ltb answer h, negative-fits answer s)
  | inr s ↦ rw (s, ← fits_u64-ltb answer h) (swap (fits_u64 answer))
]
  where
    swap : (b : Bool) → (if not b then x else y) ≡ (if b then y else x)
    swap true = refl
    swap false = refl

body_lem :
    (ts : ℕ) (event : OracleUpdateEvent) (current prev : ℕ)
    → 0 < prev
    → (cfg : OracleRuleConfig) → cfg.spike_threshold_bps < 2 ^ 32
    → body ts event current (delta_bps current prev) cfg ≡ (
        if cfg.enabled && leb ((cfg.spike_threshold_bps + 1) * prev) (distance current prev * 10000)
        then some (alert_for ts event current (delta_bps current prev) cfg)
        else none)
unfolding body
body_lem ts event current prev hp cfg ht =
    ground (arith, delta_bps-above current prev cfg.spike_threshold_bps hp (omega arith))

-- The change that an alert reports, against the last answer of the feed.
abbrev pub reported : Option LastObservation → ℕ → ℕ
reported none current = 0
reported (some last) current = delta_bps current (be_value last.answer)

alerts_against-spikes :
    (last : Option LastObservation) (ts : ℕ) (event : OracleUpdateEvent)
    (configs : List OracleRuleConfig) (out : List Alert)
    → ((seen : LastObservation)
        → last ≡ some seen
        → IsArray 32 seen.answer × (be_value seen.answer < 2 ^ 64))
    → IsArray 32 event.current_answer
    → be_value event.current_answer < 2 ^ 64
    → All (λ cfg. cfg.spike_threshold_bps < 2 ^ 32) configs
    → let current = be_value event.current_answer in
      alerts_against last ts event configs out
      ≡ out
        ++ map
            (alert_for ts event current (reported last current))
            (filter_by (spikes last current) configs)
unfolding alerts_against
alerts_against-spikes none ts event configs out kept h lt all =
    rw (filter_by_none configs) (sym (append-nil out))
alerts_against-spikes (some last) ts event configs out kept h lt all =
    let (ha, fits) = kept last refl in
    let current = be_value event.current_answer in
    let prev = be_value last.answer in
    rw (low_u64-value event.current_answer h lt, low_u64-value last.answer ha fits)
      (guarded-filter (prev == 0) (rises last current)
        (alert_for ts event current (delta_bps current prev)) configs out _
        (λ z.
          emit_each-filter (body ts event current (delta_bps current prev)) (rises last current)
            (alert_for ts event current (delta_bps current prev))
            (λ cfg. cfg.spike_threshold_bps < 2 ^ 32)
            (body_lem ts event current prev (ground arith)) configs out all))

pub evaluate-guards :
    (rule : OracleUpdateRule) (signal : Signal) (event : OracleUpdateEvent) (out : List Alert)
    → signal.type ≡ SignalType.oracle_update
    → signal.payload ≡ oracle_event event
    → IsArray 32 event.current_answer
    → evaluate rule signal out ≡ (
        if takes rule event
        then observe rule signal.meta.timestamp_ms event
            (bucket (find (key_of event) rule.configs_by_feed))
            out
        else (rule, out))
unfolding evaluate as_oracle
evaluate-guards rule signal event out t p h =
    elim (Option-cases (find (key_of event) rule.configs_by_feed)) [
      | inl e ↦ rw (t, p, e)
      | inr (configs, e) ↦ rw (t, p, e) (guards event.current_answer _ _ h)
    ]

-- After an oracle update with an answer of 32 bytes that is taken, the feed's baseline is its
-- answer and time; every other baseline stays, and an update that is not taken changes none.
pub evaluate-baseline :
    (rule : OracleUpdateRule) (signal : Signal) (event : OracleUpdateEvent) (out : List Alert)
    (key : ChainKey)
    → signal.type ≡ SignalType.oracle_update
    → signal.payload ≡ oracle_event event
    → IsArray 32 event.current_answer
    → find key (evaluate rule signal out).0.last_by_feed ≡ (
        if takes rule event && key_beq (key_of event) key
        then some (record { answer = event.current_answer; updated_at = event.updated_at })
        else find key rule.last_by_feed)
unfolding record_last observe
evaluate-baseline rule signal event out key t p h = elim (Bool-cases (takes rule event)) [
  | inl e ↦
      rw (evaluate-guards rule signal event out t p h, e)
        (find-assign (key_of event) key _ rule.last_by_feed)
  | inr e ↦ rw (evaluate-guards rule signal event out t p h, e)
]

pub some_bucket :
    (rule : OracleUpdateRule) (event : OracleUpdateEvent)
    → takes rule event ≡ true
    → be_value event.current_answer < 2 ^ 64
some_bucket rule event e = fits (find (key_of event) rule.configs_by_feed) e
  where
    fits :
        (found : Option (List OracleRuleConfig))
        → within_u64 found (be_value event.current_answer) ≡ true
        → be_value event.current_answer < 2 ^ 64
    fits none e' = cc
    fits (some configs) e' = ltb→lt _ _ e'

-- While the kept answers satisfy the invariant, an oracle update with an answer of 32 bytes
-- raises, in the order of the feed's configurations, one alert for each enabled configuration for
-- which the change since the last answer, times 10000, is at least its threshold plus one times
-- that last answer, and no other, the thresholds having 32 bits: the change in basis points is rounded
-- down before it is compared, so a change above the threshold by less than a basis point raises none.
-- It raises none on the first answer of a feed, after an answer of zero, and when it is not taken.
pub evaluate-spikes :
    (rule : OracleUpdateRule) (signal : Signal) (event : OracleUpdateEvent) (out : List Alert)
    → Inv rule
    → signal.type ≡ SignalType.oracle_update
    → signal.payload ≡ oracle_event event
    → IsArray 32 event.current_answer
    → All
        (λ cfg. cfg.spike_threshold_bps < 2 ^ 32)
        (bucket (find (key_of event) rule.configs_by_feed))
    → let last = find (key_of event) rule.last_by_feed in
      let current = be_value event.current_answer in
      (evaluate rule signal out).1
      ≡ out
        ++ map (alert_for signal.meta.timestamp_ms event current (reported last current)) (
            filter_by
              (λ cfg. takes rule event && spikes last current cfg)
              (bucket (find (key_of event) rule.configs_by_feed)))
unfolding observe Inv
evaluate-spikes rule signal event out inv t p h all = elim (Bool-cases (takes rule event)) [
  | inl e ↦
      rw (evaluate-guards rule signal event out t p h, e)
        (alerts_against-spikes (find (key_of event) rule.last_by_feed) signal.meta.timestamp_ms
          event (bucket (find (key_of event) rule.configs_by_feed)) out
          (λ seen s. let (ha, fits, _) = inv (key_of event) seen s in (ha, fits)) h
          (some_bucket rule event e) all)
  | inr e ↦
      rw
        (
          evaluate-guards rule signal event out t p h,
          e,
          filter_by_none (bucket (find (key_of event) rule.configs_by_feed)),
        )
        (sym (append-nil out))
]
