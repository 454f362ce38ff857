-- ===== src/Rules/Approval.antt =====
-- src/risk/rules/approval_rule.cpp: `ApprovalRule`.
use risk_sentinel.Common.{
  ℕ, ◌+◌, ◌*◌, ◌-◌, ◌^◌, ◌<◌, Bool, Option, none, some, List, [], ◌∷◌, ◌++◌, Bytes, AreBytes, codes,
  ◌≡◌, refl, if◌then◌else◌, map, All, all_of, IsArray, filter_by, ltb, not, ◌&&◌, ◌||◌, ◌==◌, take,
  arith, length, ap, ◌∙◌,
}
use risk_sentinel.Common.Assoc.{find}
use native.Mathlib.Decide.{dec_lt}
use native.Mathlib.Nat.{pow-suc}
use risk_sentinel.Hex.{greater_be_256, uint256_be_to_decimal}
use risk_sentinel.Hex.Value.{be_value, be_value-lt, lead_lt}
use risk_sentinel.Hex.Compare.{greater_be_256-ltb}
use risk_sentinel.Signal.{
  Signal, SignalType, type_beq, Alert, EvmLogEvent, ChainKey, key_eq, make_mask, evm_log,
}
use risk_sentinel.Rules.{
  address_to_hex, unusable, emit_found, as_evm, found-filter, guarded-filter, bucket,
}

pub record ApprovalRuleConfig : Type 0 where
  pub customer_id : ℕ
  pub chain_id : ℕ
  pub token_address : Bytes
  pub threshold_be : Bytes
  pub alert_on_infinite : Bool
  pub enabled : Bool

abbrev pub ConfigMap : Type 0
ConfigMap = List (ChainKey × List ApprovalRuleConfig)

unfoldable pub interests : ℕ
unfolding make_mask
interests = make_mask SignalType.approval

-- `std::all_of(data.begin(), data.begin() + 32, b == 0xFF)`
unfoldable pub is_infinite : EvmLogEvent → Bool
is_infinite evm = all_of (λ b. b == 0xff) (take 32 evm.data_bytes)

unfoldable pub alert_for : ℕ → EvmLogEvent → ApprovalRuleConfig → Alert
alert_for timestamp_ms evm cfg = record {
  customer_id = cfg.customer_id;
  rule_type = codes "approval";
  message =
      if is_infinite evm
      then codes "Infinite approval detected"
      else codes "Large approval detected";
  timestamp_ms = timestamp_ms;
  internal_ingress_time_ms = 0;
  amount_decimal = some (uint256_be_to_decimal evm.data_bytes);
  token_address = some (address_to_hex evm.address);
  chain_id = some evm.chain_id;
}

unfoldable pub body : ℕ → EvmLogEvent → ApprovalRuleConfig → Option Alert
body timestamp_ms evm cfg =
    let exceeds = greater_be_256 evm.data_bytes cfg.threshold_be in
    let is_alert = (cfg.alert_on_infinite && is_infinite evm) || exceeds in
    if not cfg.enabled
    then none
    else if not is_alert
    then none
    else some (alert_for timestamp_ms evm cfg)

-- The key of the log's token in the configuration map.
unfoldable pub key_of : EvmLogEvent → ChainKey
key_of evm = record { chain_id = evm.chain_id; address = address_to_hex evm.address }

unfoldable pub evaluate : ConfigMap → Signal → List Alert → List Alert
evaluate config_map signal out =
    if not (type_beq signal.type SignalType.approval) then out else elim (as_evm signal.payload) [
      | none ↦ out
      | some evm ↦
          if unusable evm
          then out
          else emit_found (body signal.meta.timestamp_ms evm) (find (key_of evm) config_map) out
    ]

-- The number that is approved: the first word of the log's data.
abbrev pub amount : EvmLogEvent → ℕ
amount evm = be_value (take 32 evm.data_bytes)

-- What a configuration asks for: more than the threshold, or the greatest number of 256 bits.
abbrev pub is_alert : EvmLogEvent → ApprovalRuleConfig → Bool
is_alert evm cfg =
    cfg.enabled
    && ((cfg.alert_on_infinite && amount evm == 2 ^ 256 - 1)
        || ltb (be_value cfg.threshold_be) (amount evm))

full_word : (b p v : ℕ) → b < 256 → v < p → (b * p + v == p * 256 - 1) ≡ (b == 0xff && v == p - 1)
full_word b p v hb hv = elim (dec_lt b 255) [
  | yes lt ↦ ground (arith, lead_lt 255 b p v 0 lt hv)
  | no ge ↦ let e : b ≡ 255 = omega arith in ground (arith, ap (λ t. t * p) e)
]

-- Bytes that are all 0xFF stand for the greatest number, and no others do.
all_ones :
    (bs : Bytes) → AreBytes bs → all_of (λ b. b == 0xff) bs ≡ (be_value bs == 256 ^ length bs - 1)
all_ones [] h = refl
all_ones (b ∷ bs) h = rw (
  pow-suc 256 (length bs),
  full_word b (256 ^ length bs) (be_value bs) h.0 (be_value-lt bs h.1),
  all_ones bs h.1,
)

is_infinite-value :
    (evm : EvmLogEvent)
    → IsArray 32 (take 32 evm.data_bytes)
    → is_infinite evm ≡ (amount evm == 2 ^ 256 - 1)
unfolding is_infinite
is_infinite-value evm h =
    all_ones (take 32 evm.data_bytes) h.0 ∙ ap (λ n. amount evm == 256 ^ n - 1) h.1

body_lem :
    (timestamp_ms : ℕ) (evm : EvmLogEvent)
    → IsArray 32 (take 32 evm.data_bytes)
    → (cfg : ApprovalRuleConfig) → IsArray 32 cfg.threshold_be
    → body timestamp_ms evm cfg
      ≡ (if is_alert evm cfg then some (alert_for timestamp_ms evm cfg) else none)
unfolding body
body_lem timestamp_ms evm h cfg ht =
    ground (arith, greater_be_256-ltb evm.data_bytes cfg.threshold_be h ht, is_infinite-value evm h)

-- An approval, with a word of data and thresholds of 32 bytes, raises, in the order of the bucket
-- of its chain and token, one alert for each enabled configuration whose threshold is below the
-- approved amount, or that asks for infinite approvals when the amount is 2 ^ 256 - 1, and no
-- other; an unusable log raises none.
pub evaluate-is_alert :
    (config_map : ConfigMap) (signal : Signal) (evm : EvmLogEvent) (out : List Alert)
    → signal.type ≡ SignalType.approval
    → signal.payload ≡ evm_log evm
    → IsArray 32 (take 32 evm.data_bytes)
    → All (λ cfg. IsArray 32 cfg.threshold_be) (bucket (find (key_of evm) config_map))
    → evaluate config_map signal out
      ≡ out
        ++ map (alert_for signal.meta.timestamp_ms evm) (
            filter_by
              (λ cfg. not (unusable evm) && is_alert evm cfg)
              (bucket (find (key_of evm) config_map)))
unfolding evaluate as_evm
evaluate-is_alert config_map signal evm out t p h all =
    rw (t, p)
      (guarded-filter (unusable evm) (is_alert evm) (alert_for signal.meta.timestamp_ms evm)
        (bucket (find (key_of evm) config_map)) out _
        (λ _.
          found-filter (body signal.meta.timestamp_ms evm) (is_alert evm)
            (alert_for signal.meta.timestamp_ms evm) (λ cfg. IsArray 32 cfg.threshold_be)
            (body_lem signal.meta.timestamp_ms evm h) (find (key_of evm) config_map) out all))
