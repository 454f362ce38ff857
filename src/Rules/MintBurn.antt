-- ===== src/Rules/MintBurn.antt =====
-- src/risk/rules/mint_burn_rule.cpp: `MintBurnRule`.
use risk_sentinel.Common.{
  ℕ, Bool, false, Option, none, some, List, ◌++◌, Bytes, codes, ◌≡◌, if◌then◌else◌, map, All,
  IsArray, filter_by, leb, not, ◌&&◌, take_whole, arith, subst, sym,
}
use risk_sentinel.Common.Assoc.{find}
use risk_sentinel.Hex.{greater_be_256, uint256_be_to_decimal}
use risk_sentinel.Hex.Value.{be_value}
use risk_sentinel.Hex.Compare.{greater_be_256-ltb}
use risk_sentinel.Signal.{
  Signal, SignalType, SignalPayload, type_beq, Alert, MintBurnEvent, MintBurnDirection, ChainKey,
  key_eq, make_mask, mint_burn_event,
}
use risk_sentinel.Rules.{address_to_hex, emit_found, found-filter, bucket}

pub record MintBurnRuleConfig : Type 0 where
  pub customer_id : ℕ
  pub chain_id : ℕ
  pub contract_address : Bytes
  pub mint_threshold_be : Bytes
  pub burn_threshold_be : Bytes
  pub enabled : Bool

abbrev pub ConfigMap : Type 0
ConfigMap = List (ChainKey × List MintBurnRuleConfig)

unfoldable pub interests : ℕ
unfolding make_mask
interests = make_mask SignalType.mint_burn

-- `std::get_if<MintBurnEvent>(&signal.payload)`
unfoldable pub as_mint_burn : SignalPayload → Option MintBurnEvent
as_mint_burn (mint_burn_event event) = some event
as_mint_burn _ = none

unfoldable pub is_alert : MintBurnEvent → MintBurnRuleConfig → Bool
is_alert event cfg = elim event.direction [
  | MintBurnDirection.mint ↦ not (greater_be_256 cfg.mint_threshold_be event.amount)
  | MintBurnDirection.burn ↦ not (greater_be_256 cfg.burn_threshold_be event.amount)
  | MintBurnDirection.unknown ↦ false
]

unfoldable pub dir_str : MintBurnDirection → Bytes
dir_str MintBurnDirection.mint = codes "Mint"
dir_str _ = codes "Burn"

unfoldable pub alert_for : ℕ → MintBurnEvent → MintBurnRuleConfig → Alert
alert_for timestamp_ms event cfg = record {
  customer_id = cfg.customer_id;
  rule_type = codes "mint_burn";
  message = codes "Large " ++ (dir_str event.direction ++ codes " detected");
  timestamp_ms = timestamp_ms;
  internal_ingress_time_ms = 0;
  amount_decimal = some (uint256_be_to_decimal event.amount);
  token_address = some (address_to_hex event.token_address);
  chain_id = some event.chain_id;
}

unfoldable pub body : ℕ → MintBurnEvent → MintBurnRuleConfig → Option Alert
body timestamp_ms event cfg =
    if not cfg.enabled
    then none
    else if is_alert event cfg
    then some (alert_for timestamp_ms event cfg)
    else none

unfoldable pub key_of : MintBurnEvent → ChainKey
key_of event = record { chain_id = event.chain_id; address = address_to_hex event.token_address }

unfoldable pub evaluate : ConfigMap → Signal → List Alert → List Alert
evaluate config_map signal out =
    if not (type_beq signal.type SignalType.mint_burn)
    then out
    else elim (as_mint_burn signal.payload) [
      | none ↦ out
      | some event ↦
          emit_found (body signal.meta.timestamp_ms event) (find (key_of event) config_map) out
    ]

abbrev pub at_threshold : MintBurnDirection → ℕ → MintBurnRuleConfig → Bool
at_threshold MintBurnDirection.unknown amount cfg = false
at_threshold MintBurnDirection.mint amount cfg = leb (be_value cfg.mint_threshold_be) amount
at_threshold MintBurnDirection.burn amount cfg = leb (be_value cfg.burn_threshold_be) amount

-- What a configuration asks for: at least the threshold of the event's direction.
abbrev pub reaches : MintBurnEvent → MintBurnRuleConfig → Bool
reaches event cfg = cfg.enabled && at_threshold event.direction (be_value event.amount) cfg

abbrev pub HasThresholds : MintBurnRuleConfig → Type 0
HasThresholds cfg = IsArray 32 cfg.mint_threshold_be × IsArray 32 cfg.burn_threshold_be

-- `!greater_be_256(threshold, amount)` is "at least".
at_least :
    (threshold amount : Bytes)
    → IsArray 32 threshold
    → IsArray 32 amount
    → not (greater_be_256 threshold amount) ≡ leb (be_value threshold) (be_value amount)
at_least threshold amount ht ha =
    let same = take_whole 32 threshold ht.1 in
    let order = greater_be_256-ltb threshold amount (subst (IsArray 32) (sym same) ht) ha in
    rw (order, same) (ground arith)

body_lem :
    (timestamp_ms : ℕ) (event : MintBurnEvent)
    → IsArray 32 event.amount
    → (cfg : MintBurnRuleConfig) → HasThresholds cfg
    → body timestamp_ms event cfg
      ≡ (if reaches event cfg then some (alert_for timestamp_ms event cfg) else none)
unfolding body is_alert
body_lem timestamp_ms event h cfg ht = ground (
  arith,
  at_least cfg.mint_threshold_be event.amount ht.0 h,
  at_least cfg.burn_threshold_be event.amount ht.1 h,
)

-- A mint or burn, with an amount and thresholds of 32 bytes, raises, in the order of the bucket of
-- its chain and token, one alert for each enabled configuration whose threshold for that direction
-- is at most the amount, an equal one included, and no other; an event of unknown direction raises none.
pub evaluate-reaches :
    (config_map : ConfigMap) (signal : Signal) (event : MintBurnEvent) (out : List Alert)
    → signal.type ≡ SignalType.mint_burn
    → signal.payload ≡ mint_burn_event event
    → IsArray 32 event.amount
    → All HasThresholds (bucket (find (key_of event) config_map))
    → evaluate config_map signal out
      ≡ out
        ++ map
            (alert_for signal.meta.timestamp_ms event)
            (filter_by (reaches event) (bucket (find (key_of event) config_map)))
unfolding evaluate as_mint_burn
evaluate-reaches config_map signal event out t p h all =
    rw (t, p)
      (found-filter (body signal.meta.timestamp_ms event) (reaches event)
        (alert_for signal.meta.timestamp_ms event) HasThresholds
        (body_lem signal.meta.timestamp_ms event h) (find (key_of event) config_map) out all)
