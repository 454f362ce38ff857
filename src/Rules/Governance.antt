-- ===== src/Rules/Governance.antt =====
-- src/risk/rules/governance_rule.cpp: `GovernanceRule`.
use risk_sentinel.Common.{
  ℕ, Bool, true, false, Option, none, some, List, [], ◌∷◌, ◌++◌, Bytes, codes, ◌≡◌, refl,
  if◌then◌else◌, map, All, filter_by, not, ◌&&◌, ◌==◌, arith, ◌↔◌, ◌⊎◌, ap, inl, inr,
}
use risk_sentinel.Common.Assoc.{find}
use risk_sentinel.Signal.{
  Signal, SignalType, SignalPayload, type_beq, Alert, GovernanceEvent, GovernanceAction, ChainKey,
  key_eq, make_mask, governance_event,
}
use risk_sentinel.Rules.{address_to_hex, emit_found, found-filter, bucket}

pub record GovernanceRuleConfig : Type 0 where
  pub customer_id : ℕ
  pub chain_id : ℕ
  pub contract_address : Bytes
  pub enabled : Bool
  pub action_filter : Option GovernanceAction

abbrev pub ConfigMap : Type 0
ConfigMap = List (ChainKey × List GovernanceRuleConfig)

unfoldable pub interests : ℕ
unfolding make_mask
interests = make_mask SignalType.governance

-- `static_cast<uint8_t>(action)`, by which the enumerators are compared.
abbrev pub action_index : GovernanceAction → ℕ
action_index GovernanceAction.unknown = 0
action_index GovernanceAction.ownership_transferred = 1
action_index GovernanceAction.paused = 2
action_index GovernanceAction.unpaused = 3
action_index GovernanceAction.role_granted = 4
action_index GovernanceAction.role_revoked = 5
action_index GovernanceAction.upgraded = 6

unfoldable pub action_to_string : GovernanceAction → Bytes
action_to_string GovernanceAction.ownership_transferred = codes "OwnershipTransferred"
action_to_string GovernanceAction.paused = codes "Paused"
action_to_string GovernanceAction.unpaused = codes "Unpaused"
action_to_string GovernanceAction.role_granted = codes "RoleGranted"
action_to_string GovernanceAction.role_revoked = codes "RoleRevoked"
action_to_string GovernanceAction.upgraded = codes "Upgraded"
action_to_string GovernanceAction.unknown = codes "Unknown"

-- `std::get_if<GovernanceEvent>(&signal.payload)`
unfoldable pub as_governance : SignalPayload → Option GovernanceEvent
as_governance (governance_event event) = some event
as_governance _ = none

-- `cfg.action_filter.has_value() && cfg.action_filter.value() != gov_event->action`
unfoldable pub filtered_out : Option GovernanceAction → GovernanceAction → Bool
filtered_out none action = false
filtered_out (some wanted) action = not (action_index wanted == action_index action)

unfoldable pub alert_for : ℕ → GovernanceEvent → GovernanceRuleConfig → Alert
alert_for timestamp_ms event cfg = record {
  customer_id = cfg.customer_id;
  rule_type = codes "governance";
  message =
      codes "Governance action '"
      ++ (action_to_string event.action
          ++ (codes "' detected on contract " ++ address_to_hex event.contract_address));
  timestamp_ms = timestamp_ms;
  internal_ingress_time_ms = 0;
  amount_decimal = none;
  token_address = some (address_to_hex event.contract_address);
  chain_id = some event.chain_id;
}

unfoldable pub body : ℕ → GovernanceEvent → GovernanceRuleConfig → Option Alert
body timestamp_ms event cfg =
    if not cfg.enabled
    then none
    else if filtered_out cfg.action_filter event.action
    then none
    else some (alert_for timestamp_ms event cfg)

unfoldable pub key_of : GovernanceEvent → ChainKey
key_of event = record { chain_id = event.chain_id; address = address_to_hex event.contract_address }

unfoldable pub evaluate : ConfigMap → Signal → List Alert → List Alert
evaluate config_map signal out =
    if not (type_beq signal.type SignalType.governance)
    then out
    else elim (as_governance signal.payload) [
      | none ↦ out
      | some event ↦
          emit_found (body signal.meta.timestamp_ms event) (find (key_of event) config_map) out
    ]

-- A configuration listens to an action if it is enabled and names that action or none.
abbrev pub Listens : GovernanceAction → GovernanceRuleConfig → Type 0
Listens action cfg =
    (cfg.enabled ≡ true) × ((cfg.action_filter ≡ none) ⊎ (cfg.action_filter ≡ some action))

unfoldable pub listens : GovernanceAction → GovernanceRuleConfig → Bool
unfolding filtered_out
listens action cfg = cfg.enabled && not (filtered_out cfg.action_filter action)

index-injective : (a b : GovernanceAction) → action_index a ≡ action_index b → a ≡ b
index-injective a b h = ground arith

passes_iff :
    (wanted : Option GovernanceAction) (action : GovernanceAction)
    → (filtered_out wanted action ≡ false) ↔ ((wanted ≡ none) ⊎ (wanted ≡ some action))
unfolding filtered_out
passes_iff none action = (λ _. inl refl, λ _. refl)
passes_iff (some wanted) action = (
  λ h. inr (ap some (index-injective wanted action (ground arith))),
  λ h. elim h [ inl e ↦ cc | inr e ↦ same (some_injective e) ],
)
  where
    some_injective : some wanted ≡ some action → wanted ≡ action
    some_injective e = cc

    same : wanted ≡ action → not (action_index wanted == action_index action) ≡ false
    same e = rw e (ground arith)

listens_iff :
    (action : GovernanceAction) (cfg : GovernanceRuleConfig)
    → (listens action cfg ≡ true) ↔ Listens action cfg
unfolding listens
listens_iff action cfg = (
  λ h. (ground arith, (passes_iff cfg.action_filter action).0 (ground arith)),
  λ (on, wanted). rw (on, (passes_iff cfg.action_filter action).1 wanted),
)

trivial : (configs : List GovernanceRuleConfig) → All (λ _. Unit {0}) configs
trivial [] = tt
trivial (cfg ∷ configs) = (tt, trivial configs)

body_lem :
    (timestamp_ms : ℕ) (event : GovernanceEvent) (cfg : GovernanceRuleConfig)
    → Unit {0}
    → body timestamp_ms event cfg
      ≡ (if listens event.action cfg then some (alert_for timestamp_ms event cfg) else none)
unfolding body listens
body_lem timestamp_ms event cfg _ = ground arith

-- A governance event raises, in the order of the bucket of its chain and contract, one alert for
-- each configuration that is enabled and has either no action filter or that very action as its
-- filter, and no other.
pub evaluate-Listens :
    (config_map : ConfigMap) (signal : Signal) (event : GovernanceEvent) (out : List Alert)
    → signal.type ≡ SignalType.governance
    → signal.payload ≡ governance_event event
    → (evaluate config_map signal out
        ≡ out
          ++ map
              (alert_for signal.meta.timestamp_ms event)
              (filter_by (listens event.action) (bucket (find (key_of event) config_map))))
      × ((cfg : GovernanceRuleConfig)
          → (listens event.action cfg ≡ true) ↔ Listens event.action cfg)
unfolding evaluate as_governance
evaluate-Listens config_map signal event out t p = (
  rw (t, p)
      (found-filter (body signal.meta.timestamp_ms event) (listens event.action)
        (alert_for signal.meta.timestamp_ms event) (λ _. Unit {0})
        (body_lem signal.meta.timestamp_ms event) (find (key_of event) config_map) out
        (trivial (bucket (find (key_of event) config_map)))),
  listens_iff event.action,
)
