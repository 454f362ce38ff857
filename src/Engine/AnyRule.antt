-- ===== src/Engine/AnyRule.antt =====
-- The rules of src/risk/rules/ behind the interface `IRiskRule` that the engine uses.
use risk_sentinel.Common.{
  ℕ, ◌^◌, bit_and, ◌==◌, ◌≡◌, refl, sym, ◌∙◌, false, not, List, Bytes, codes, arith,
}
use risk_sentinel.Signal.{Signal, SignalType, Alert, index, type_beq, make_mask}
use risk_sentinel.Rules.LargeTransfer
use risk_sentinel.Rules.Approval
use risk_sentinel.Rules.MintBurn
use risk_sentinel.Rules.Governance
use risk_sentinel.Rules.BridgeTransfer
use risk_sentinel.Rules.OracleUpdate
use risk_sentinel.Engine.{RiskRule, is_interested}

pub data AnyRule : Type 0 where
  large_transfer : List LargeTransfer.LargeTransferRuleConfig → AnyRule
  approval : Approval.ConfigMap → AnyRule
  mint_burn : MintBurn.ConfigMap → AnyRule
  governance : Governance.ConfigMap → AnyRule
  bridge_transfer : BridgeTransfer.BridgeTransferRule → AnyRule
  oracle_update : OracleUpdate.OracleUpdateRule → AnyRule

unfoldable pub interests_of : AnyRule → ℕ
interests_of (large_transfer configs) = LargeTransfer.interests
interests_of (approval config_map) = Approval.interests
interests_of (mint_burn config_map) = MintBurn.interests
interests_of (governance config_map) = Governance.interests
interests_of (bridge_transfer rule) = BridgeTransfer.interests
interests_of (oracle_update rule) = OracleUpdate.interests

-- `rule_type_name()`
unfoldable pub rule_type_name_of : AnyRule → Bytes
rule_type_name_of (large_transfer configs) = codes "large_transfer"
rule_type_name_of (approval config_map) = codes "approval"
rule_type_name_of (mint_burn config_map) = codes "mint_burn"
rule_type_name_of (governance config_map) = codes "governance"
rule_type_name_of (bridge_transfer rule) = codes "bridge_transfer"
rule_type_name_of (oracle_update rule) = codes "oracle_update"

-- The virtual call; only the oracle rule changes its state.
unfoldable pub evaluate_rule : AnyRule → Signal → List Alert → AnyRule × List Alert
evaluate_rule (large_transfer configs) signal out =
    (large_transfer configs, LargeTransfer.evaluate configs signal out)
evaluate_rule (approval config_map) signal out =
    (approval config_map, Approval.evaluate config_map signal out)
evaluate_rule (mint_burn config_map) signal out =
    (mint_burn config_map, MintBurn.evaluate config_map signal out)
evaluate_rule (governance config_map) signal out =
    (governance config_map, Governance.evaluate config_map signal out)
evaluate_rule (bridge_transfer rule) signal out =
    (bridge_transfer rule, BridgeTransfer.evaluate rule signal out)
evaluate_rule (oracle_update rule) signal out =
    let (rule', out') = OracleUpdate.evaluate rule signal out in (oracle_update rule', out')

pub interests_of-evaluate_rule :
    (rule : AnyRule) (signal : Signal) (out : List Alert)
    → interests_of (evaluate_rule rule signal out).0 ≡ interests_of rule
unfolding interests_of evaluate_rule
interests_of-evaluate_rule (large_transfer configs) signal out = refl
interests_of-evaluate_rule (approval config_map) signal out = refl
interests_of-evaluate_rule (mint_burn config_map) signal out = refl
interests_of-evaluate_rule (governance config_map) signal out = refl
interests_of-evaluate_rule (bridge_transfer rule) signal out = refl
interests_of-evaluate_rule (oracle_update rule) signal out = refl

instance abbrev pub any_rule : RiskRule AnyRule
any_rule = record {
  interests = interests_of;
  evaluate = evaluate_rule;
  interests-evaluate = interests_of-evaluate_rule;
}

-- The type that a rule listens to.
abbrev pub type_of : AnyRule → SignalType
type_of (large_transfer configs) = SignalType.transfer
type_of (approval config_map) = SignalType.approval
type_of (mint_burn config_map) = SignalType.mint_burn
type_of (governance config_map) = SignalType.governance
type_of (bridge_transfer rule) = SignalType.transfer
type_of (oracle_update rule) = SignalType.oracle_update

-- The rules other than the large-transfer rule test the type themselves.
abbrev pub ChecksType : AnyRule → Type 0
ChecksType (large_transfer configs) = ⊥
ChecksType _ = Unit {0}

mask_bit :
    (type wanted : SignalType)
    → not (bit_and (2 ^ index wanted) (2 ^ index type) == 0) ≡ type_beq type wanted
mask_bit type wanted = ground arith

interested_type :
    (rule : AnyRule) (type : SignalType)
    → is_interested (index type) rule ≡ type_beq type (type_of rule)
unfolding is_interested interests_of LargeTransfer.interests Approval.interests MintBurn.interests
    Governance.interests BridgeTransfer.interests OracleUpdate.interests make_mask
interested_type (large_transfer configs) type = mask_bit type SignalType.transfer
interested_type (approval config_map) type = mask_bit type SignalType.approval
interested_type (mint_burn config_map) type = mask_bit type SignalType.mint_burn
interested_type (governance config_map) type = mask_bit type SignalType.governance
interested_type (bridge_transfer rule) type = mask_bit type SignalType.transfer
interested_type (oracle_update rule) type = mask_bit type SignalType.oracle_update

evaluate_uninterested :
    (rule : AnyRule) (signal : Signal) (out : List Alert)
    → ChecksType rule
    → type_beq signal.type (type_of rule) ≡ false
    → evaluate_rule rule signal out ≡ (rule, out)
unfolding evaluate_rule Approval.evaluate MintBurn.evaluate Governance.evaluate
    BridgeTransfer.evaluate OracleUpdate.evaluate
evaluate_uninterested (large_transfer configs) signal out c h = absurd c
evaluate_uninterested (approval config_map) signal out c h = rw h
evaluate_uninterested (mint_burn config_map) signal out c h = rw h
evaluate_uninterested (governance config_map) signal out c h = rw h
evaluate_uninterested (bridge_transfer rule) signal out c h = rw h
evaluate_uninterested (oracle_update rule) signal out c h = rw h

-- The interest masks are right: a rule is interested in exactly one type of signal, and on signals of
-- other types a rule that tests the type, which is every rule but the large-transfer rule, changes
-- nothing and appends nothing, so the routing leaves out no alert of it.
pub interests-right :
    (rule : AnyRule) (signal : Signal) (out : List Alert)
    → (is_interested (index signal.type) rule ≡ type_beq signal.type (type_of rule))
      × (ChecksType rule
          → is_interested (index signal.type) rule ≡ false
          → evaluate_rule rule signal out ≡ (rule, out))
interests-right rule signal out = (
  interested_type rule signal.type,
  λ c h. evaluate_uninterested rule signal out c (sym (interested_type rule signal.type) ∙ h),
)
