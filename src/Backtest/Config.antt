-- ===== src/Backtest/Config.antt =====
-- src/backtest/backtest_config.cpp: the sections of a backtest's configuration. Where an exception
-- leaves the parse, the configuration that was being built is lost.
use risk_sentinel.Common.{
  ℕ, ◌+◌, not, Option, none, some, List, [], ◌∷◌, ◌++◌, Bytes, codes, if◌then◌else◌, Outcome, ok,
  err, ◌>>=◌, ◌>>◌,
}
use risk_sentinel.Common.Lower.{lower}
use risk_sentinel.Common.Assoc.{find, assign}
use risk_sentinel.Common.Digits.{to_string}
use risk_sentinel.Hex.{decimal_to_be_256}
use risk_sentinel.Signal.{ChainKey, key_eq}
use risk_sentinel.Rules.{bucket}
use risk_sentinel.Rules.LargeTransfer.{LargeTransferRuleConfig}
use risk_sentinel.Rules.Approval.{ApprovalRuleConfig}
use risk_sentinel.Rules.MintBurn.{MintBurnRuleConfig}
use risk_sentinel.Rules.Governance.{GovernanceRuleConfig}
use risk_sentinel.Rules.BridgeTransfer.{BridgeRuleConfig}
use risk_sentinel.Rules.OracleUpdate.{OracleRuleConfig}
use risk_sentinel.Backtest.Yaml.{Yaml}
use risk_sentinel.Backtest.Fields.{validate_hex_address, require_string}

pub record CustomerEntry : Type 0 where
  pub id : ℕ
  pub key : Bytes
  pub display_name : Bytes

pub record BacktestConfig : Type 0 where
  pub chain : Bytes
  pub start_block : ℕ
  pub end_block : ℕ
  pub output_path : Bytes
  pub max_block_range : ℕ
  pub customers : List CustomerEntry
  pub large_transfer_configs : List LargeTransferRuleConfig
  pub governance_rules_by_contract : List (ChainKey × List GovernanceRuleConfig)
  pub mint_burn_rules_by_contract : List (ChainKey × List MintBurnRuleConfig)
  pub approval_rules_by_contract : List (ChainKey × List ApprovalRuleConfig)
  pub bridge_configs_by_key : List (ChainKey × List BridgeRuleConfig)
  pub bridge_addresses : List ChainKey
  pub bridge_names : List (ChainKey × Bytes)
  pub oracle_configs_by_feed : List (ChainKey × List OracleRuleConfig)

-- `map[key].push_back(c)`: a missing key gets an empty bucket first.
unfoldable pub push_back {ℓ} :
    {C : Type ℓ} → ChainKey → C → List (ChainKey × List C) → List (ChainKey × List C)
push_back key c map = assign key (bucket (find key map) ++ c ∷ []) map

-- `rules.<section>[<idx>]`
unfoldable pub item_context : Bytes → ℕ → Bytes
item_context section idx = section ++ (b'[' ∷ (to_string idx ++ b']' ∷ []))

module _ {ℓ} {Node : Type 0} ⦃yaml : Yaml Node⦄ {C : Type ℓ} where
  -- The loop over the items of a section, from the index `idx` on: each is read in its context, and
  -- what it says is added.
  unfoldable pub each_item :
      Bytes
      → (Bytes → Node → Outcome C)
      → (C → BacktestConfig → BacktestConfig)
      → ℕ
      → List Node
      → BacktestConfig
      → Outcome BacktestConfig
  unfolding item_context
  each_item section read add idx [] cfg = ok cfg
  each_item section read add idx (item ∷ items) cfg = do
    c ← read (item_context section idx) item
    each_item section read add (idx + 1) items (add c cfg)

  -- A section that is absent or null has no items; another that is no sequence is refused.
  unfoldable pub parse_section :
      Bytes
      → (Bytes → Node → Outcome C)
      → (C → BacktestConfig → BacktestConfig)
      → Option Node
      → BacktestConfig
      → Outcome BacktestConfig
  unfolding each_item
  parse_section section read add none cfg = ok cfg
  parse_section section read add (some node) cfg =
      if yaml.is_null node
      then ok cfg
      else if not (yaml.is_sequence node)
      then err (codes "backtest config: " ++ (section ++ codes " must be a sequence"))
      else each_item section read add 0 (yaml.items node) cfg

module _ {Node : Type 0} ⦃yaml : Yaml Node⦄ where
  -- An address in lower case, of the right form.
  unfoldable pub read_address : Node → Bytes → Bytes → Outcome Bytes
  unfolding require_string validate_hex_address lower
  read_address item field ctx = do
    text ← require_string item field ctx
    validate_hex_address (lower text) ctx
    ok (lower text)

  unfoldable pub read_threshold : Node → Bytes → Bytes → Outcome Bytes
  unfolding require_string
  read_threshold item field ctx = do text ← require_string item field ctx; decimal_to_be_256 text

  -- A member of an item that may be absent.
  unfoldable pub optional {ℓ} : {A : Type ℓ} → (Node → Outcome A) → A → Option Node → Outcome A
  optional convert otherwise none = ok otherwise
  optional convert otherwise (some value) = convert value
