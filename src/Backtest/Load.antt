-- ===== src/Backtest/Load.antt =====
-- src/backtest/backtest_config.cpp: bridges, customers and `load_backtest_config`.
use risk_sentinel.Common.{
  ℕ, not, Option, none, some, List, [], ◌∷◌, ◌++◌, Bytes, codes, replicate, if◌then◌else◌, ◌==◌,
  length, leb, bytes_beq, ◌&&◌, Outcome, ok, err, ◌>>=◌, ◌>>◌, throw_if,
}
use risk_sentinel.Common.Assoc.{assign}
use risk_sentinel.Common.Digits.{to_string}
use risk_sentinel.Hex.{parse_hex_bytes}
use risk_sentinel.Signal.{ChainKey, key_eq, key_beq}
use risk_sentinel.Backtest.Yaml.{Yaml}
use risk_sentinel.Backtest.Fields.{warn_unknown_keys, require_string, require_uint}
use risk_sentinel.Backtest.Config.{
  BacktestConfig, CustomerEntry, parse_section, read_address, optional,
}
use risk_sentinel.Backtest.Sections.{parse_large_transfer, parse_governance, parse_mint_burn}
use risk_sentinel.Backtest.Feeds.{parse_approval, parse_bridge_transfers, parse_oracle_update}
use risk_sentinel.Backtest.Customers.{validate_customer_ids}

-- `std::unordered_set::insert`
unfoldable pub insert : ChainKey → List ChainKey → List ChainKey
insert key [] = key ∷ []
insert key (k ∷ keys) = if key_beq k key then k ∷ keys else k ∷ insert key keys

unfoldable pub add_bridge_contracts : ChainKey × Bytes → BacktestConfig → BacktestConfig
unfolding insert
add_bridge_contracts c cfg = record cfg {
  bridge_addresses = insert c.0 cfg.bridge_addresses;
  bridge_names = assign c.0 c.1 cfg.bridge_names;
}

unfoldable pub add_customers : CustomerEntry → BacktestConfig → BacktestConfig
add_customers e cfg = record cfg { customers = cfg.customers ++ e ∷ [] }

module _ {Node : Type 0} ⦃yaml : Yaml Node⦄ where
  unfoldable pub read_bridge_contract : Bytes → Node → Outcome (ChainKey × Bytes)
  unfolding read_address require_string
  read_bridge_contract ctx item = do
    _ ← warn_unknown_keys item (codes "chain_id" ∷ codes "address" ∷ codes "bridge_name" ∷ [])
    chain_id ← require_uint item (codes "chain_id") ctx
    addr_str ← read_address item (codes "address") ctx
    name ← require_string item (codes "bridge_name") ctx
    addr_bytes ← parse_hex_bytes addr_str (replicate 20 0)
    ok (record { chain_id = chain_id; address = addr_bytes }, name)

  -- `bridge_names[key] = name`: the last name of a bridge stays.
  unfoldable pub parse_bridge_contracts : Option Node → BacktestConfig → Outcome BacktestConfig
  unfolding parse_section read_bridge_contract add_bridge_contracts
  parse_bridge_contracts =
      parse_section (codes "bridge_contracts") read_bridge_contract add_bridge_contracts

  unfoldable pub read_customer : Bytes → Node → Outcome CustomerEntry
  unfolding require_string require_uint optional
  read_customer ctx item = do
    _ ← warn_unknown_keys item (codes "id" ∷ codes "key" ∷ codes "display_name" ∷ [])
    id ← require_uint item (codes "id") ctx
    key ← require_string item (codes "key") ctx
    name ← yaml.subscript item (codes "display_name")
    display_name ← optional yaml.as_string (codes "") name
    ok (record { id = id; key = key; display_name = display_name })

  unfoldable pub parse_customers : Option Node → BacktestConfig → Outcome BacktestConfig
  unfolding parse_section read_customer add_customers
  parse_customers = parse_section (codes "customers") read_customer add_customers

  -- `root["max_block_range"]`, which stays 1000 if it is absent
  unfoldable pub read_range : Option Node → Outcome ℕ
  read_range none = ok 1000
  read_range (some value) = do
    range ← yaml.as_uint64 value
    throw_if (range == 0) (codes "backtest config: max_block_range must be > 0")
    ok range

  unfoldable pub parse_rules : Node → BacktestConfig → Outcome BacktestConfig
  unfolding parse_large_transfer parse_governance parse_mint_burn parse_approval
      parse_bridge_transfers parse_oracle_update
  parse_rules rules cfg = do
    throw_if (not (yaml.is_map rules)) (codes "backtest config: rules must be a map")
    _ ← warn_unknown_keys rules (
        codes "large_transfer"
        ∷ codes "governance"
        ∷ codes "mint_burn"
        ∷ codes "approval"
        ∷ codes "bridge_transfers"
        ∷ codes "oracle_update"
        ∷ [])
    large_transfer ← yaml.subscript rules (codes "large_transfer")
    cfg1 ← parse_large_transfer large_transfer cfg
    governance ← yaml.subscript rules (codes "governance")
    cfg2 ← parse_governance governance cfg1
    mint_burn ← yaml.subscript rules (codes "mint_burn")
    cfg3 ← parse_mint_burn mint_burn cfg2
    approval ← yaml.subscript rules (codes "approval")
    cfg4 ← parse_approval approval cfg3
    bridge_transfers ← yaml.subscript rules (codes "bridge_transfers")
    cfg5 ← parse_bridge_transfers bridge_transfers cfg4
    oracle_update ← yaml.subscript rules (codes "oracle_update")
    parse_oracle_update oracle_update cfg5

  -- `if (rules && !rules.IsNull())`
  unfoldable pub rules_if_any : Option Node → BacktestConfig → Outcome BacktestConfig
  unfolding parse_rules
  rules_if_any none cfg = ok cfg
  rules_if_any (some rules) cfg = if yaml.is_null rules then ok cfg else parse_rules rules cfg

  -- The members before the sections, the sections empty.
  unfoldable pub read_head : Node → Outcome BacktestConfig
  unfolding require_string require_uint read_range
  read_head root = do
    chain ← require_string root (codes "chain") (codes "<root>")
    throw_if (not (bytes_beq chain (codes "ethereum")) && not (bytes_beq chain (codes "arbitrum")))
        (codes "backtest config: chain must be 'ethereum' or 'arbitrum', got '"
          ++ (chain ++ codes "'"))
    start_block ← require_uint root (codes "start_block") (codes "<root>")
    end_block ← require_uint root (codes "end_block") (codes "<root>")
    throw_if (leb end_block start_block) (
        codes "backtest config: start_block ("
        ++ (to_string start_block
            ++ (codes ") must be < end_block (" ++ (to_string end_block ++ codes ")"))))
    output_path ← require_string root (codes "output_path") (codes "<root>")
    throw_if (length output_path == 0) (codes "backtest config: output_path must not be empty")
    given ← yaml.subscript root (codes "max_block_range")
    max_block_range ← read_range given
    ok (record {
      chain = chain;
      start_block = start_block;
      end_block = end_block;
      output_path = output_path;
      max_block_range = max_block_range;
      customers = [];
      large_transfer_configs = [];
      governance_rules_by_contract = [];
      mint_burn_rules_by_contract = [];
      approval_rules_by_contract = [];
      bridge_configs_by_key = [];
      bridge_addresses = [];
      bridge_names = [];
      oracle_configs_by_feed = [];
    })

  unfoldable pub load_root : Node → Outcome BacktestConfig
  unfolding read_head parse_customers rules_if_any parse_bridge_contracts validate_customer_ids
  load_root root = do
    _ ← warn_unknown_keys root (
        codes "chain"
        ∷ codes "start_block"
        ∷ codes "end_block"
        ∷ codes "output_path"
        ∷ codes "max_block_range"
        ∷ codes "customers"
        ∷ codes "rules"
        ∷ codes "bridge_contracts"
        ∷ [])
    cfg ← read_head root
    customers ← yaml.subscript root (codes "customers")
    cfg1 ← parse_customers customers cfg
    rules ← yaml.subscript root (codes "rules")
    cfg2 ← rules_if_any rules cfg1
    bridges ← yaml.subscript root (codes "bridge_contracts")
    cfg3 ← parse_bridge_contracts bridges cfg2
    validate_customer_ids cfg3
    ok cfg3

  -- `if (!root || !root.IsMap())`
  unfoldable pub load_parsed : Bytes → Outcome (Option Node) → Outcome BacktestConfig
  unfolding load_root
  load_parsed yaml_path (err what) =
      err (codes "backtest config: YAML parse error in '" ++ (yaml_path ++ (codes "': " ++ what)))
  load_parsed yaml_path (ok none) =
      err (codes "backtest config: top-level YAML must be a map in '" ++ (yaml_path ++ codes "'"))
  load_parsed yaml_path (ok (some root)) = do
    throw_if (not (yaml.is_map root))
        (codes "backtest config: top-level YAML must be a map in '" ++ (yaml_path ++ codes "'"))
    load_root root

  -- The file: `none` if it cannot be opened, else what `YAML::Load` makes of it.
  unfoldable pub load_backtest_config :
      Bytes → Option (Outcome (Option Node)) → Outcome BacktestConfig
  unfolding load_parsed
  load_backtest_config yaml_path none =
      err (codes "backtest config: cannot open '" ++ (yaml_path ++ codes "'"))
  load_backtest_config yaml_path (some parsed) = load_parsed yaml_path parsed
