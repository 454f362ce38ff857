-- ===== src/Backtest/Declared.antt =====
-- About src/backtest/backtest_config.cpp: the customers of a configuration that is loaded.
use risk_sentinel.Common.{
  ℕ, ◌≡◌, ◌↔◌, refl, ap, true, Option, List, [], ◌∷◌, ◌++◌, Bytes, codes, ◌==◌, ==_iff, Bool-cases,
  inl, inr, All, arith, Outcome, ok, bind-ok,
}
use risk_sentinel.Signal.{ChainKey}
use risk_sentinel.Common.Ensures.{Ensures, Ensures-bind}
use risk_sentinel.Rules.LargeTransfer.{LargeTransferRuleConfig}
use risk_sentinel.Rules.Approval.{ApprovalRuleConfig}
use risk_sentinel.Rules.MintBurn.{MintBurnRuleConfig}
use risk_sentinel.Rules.Governance.{GovernanceRuleConfig}
use risk_sentinel.Rules.BridgeTransfer.{BridgeRuleConfig}
use risk_sentinel.Rules.OracleUpdate.{OracleRuleConfig}
use risk_sentinel.Backtest.Yaml.{Yaml}
use risk_sentinel.Backtest.Config.{BacktestConfig, CustomerEntry}
use risk_sentinel.Backtest.Customers.{
  is_declared, check, check_each, check_map, validate_customer_ids,
}
use risk_sentinel.Backtest.Load.{load_backtest_config}
use risk_sentinel.Backtest.Checked.{AllIn}
use risk_sentinel.Backtest.Invariant.{IsChecked}
use risk_sentinel.Backtest.Safe.{load-IsChecked}

-- The customers section has an entry with this id.
pub record Declares (customers : List CustomerEntry) (customer_id : ℕ) : Type 0 where
  pub before : List CustomerEntry
  pub entry : CustomerEntry
  pub after : List CustomerEntry
  pub split : customers ≡ before ++ entry ∷ after
  pub has_id : entry.id ≡ customer_id

declared→Declares :
    (customers : List CustomerEntry) (customer_id : ℕ)
    → is_declared customers customer_id ≡ true
    → Declares customers customer_id
unfolding is_declared
declared→Declares [] customer_id h = cc
declared→Declares (c ∷ customers) customer_id h = elim (Bool-cases (c.id == customer_id)) [
  | inl e ↦ record {
    before = [];
    entry = c;
    after = customers;
    split = refl;
    has_id = (==_iff c.id customer_id).0 e;
  }
  | inr e ↦
      (let rest = declared→Declares customers customer_id (ground arith) in
        record {
          before = c ∷ rest.before;
          entry = rest.entry;
          after = rest.after;
          split = ap (λ l. c ∷ l) rest.split;
          has_id = rest.has_id;
        })
]

declared-split :
    (before : List CustomerEntry) (c : CustomerEntry) (after : List CustomerEntry) (customer_id : ℕ)
    → c.id ≡ customer_id
    → is_declared (before ++ c ∷ after) customer_id ≡ true
unfolding is_declared
declared-split [] c after customer_id e = ground arith
declared-split (b ∷ before) c after customer_id e =
    ground (arith, declared-split before c after customer_id e)

Declares→declared :
    (customers : List CustomerEntry) (customer_id : ℕ)
    → Declares customers customer_id
    → is_declared customers customer_id ≡ true
Declares→declared customers customer_id d =
    rw d.split (declared-split d.before d.entry d.after customer_id d.has_id)

check_iff :
    (customers : List CustomerEntry) (section : Bytes) (customer_id : ℕ)
    → (check customers section customer_id ≡ ok tt) ↔ (is_declared customers customer_id ≡ true)
unfolding check
check_iff customers section customer_id = ground arith

module _ {ℓ} {C : Type ℓ} (customers : List CustomerEntry) (section : Bytes) (id_of : C → ℕ) where
  check_each→ :
      (configs : List C)
      → check_each customers section id_of configs ≡ ok tt
      → All (λ c. Declares customers (id_of c)) configs
  unfolding check_each
  check_each→ [] h = tt
  check_each→ (c ∷ configs) h =
      let (u, first, rest) =
        bind-ok (check customers section (id_of c))
          (λ (_ : Unit {0}). check_each customers section id_of configs) tt h in
      (
        declared→Declares customers (id_of c) ((check_iff customers section (id_of c)).0 first),
        check_each→ configs rest,
      )

  check_each← :
      (configs : List C)
      → All (λ c. Declares customers (id_of c)) configs
      → check_each customers section id_of configs ≡ ok tt
  unfolding check_each
  check_each← [] h = refl
  check_each← (c ∷ configs) h =
      rw ((check_iff customers section (id_of c)).1 (Declares→declared customers (id_of c) h.0))
        (check_each← configs h.1)

  check_map→ :
      (map : List (ChainKey × List C))
      → check_map customers section id_of map ≡ ok tt
      → AllIn (λ _ c. Declares customers (id_of c)) map
  unfolding check_map
  check_map→ [] h = tt
  check_map→ ((key, vec) ∷ map) h =
      let (u, first, rest) =
        bind-ok (check_each customers section id_of vec)
          (λ (_ : Unit {0}). check_map customers section id_of map) tt h in
      (check_each→ vec first, check_map→ map rest)

  check_map← :
      (map : List (ChainKey × List C))
      → AllIn (λ _ c. Declares customers (id_of c)) map
      → check_map customers section id_of map ≡ ok tt
  unfolding check_map
  check_map← [] h = refl
  check_map← ((key, vec) ∷ map) h = rw (check_each← vec h.0) (check_map← map h.1)

-- Every configuration belongs to a customer of the customers section.
pub record AllDeclared (cfg : BacktestConfig) : Type 0 where
  pub large_transfer : All (λ c. Declares cfg.customers c.customer_id) cfg.large_transfer_configs
  pub governance :
      AllIn (λ _ c. Declares cfg.customers c.customer_id) cfg.governance_rules_by_contract
  pub mint_burn :
      AllIn (λ _ c. Declares cfg.customers c.customer_id) cfg.mint_burn_rules_by_contract
  pub approval : AllIn (λ _ c. Declares cfg.customers c.customer_id) cfg.approval_rules_by_contract
  pub bridge : AllIn (λ _ c. Declares cfg.customers c.customer_id) cfg.bridge_configs_by_key
  pub oracle : AllIn (λ _ c. Declares cfg.customers c.customer_id) cfg.oracle_configs_by_feed

module _ (cfg : BacktestConfig) where
  validate-Ensures : Ensures (λ _. AllDeclared cfg) (validate_customer_ids cfg)
  unfolding validate_customer_ids
  validate-Ensures =
      Ensures-bind
        (check_each cfg.customers (codes "large_transfer")
          (λ (c : LargeTransferRuleConfig). c.customer_id) cfg.large_transfer_configs)
        _
        λ _ e1.
          Ensures-bind
            (check_map cfg.customers (codes "governance")
              (λ (c : GovernanceRuleConfig). c.customer_id) cfg.governance_rules_by_contract)
            _
            λ _ e2.
              Ensures-bind
                (check_map cfg.customers (codes "mint_burn")
                  (λ (c : MintBurnRuleConfig). c.customer_id) cfg.mint_burn_rules_by_contract)
                _
                λ _ e3.
                  Ensures-bind
                    (check_map cfg.customers (codes "approval")
                      (λ (c : ApprovalRuleConfig). c.customer_id) cfg.approval_rules_by_contract)
                    _
                    λ _ e4.
                      Ensures-bind
                        (check_map cfg.customers (codes "bridge_transfer")
                          (λ (c : BridgeRuleConfig). c.customer_id) cfg.bridge_configs_by_key)
                        _
                        λ _ e5. record {
                          at = λ _ e6. record {
                            large_transfer =
                                check_each→ cfg.customers (codes "large_transfer")
                                  (λ (c : LargeTransferRuleConfig). c.customer_id)
                                  cfg.large_transfer_configs e1;
                            governance =
                                check_map→ cfg.customers (codes "governance")
                                  (λ (c : GovernanceRuleConfig). c.customer_id)
                                  cfg.governance_rules_by_contract e2;
                            mint_burn =
                                check_map→ cfg.customers (codes "mint_burn")
                                  (λ (c : MintBurnRuleConfig). c.customer_id)
                                  cfg.mint_burn_rules_by_contract e3;
                            approval =
                                check_map→ cfg.customers (codes "approval")
                                  (λ (c : ApprovalRuleConfig). c.customer_id)
                                  cfg.approval_rules_by_contract e4;
                            bridge =
                                check_map→ cfg.customers (codes "bridge_transfer")
                                  (λ (c : BridgeRuleConfig). c.customer_id)
                                  cfg.bridge_configs_by_key e5;
                            oracle =
                                check_map→ cfg.customers (codes "oracle_update")
                                  (λ (c : OracleRuleConfig). c.customer_id)
                                  cfg.oracle_configs_by_feed e6;
                          };
                        }

  -- The check of the customers passes exactly when every configuration belongs to a customer that
  -- the customers section declares.
  pub validate_customer_ids-AllDeclared : (validate_customer_ids cfg ≡ ok tt) ↔ AllDeclared cfg
  unfolding validate_customer_ids
  validate_customer_ids-AllDeclared = (
    λ h. validate-Ensures.at tt h,
    λ d.
        rw
          (
            check_each← cfg.customers (codes "large_transfer")
                (λ (c : LargeTransferRuleConfig). c.customer_id) cfg.large_transfer_configs
                d.large_transfer,
            check_map← cfg.customers (codes "governance")
                (λ (c : GovernanceRuleConfig). c.customer_id) cfg.governance_rules_by_contract
                d.governance,
            check_map← cfg.customers (codes "mint_burn") (λ (c : MintBurnRuleConfig). c.customer_id)
                cfg.mint_burn_rules_by_contract d.mint_burn,
            check_map← cfg.customers (codes "approval") (λ (c : ApprovalRuleConfig). c.customer_id)
                cfg.approval_rules_by_contract d.approval,
            check_map← cfg.customers (codes "bridge_transfer")
                (λ (c : BridgeRuleConfig). c.customer_id) cfg.bridge_configs_by_key d.bridge,
            check_map← cfg.customers (codes "oracle_update")
                (λ (c : OracleRuleConfig). c.customer_id) cfg.oracle_configs_by_feed d.oracle,
          )
          refl,
  )

module _ {Node : Type 0} ⦃yaml : Yaml Node⦄ where
  -- A configuration that `load_backtest_config` returns, whatever the file holds, has a known chain,
  -- an interval of blocks that is not empty, an output and a range that is not zero; each of its rule
  -- configurations is within its types, with addresses of twenty bytes and thresholds of 32, stands
  -- under the key by which its rule looks it up, and belongs to a declared customer.
  pub load_backtest_config-IsChecked :
      (yaml_path : Bytes) (file : Option (Outcome (Option Node))) (cfg : BacktestConfig)
      → load_backtest_config yaml_path file ≡ ok cfg
      → IsChecked cfg × AllDeclared cfg
  load_backtest_config-IsChecked yaml_path file cfg h =
      let (checked, valid) = load-IsChecked yaml_path file cfg h in
      (checked, (validate_customer_ids-AllDeclared cfg).0 valid)
