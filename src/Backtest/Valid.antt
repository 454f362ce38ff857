-- ===== src/Backtest/Valid.antt =====
-- About src/backtest/backtest_config.cpp: what holds of the configuration of each item that is read.
use risk_sentinel.Common.{
  ℕ, ◌^◌, ◌<◌, ◌≤◌, ◌≡◌, refl, sym, ap, true, false, not, ◌||◌, none, Bytes, codes, List, replicate,
  IsArray, arith, Outcome, ok, err, ◌>>=◌, bind-ok,
}
use risk_sentinel.Common.Ensures.{Ensures, Ensures-ok, Ensures-bind, Ensures-throw_if}
use risk_sentinel.Common.Int.{ℤ, pos, negsuc, at_most, is_below_zero, to_unsigned}
use risk_sentinel.Hex.{parse_hex_bytes, decimal_to_be_256}
use risk_sentinel.Signal.{ChainKey}
use risk_sentinel.Rules.{address_to_hex}
use risk_sentinel.Rules.LargeTransfer.{LargeTransferRuleConfig}
use risk_sentinel.Rules.Approval.{ApprovalRuleConfig}
use risk_sentinel.Rules.MintBurn.{MintBurnRuleConfig}
use risk_sentinel.Rules.Governance.{GovernanceRuleConfig}
use risk_sentinel.Rules.BridgeTransfer.{BridgeRuleConfig}
use risk_sentinel.Rules.OracleUpdate.{OracleRuleConfig}
use risk_sentinel.Backtest.Yaml.{Yaml}
use risk_sentinel.Backtest.Fields.{
  warn_unknown_keys, require_uint, require_string, require_int, required, converted,
}
use risk_sentinel.Backtest.Config.{read_address, read_threshold, optional}
use risk_sentinel.Backtest.Sections.{read_large_transfer, read_governance, read_mint_burn}
use risk_sentinel.Backtest.Feeds.{read_approval, read_bridge, read_oracle}
use risk_sentinel.Backtest.Checked.{
  Names, read_address-Names, parsed-Names, read_threshold-IsArray, threshold-IsArray,
}

abbrev pub FitsWord : ℕ → Type 0
FitsWord n = n < 2 ^ 64

abbrev pub LargeTransferOk : LargeTransferRuleConfig → Type 0
LargeTransferOk c =
    FitsWord c.customer_id
    × FitsWord c.chain_id
    × IsArray 20 c.token_address
    × IsArray 32 c.threshold_be

-- The key is the chain and the text of an address of twenty bytes.
abbrev pub GovernanceOk : ChainKey → GovernanceRuleConfig → Type 0
GovernanceOk key c =
    FitsWord c.customer_id
    × (key ≡ record { chain_id = c.chain_id; address = c.contract_address })
    × ((a : Bytes) × Names c.contract_address a)
    × (c.enabled ≡ true)
    × (c.action_filter ≡ none)

abbrev pub MintBurnOk : ChainKey → MintBurnRuleConfig → Type 0
MintBurnOk key c =
    FitsWord c.customer_id
    × (key ≡ record { chain_id = c.chain_id; address = c.contract_address })
    × ((a : Bytes) × Names c.contract_address a)
    × IsArray 32 c.mint_threshold_be
    × IsArray 32 c.burn_threshold_be
    × (c.enabled ≡ true)

-- The key holds the text as which the approval rule prints the token of a log.
abbrev pub ApprovalOk : ChainKey → ApprovalRuleConfig → Type 0
ApprovalOk key c =
    FitsWord c.customer_id
    × (key ≡ record { chain_id = c.chain_id; address = address_to_hex c.token_address })
    × IsArray 20 c.token_address
    × IsArray 32 c.threshold_be
    × (c.enabled ≡ true)

abbrev pub BridgeOk : ChainKey → BridgeRuleConfig → Type 0
BridgeOk key c =
    FitsWord c.customer_id
    × (key ≡ record { chain_id = c.chain_id; address = c.token_address })
    × IsArray 20 c.token_address
    × IsArray 32 c.threshold_be
    × (c.enabled ≡ true)

abbrev pub OracleOk : ChainKey → OracleRuleConfig → Type 0
OracleOk key c =
    FitsWord c.customer_id
    × (key ≡ record { chain_id = c.chain_id; address = c.aggregator_address })
    × IsArray 20 c.aggregator_address
    × (0 < c.spike_threshold_bps)
    × (c.spike_threshold_bps ≤ 100000)
    × (c.decimals ≤ 255)
    × (c.enabled ≡ true)

bps_range :
    (bps : ℤ)
    → (at_most bps 0 || not (at_most bps 100000)) ≡ false
    → (0 < to_unsigned 32 bps) × (to_unsigned 32 bps ≤ 100000)
bps_range (pos n) h = ground arith
bps_range (negsuc n) h = cc

decimals_range :
    (dec : ℤ) → (is_below_zero dec || not (at_most dec 255)) ≡ false → to_unsigned 8 dec ≤ 255
decimals_range (pos n) h = ground arith
decimals_range (negsuc n) h = cc

converted_lem {ℓ} :
    {A : Type ℓ} (r : Outcome A) (field ctx type : Bytes) (a : A)
    → converted r field ctx type ≡ ok a
    → r ≡ ok a
unfolding converted
converted_lem (ok b) field ctx type a h = h
converted_lem (err e) field ctx type a h = cc

module _ {Node : Type 0} ⦃yaml : Yaml Node⦄ where
  pub require_uint-FitsWord :
      (item : Node) (field ctx : Bytes) (n : ℕ) → require_uint item field ctx ≡ ok n → FitsWord n
  unfolding require_uint
  require_uint-FitsWord item field ctx n h =
      let (value, _, h1) =
        bind-ok (required item field ctx)
          (λ (v : Node). converted (yaml.as_uint64 v) field ctx (codes "an unsigned integer")) n
          h in
      yaml.as_uint64-fits value n
        (converted_lem (yaml.as_uint64 value) field ctx (codes "an unsigned integer") n h1)

  after_owner {ℓ} :
      {B : Type ℓ} {P : B → Type 0} (item : Node) (known : List Bytes) (ctx : Bytes)
      (f : ℕ → ℕ → Outcome B)
      → ((customer_id chain_id : ℕ)
          → FitsWord customer_id
          → FitsWord chain_id
          → Ensures P (f customer_id chain_id))
      → Ensures P (do
        _ ← warn_unknown_keys item known
        customer_id ← require_uint item (codes "customer_id") ctx
        chain_id ← require_uint item (codes "chain_id") ctx
        f customer_id chain_id)
  after_owner item known ctx f h = Ensures-bind (warn_unknown_keys item known) _ λ _ _.
      Ensures-bind (require_uint item (codes "customer_id") ctx) _ λ customer_id e1.
        Ensures-bind (require_uint item (codes "chain_id") ctx) _ λ chain_id e2.
          h customer_id chain_id
            (require_uint-FitsWord item (codes "customer_id") ctx customer_id e1)
            (require_uint-FitsWord item (codes "chain_id") ctx chain_id e2)

  after_address {ℓ} :
      {B : Type ℓ} {P : B → Type 0} (item : Node) (field ctx : Bytes)
      (f : Bytes → Bytes → Outcome B)
      → ((token bytes : Bytes) → Names token bytes → Ensures P (f token bytes))
      → Ensures P (do
        token ← read_address item field ctx
        bytes ← parse_hex_bytes token (replicate 20 0)
        f token bytes)
  after_address item field ctx f h = Ensures-bind (read_address item field ctx) _ λ token e1.
      Ensures-bind (parse_hex_bytes token (replicate 20 0)) _
        λ bytes e2. h token bytes (parsed-Names item field ctx token bytes e1 e2)

  after_threshold {ℓ} :
      {B : Type ℓ} {P : B → Type 0} (item : Node) (ctx : Bytes) (f : Bytes → Outcome B)
      → ((threshold : Bytes) → IsArray 32 threshold → Ensures P (f threshold))
      → Ensures P (do threshold ← read_threshold item (codes "threshold_decimal") ctx; f threshold)
  after_threshold item ctx f h =
      Ensures-bind (read_threshold item (codes "threshold_decimal") ctx) _ λ threshold e.
        h threshold (read_threshold-IsArray item (codes "threshold_decimal") ctx threshold e)

  pub read_large_transfer-Ensures :
      (ctx : Bytes) (item : Node) → Ensures LargeTransferOk (read_large_transfer ctx item)
  unfolding read_large_transfer
  read_large_transfer-Ensures ctx item =
      after_owner item _ ctx _ λ customer_id chain_id fits fits_too.
        after_address item (codes "token_address") ctx _ λ token bytes names.
          after_threshold item ctx _
            λ threshold array. Ensures-ok _ (fits, fits_too, names.0, array)

  pub read_governance-Ensures :
      (ctx : Bytes) (item : Node)
      → Ensures
          (λ c. GovernanceOk (record { chain_id = c.chain_id; address = c.contract_address }) c)
          (read_governance ctx item)
  unfolding read_governance
  read_governance-Ensures ctx item = after_owner item _ ctx _ λ customer_id chain_id fits _.
      Ensures-bind (read_address item (codes "contract_address") ctx) _ λ address e.
        Ensures-ok _
          (fits, refl, read_address-Names item (codes "contract_address") ctx address e, refl, refl)

  pub read_mint_burn-Ensures :
      (ctx : Bytes) (item : Node)
      → Ensures
          (λ c. MintBurnOk (record { chain_id = c.chain_id; address = c.contract_address }) c)
          (read_mint_burn ctx item)
  unfolding read_mint_burn
  read_mint_burn-Ensures ctx item = after_owner item _ ctx _ λ customer_id chain_id fits _.
      Ensures-bind (read_address item (codes "contract_address") ctx) _ λ address e.
        Ensures-bind (require_string item (codes "mint_threshold_decimal") ctx) _ λ mint_thr _.
          Ensures-bind (require_string item (codes "burn_threshold_decimal") ctx) _ λ burn_thr _.
            Ensures-bind (decimal_to_be_256 mint_thr) _ λ mint e4.
              Ensures-bind (decimal_to_be_256 burn_thr) _ λ burn e5. Ensures-ok _ (
                fits,
                refl,
                read_address-Names item (codes "contract_address") ctx address e,
                threshold-IsArray mint_thr mint e4,
                threshold-IsArray burn_thr burn e5,
                refl,
              )

  pub read_approval-Ensures :
      (ctx : Bytes) (item : Node)
      → Ensures
          (λ c. ApprovalOk (record { chain_id = c.1.chain_id; address = c.0 }) c.1)
          (read_approval ctx item)
  unfolding read_approval
  read_approval-Ensures ctx item = after_owner item _ ctx _ λ customer_id chain_id fits _.
      after_address item (codes "token_address") ctx _ λ token bytes names.
        after_threshold item ctx _ λ threshold array.
          Ensures-bind (yaml.subscript item (codes "alert_on_infinite")) _ λ infinite _.
            Ensures-bind (optional yaml.as_bool false infinite) _ λ on_infinite _. Ensures-ok _ (
              fits,
              ap (λ (a : Bytes). record { chain_id = chain_id; address = a }) (sym names.2),
              names.0,
              array,
              refl,
            )

  pub read_bridge-Ensures :
      (ctx : Bytes) (item : Node)
      → Ensures
          (λ c. BridgeOk (record { chain_id = c.chain_id; address = c.token_address }) c)
          (read_bridge ctx item)
  unfolding read_bridge
  read_bridge-Ensures ctx item = after_owner item _ ctx _ λ customer_id chain_id fits _.
      after_address item (codes "token_address") ctx _ λ token bytes names.
        after_threshold item ctx _
          λ threshold array. Ensures-ok _ (fits, refl, names.0, array, refl)

  pub read_oracle-Ensures :
      (ctx : Bytes) (item : Node)
      → Ensures
          (λ c. OracleOk (record { chain_id = c.chain_id; address = c.aggregator_address }) c)
          (read_oracle ctx item)
  unfolding read_oracle
  read_oracle-Ensures ctx item = after_owner item _ ctx _ λ customer_id chain_id fits _.
      after_address item (codes "aggregator_address") ctx _ λ addr bytes names.
        Ensures-bind (require_string item (codes "feed_label") ctx) _ λ label _.
          Ensures-bind (require_int item (codes "spike_threshold_bps") ctx) _ λ bps _.
            Ensures-throw_if (at_most bps 0 || not (at_most bps 100000)) _ _ λ in_range.
              Ensures-bind (require_int item (codes "decimals") ctx) _ λ dec _.
                Ensures-throw_if (is_below_zero dec || not (at_most dec 255)) _ _ λ small.
                  let (low, high) = bps_range bps in_range in
                  Ensures-ok _ (fits, refl, names.0, low, high, decimals_range dec small, refl)
