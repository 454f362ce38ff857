-- ===== src/App/RowTests.antt =====
-- An item of the toy file as a row of the database, and an environment: instances of the theorems.
use risk_sentinel.Common.{
  ℕ, ◌≡◌, refl, true, false, Option, none, some, [], ◌∷◌, Bytes, codes, Outcome, ok, err, bind-ok,
  bytes_beq, ok_value, ◌>>=◌, ◌==◌,
}
use risk_sentinel.Backtest.Fields.{
  require_string, require_uint, require_int, required, present, converted, warn_unknown_keys,
}
use risk_sentinel.Backtest.Nodes.{
  Value, text, num, seq, mapping, nil, cons, end, member, value_yaml, value_at, word_of,
  is_null_value, is_seq, is_mapping, keys_of, items_of, text_of, int_of, bool_of,
}
use risk_sentinel.Backtest.Config.{BacktestConfig}
use risk_sentinel.Backtest.Feeds.{parse_oracle_update}
use risk_sentinel.Common.Assoc.{find, assign}
use risk_sentinel.Hex.{lacks_prefix, validate_hex, parse_hex_bytes}
use risk_sentinel.App.Rows.{PqxxRow, load, add_some}
use risk_sentinel.App.Loaders.{read_oracle_row, add_oracle_row}
use risk_sentinel.App.Agrees.{SameFields, parse_oracle_update-load}
use risk_sentinel.App.Lifecycle.{
  Environment, exception, launched, stopped, joined, health, source, engine, alerts, make, run,
}

converted-context {ℓ} :
    {A : Type ℓ} (o : Outcome A) (f c c' k : Bytes) (a : A)
    → converted o f c k ≡ ok a
    → converted o f c' k ≡ ok a
unfolding converted
converted-context (ok b) f c c' k a h = h
converted-context (err e) f c c' k a h = cc

present-context :
    (o : Option Value) (f c c' : Bytes) (v : Value) → present o f c ≡ ok v → present o f c' ≡ ok v
unfolding present
present-context none f c c' v h = cc
present-context (some w) f c c' v h = h

required-context :
    (item : Value) (f c c' : Bytes) (v : Value)
    → required item f c ≡ ok v
    → required item f c' ≡ ok v
unfolding required
required-context item f c c' v h =
    let (o, e, p) =
      bind-ok (value_yaml.subscript item f) (λ (o : Option Value). present o f c) v h in
    rw e (present-context o f c c' v p)

read-context {ℓ} :
    {A : Type ℓ} (get : Value → Outcome A) (item : Value) (f c c' k : Bytes) (a : A)
    → (required item f c >>= λ v. converted (get v) f c k) ≡ ok a
    → (required item f c' >>= λ v. converted (get v) f c' k) ≡ ok a
read-context get item f c c' k a h =
    let (v, e, p) = bind-ok (required item f c) (λ (v : Value). converted (get v) f c k) a h in
    rw (required-context item f c c' v e) (converted-context (get v) f c c' k a p)

-- The columns of a row are the members of an item.
instance abbrev item_row : PqxxRow Value
unfolding require_uint require_int require_string
item_row = record {
  as_uint64 = λ item f. require_uint item f [];
  as_int = λ item f. require_int item f [];
  as_string = λ item f. require_string item f [];
  as_bool = λ item f. err [];
}

same_item : (item : Value) → SameFields item item
unfolding require_uint require_int require_string
same_item item = record {
  same_uint = λ f ctx n h. read-context value_yaml.as_uint64 item f ctx [] _ n h;
  same_int = λ f ctx n h. read-context value_yaml.as_int item f ctx [] _ n h;
  same_string = λ f ctx s h. read-context value_yaml.as_string item f ctx [] _ s h;
}

abbrev oracle_item : Bytes → ℕ → Value
oracle_item label bps = mapping (
    member (codes "customer_id") (num 7) (
      member (codes "chain_id") (num 1) (
        member (codes "aggregator_address")
          (text (codes "0xAAAAAAAAAAAAAAAAAAAAAAAAAAAAAAAAAAAAAAAA"))
          (member (codes "feed_label") (text label) (
            member (codes "spike_threshold_bps") (num bps)
              (member (codes "decimals") (num 8) end))))))

abbrev first : Value
first = oracle_item (codes "ETH/USD") 500

abbrev second : Value
second = oracle_item (codes "ETH/USD fast") 100

abbrev no_config : BacktestConfig
no_config = record {
  chain = [];
  start_block = 0;
  end_block = 0;
  output_path = [];
  max_block_range = 0;
  customers = [];
  large_transfer_configs = [];
  governance_rules_by_contract = [];
  mint_burn_rules_by_contract = [];
  approval_rules_by_contract = [];
  bridge_configs_by_key = [];
  bridge_addresses = [];
  bridge_names = [];
  oracle_configs_by_feed = [];
}

abbrev section : Value
section = seq (cons first (cons second nil))

parsed : BacktestConfig
unfolding ok_value
parsed = ok_value no_config (parse_oracle_update (some section) no_config)

parses : parse_oracle_update (some section) no_config ≡ ok parsed
unfolding parsed parse_oracle_update value_at word_of is_null_value is_seq is_mapping keys_of
    items_of text_of int_of bool_of warn_unknown_keys bytes_beq lacks_prefix validate_hex
    parse_hex_bytes assign find require_uint
parses = refl

parse_oracle_update-load_example :
    load read_oracle_row (add_some add_oracle_row) (ok (first ∷ second ∷ [])) []
    ≡ (parsed.oracle_configs_by_feed, true)
unfolding is_null_value items_of
parse_oracle_update-load_example =
    parse_oracle_update-load section (first ∷ second ∷ []) no_config parsed refl
      (same_item first, (same_item second, tt)) parses

abbrev env : Environment
env = record {
  database_url = codes "postgres://db";
  rpc_url = codes "https://rpc";
  chain = codes "arbitrum";
  opens = λ attempt. attempt == 3;
  ensure_schema = ok tt;
  get_or_init_checkpoint = ok 100;
  metrics = none;
  rpc = none;
  source_built = none;
  dispatcher_built = none;
  engine_built = none;
  health_built = none;
  dispatcher_starts = none;
  engine_starts = none;
  source_starts = some (exception (codes "thread"));
  health_starts = ok tt;
  pushes = false ∷ true ∷ [];
}

-- The source's thread does not start: the other two are stopped and joined.
runs :
    (run env make).1.calls
    ≡ launched alerts
      ∷ launched engine
      ∷ stopped health
      ∷ stopped source
      ∷ stopped engine
      ∷ stopped alerts
      ∷ joined engine
      ∷ joined alerts
      ∷ []
unfolding run make bytes_beq
runs = refl
