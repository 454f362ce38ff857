-- ===== src/App/Agrees.antt =====
-- About src/app/app.cpp and src/backtest/backtest_config.cpp: the application and a backtest that have the
-- same oracle rules, from the database and from the file, load the same configurations.
use risk_sentinel.Common.{
  ℕ, ◌+◌, ◌≡◌, refl, ap, ◌∙◌, true, false, not, ◌||◌, some, List, [], ◌∷◌, Bytes, codes, replicate,
  ok, ok-injective, bind-ok, if-both,
}
use risk_sentinel.Common.Int.{ℤ, at_most, is_below_zero}
use risk_sentinel.Common.Lower.{lower}
use risk_sentinel.Common.Ensures.{Ensures, Ensures-ok, Ensures-bind, Ensures-throw_if, Ensures-err}
use risk_sentinel.Hex.{parse_hex_bytes}
use risk_sentinel.Rules.OracleUpdate.{OracleRuleConfig}
use risk_sentinel.Backtest.Yaml.{Yaml}
use risk_sentinel.Backtest.Fields.{
  warn_unknown_keys, require_string, require_uint, require_int, validate_hex_address,
}
use risk_sentinel.Backtest.Config.{
  BacktestConfig, item_context, each_item, parse_section, read_address,
}
use risk_sentinel.Backtest.Feeds.{read_oracle, add_oracle_update, parse_oracle_update}
use risk_sentinel.App.Rows.{PqxxRow, each_row, each_row-ok, load, add_some, skipped}
use risk_sentinel.App.Loaders.{read_oracle_row, add_oracle_row}

module _ {Node R : Type 0} ⦃yaml : Yaml Node⦄ ⦃row_of : PqxxRow R⦄ where
  -- Each member of an item that a backtest reads is a column of the row.
  pub record SameFields (item : Node) (row : R) : Type 0 where
    pub same_uint :
        (f ctx : Bytes) (n : ℕ) → require_uint item f ctx ≡ ok n → row_of.as_uint64 row f ≡ ok n
    pub same_int :
        (f ctx : Bytes) (n : ℤ) → require_int item f ctx ≡ ok n → row_of.as_int row f ≡ ok n
    pub same_string :
        (f ctx : Bytes) (s : Bytes)
        → require_string item f ctx ≡ ok s
        → row_of.as_string row f ≡ ok s

  read_address-Ensures :
      (item : Node) (row : R) (f ctx : Bytes)
      → SameFields item row
      → Ensures
          (λ a. (s : Bytes) × (row_of.as_string row f ≡ ok s) × (lower s ≡ a))
          (read_address item f ctx)
  unfolding read_address
  read_address-Ensures item row f ctx same = Ensures-bind (require_string item f ctx) _ λ s e.
      Ensures-bind (validate_hex_address (lower s) ctx) _
        λ _ _. Ensures-ok _ (s, same.same_string f ctx s e, refl)

  read_oracle-Ensures :
      (item : Node) (row : R) (ctx : Bytes)
      → SameFields item row
      → Ensures (λ c. read_oracle_row row ≡ ok (some c)) (read_oracle ctx item)
  unfolding read_oracle read_oracle_row skipped
  read_oracle-Ensures item row ctx same = Ensures-bind (warn_unknown_keys item _) _ λ _ _.
      Ensures-bind (require_uint item (codes "customer_id") ctx) _ λ id e1.
        Ensures-bind (require_uint item (codes "chain_id") ctx) _ λ chain e2.
          Ensures-bind (read_address item (codes "aggregator_address") ctx) _ λ addr e3.
            Ensures-bind (parse_hex_bytes addr (replicate 20 0)) _ λ bytes e4.
              Ensures-bind (require_string item (codes "feed_label") ctx) _ λ label e5.
                Ensures-bind (require_int item (codes "spike_threshold_bps") ctx) _ λ bps e6.
                  Ensures-throw_if (at_most bps 0 || not (at_most bps 100000)) _ _ λ in_range.
                    Ensures-bind (require_int item (codes "decimals") ctx) _ λ dec e7.
                      Ensures-throw_if (is_below_zero dec || not (at_most dec 255)) _ _ λ small.
                        let (text, is_text, lowered) =
                          (read_address-Ensures item row (codes "aggregator_address") ctx same).at
                            addr e3 in
                        let parsed : parse_hex_bytes (lower text) (replicate 20 0) ≡ ok bytes =
                          ap (λ (a : Bytes). parse_hex_bytes a (replicate 20 0)) lowered ∙ e4 in
                        Ensures-ok _ (
                          rw
                            (
                              same.same_uint _ ctx id e1,
                              same.same_uint _ ctx chain e2,
                              is_text,
                              same.same_string _ ctx label e5,
                              same.same_int _ ctx bps e6,
                              same.same_int _ ctx dec e7,
                              in_range,
                              small,
                              parsed,
                            )
                            refl)

  -- One row for each item, in order.
  abbrev pub SameItems : List Node → List R → Type 0
  SameItems [] [] = Unit {0}
  SameItems (item ∷ items) (row ∷ rows) = SameFields item row × SameItems items rows
  SameItems _ _ = ⊥

  each_item-each_row :
      (section : Bytes) (idx : ℕ) (items : List Node) (rows : List R) (cfg cfg' : BacktestConfig)
      → SameItems items rows
      → each_item section read_oracle add_oracle_update idx items cfg ≡ ok cfg'
      → each_row read_oracle_row (add_some add_oracle_row) rows cfg.oracle_configs_by_feed
        ≡ (cfg'.oracle_configs_by_feed, true)
  unfolding each_item each_row add_some add_oracle_update add_oracle_row
  each_item-each_row section idx [] [] cfg cfg' same h =
      ap (λ (c : BacktestConfig). (c.oracle_configs_by_feed, true)) (ok-injective cfg cfg' h)
  each_item-each_row section idx [] (row ∷ rows) cfg cfg' same h = absurd same
  each_item-each_row section idx (item ∷ items) [] cfg cfg' same h = absurd same
  each_item-each_row section idx (item ∷ items) (row ∷ rows) cfg cfg' (same, sames) h =
      let ctx = item_context section idx in
      let (c, e, rest) =
        bind-ok (read_oracle ctx item)
          (λ (c : OracleRuleConfig).
            each_item section read_oracle add_oracle_update (idx + 1) items
              (add_oracle_update c cfg))
          cfg' h in
      let read = (read_oracle-Ensures item row ctx same).at c e in
      each_row-ok read_oracle_row (add_some add_oracle_row) row rows cfg.oracle_configs_by_feed
        (some c) read
      ∙ (each_item-each_row section (idx + 1) items rows (add_oracle_update c cfg) cfg' sames rest)

  section_lem :
      (node : Node) (rows : List R) (cfg : BacktestConfig)
      → yaml.is_null node ≡ false
      → SameItems (yaml.items node) rows
      → Ensures
          (λ cfg'.
            load read_oracle_row (add_some add_oracle_row) (ok rows) cfg.oracle_configs_by_feed
            ≡ (cfg'.oracle_configs_by_feed, true))
          (parse_oracle_update (some node) cfg)
  unfolding parse_oracle_update parse_section load
  section_lem node rows cfg present same =
      if-both (Ensures _) (yaml.is_null node) _ _ (λ null. absurd (cc))
        λ _.
          if-both (Ensures _) (not (yaml.is_sequence node)) _ _ (λ _. Ensures-err _)
            λ _. record {
              at = λ cfg' h.
                  each_item-each_row (codes "rules.oracle_update") 0 (yaml.items node) rows cfg cfg'
                    same h;
            }

  -- If a backtest accepts the oracle rules of its file, and the rows of the database have the same
  -- members as the items of the file, `load_oracle_configs_` reads all rows and adds to the map the
  -- configurations that the backtest adds to its own, in the same buckets and order.
  pub parse_oracle_update-load :
      (node : Node) (rows : List R) (cfg cfg' : BacktestConfig)
      → yaml.is_null node ≡ false
      → SameItems (yaml.items node) rows
      → parse_oracle_update (some node) cfg ≡ ok cfg'
      → load read_oracle_row (add_some add_oracle_row) (ok rows) cfg.oracle_configs_by_feed
        ≡ (cfg'.oracle_configs_by_feed, true)
  parse_oracle_update-load node rows cfg cfg' present same h =
      (section_lem node rows cfg present same).at cfg' h
