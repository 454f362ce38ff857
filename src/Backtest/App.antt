-- ===== src/Backtest/App.antt =====
-- src/backtest/backtest_app.cpp: `BacktestApp`, the parts that it builds and how it ends them.
use risk_sentinel.Common.{
  Bool, true, false, ◌||◌, none, List, [], ◌∷◌, ◌++◌, Bytes, codes, if◌then◌else◌, bytes_beq,
  Outcome, ok, err,
}
use risk_sentinel.Signal.{Signal, SignalType, Command, control_signal}
use risk_sentinel.Dedup.{DeduplicatorConfig}
use risk_sentinel.EventSource.{EventSourceConfig}
use risk_sentinel.Engine
use risk_sentinel.Engine.{RiskEngine, Turn, front, empty, register_rule}
use risk_sentinel.Engine.AnyRule.{AnyRule, any_rule}
use risk_sentinel.Dispatcher.{AlertDispatcher, started}
use risk_sentinel.Backtest.Config.{BacktestConfig}

-- `!map.empty()`
unfoldable pub holds {ℓ} : {A : Type ℓ} → List A → Bool
holds [] = false
holds (x ∷ xs) = true

-- `if (...) vector.push_back(x);`
unfoldable pub push_if {ℓ} : {A : Type ℓ} → Bool → A → List A → List A
push_if true x xs = xs ++ x ∷ []
push_if false x xs = xs

unfoldable pub supported : Bytes → Outcome (Unit {0})
supported chain =
    if bytes_beq chain (codes "ethereum") || bytes_beq chain (codes "arbitrum")
    then ok tt
    else err (codes "BacktestApp: unsupported chain '" ++ (chain ++ codes "'"))

-- The members that are not set keep their defaults; the least range is 1.
unfoldable pub es_cfg : BacktestConfig → EventSourceConfig
es_cfg cfg = record {
  start_block = cfg.start_block;
  max_block_range = cfg.max_block_range;
  min_block_range = 1;
  backtest_end_block = cfg.end_block;
}

unfoldable pub active_rule_types : BacktestConfig → List Bytes
unfolding holds push_if
active_rule_types cfg = push_if (holds cfg.oracle_configs_by_feed) (codes "oracle_update") (
    push_if (holds cfg.bridge_configs_by_key) (codes "bridge_transfer") (
      push_if (holds cfg.approval_rules_by_contract) (codes "approval") (
        push_if (holds cfg.mint_burn_rules_by_contract) (codes "mint_burn") (
          push_if (holds cfg.governance_rules_by_contract) (codes "governance")
            (push_if (holds cfg.large_transfer_configs) (codes "large_transfer") [])))))

-- The windows by rule, in milliseconds; the application uses the same.
unfoldable pub dedup_cfg : DeduplicatorConfig
dedup_cfg = record {
  default_window_ms = 60000;
  per_rule_window_ms =
      (codes "large_transfer", 60000)
      ∷ (codes "governance", 3600000)
      ∷ (codes "mint_burn", 60000)
      ∷ (codes "approval", 300000)
      ∷ (codes "bridge_transfer", 60000)
      ∷ (codes "oracle_update", 300000)
      ∷ [];
  cleanup_every_n_alerts = 100;
}

-- `if (!configs.empty()) risk_engine_->register_rule(...)`
unfoldable pub register_if : Bool → AnyRule → RiskEngine AnyRule → RiskEngine AnyRule
register_if true rule engine = register_rule engine rule
register_if false rule engine = engine

-- The engine with the rules that have a configuration.
unfoldable pub registered : BacktestConfig → RiskEngine AnyRule
unfolding holds register_if
registered cfg =
    register_if (holds cfg.oracle_configs_by_feed)
      (AnyRule.oracle_update
        (record { configs_by_feed = cfg.oracle_configs_by_feed; last_by_feed = [] }))
      (register_if (holds cfg.bridge_configs_by_key)
        (AnyRule.bridge_transfer (record {
          configs_by_key = cfg.bridge_configs_by_key;
          bridge_addresses = cfg.bridge_addresses;
          bridge_names = cfg.bridge_names;
        }))
        (register_if (holds cfg.approval_rules_by_contract)
          (AnyRule.approval cfg.approval_rules_by_contract)
          (register_if (holds cfg.mint_burn_rules_by_contract)
            (AnyRule.mint_burn cfg.mint_burn_rules_by_contract)
            (register_if (holds cfg.governance_rules_by_contract)
              (AnyRule.governance cfg.governance_rules_by_contract)
              (register_if (holds cfg.large_transfer_configs)
                (AnyRule.large_transfer cfg.large_transfer_configs) Engine.make)))))

-- The dispatcher with its one channel.
unfoldable pub dispatcher : AlertDispatcher
unfolding dedup_cfg
dispatcher = started (codes "file" ∷ []) dedup_cfg

-- The poison pill, value-initialized but for its type and its payload.
unfoldable pub poison_pill : Signal
poison_pill = record {
  type = SignalType.control;
  meta = record {
    timestamp_ms = 0;
    internal_ingress_time_ms = 0;
    block_number = none;
    tx_hash = none;
    is_final = false;
    source_id = 0;
  };
  payload = control_signal Command.stop;
}

-- The loops that wait until a deadline: what `try_push` or `is_finished` returns, one call after the
-- other, up to the deadline.
unfoldable pub tried_until : List Bool → Bool
tried_until [] = false
tried_until (true ∷ attempts) = true
tried_until (false ∷ attempts) = tried_until attempts

-- What the ring buffer gets: the signals of the source and, unless the attempts to push it run out of
-- time, the poison pill.
unfoldable pub queued : List Bool → List Signal → List Signal
unfolding tried_until poison_pill
queued attempts signals = if tried_until attempts then signals ++ poison_pill ∷ [] else signals
