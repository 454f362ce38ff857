-- ===== src/Backtest/RunTests.antt =====
-- A backtest of one approval, from the log of the chain to the file.
use risk_sentinel.Common.{
  ℕ, ◌+◌, ◌≡◌, refl, ap, Bool, true, false, List, [], ◌∷◌, ◌++◌, map, Bytes, codes, length,
  length-replicate, All, Outcome, ok, arith, replicate,
}
use risk_sentinel.Signal.{Signal, Alert}
use risk_sentinel.Normalize.{RawLog}
use risk_sentinel.EventSource
use risk_sentinel.EventSource.{Surroundings}
use risk_sentinel.EventSource.Polls.{AnswersBelow}
use risk_sentinel.EventSource.Coverage.{Covered}
use risk_sentinel.Engine
use risk_sentinel.Engine.{Turn, front, empty}
use risk_sentinel.Engine.AnyRule.{any_rule}
use risk_sentinel.Engine.Drain.{fronts, handle_all}
use risk_sentinel.Engine.Idle.{found}
use risk_sentinel.Dispatcher
use risk_sentinel.Dispatcher.{Event, dispatch}
use risk_sentinel.Dispatcher.Order.{alert_of, dispatched}
use risk_sentinel.Dispatcher.Channels.{TriesAll}
use risk_sentinel.Dispatcher.Suppressed.{OnlyRepeats}
use risk_sentinel.Dispatcher.Ending.{IsOver}
use risk_sentinel.Backtest.Config.{BacktestConfig}
use risk_sentinel.Backtest.App.{
  es_cfg, registered, dispatcher, dedup_cfg, poison_pill, queued, tried_until,
}
use risk_sentinel.Backtest.Complete.{NoStops, pushed, dispatched_run, run_complete}

abbrev cfg : BacktestConfig
cfg = record {
  chain = codes "arbitrum";
  start_block = 10;
  end_block = 12;
  output_path = codes "out.jsonl";
  max_block_range = 1000;
  customers = record { id = 7; key = codes "acme"; display_name = [] } ∷ [];
  large_transfer_configs = [];
  governance_rules_by_contract = [];
  mint_burn_rules_by_contract = [];
  approval_rules_by_contract =
      (
        record { chain_id = 42161; address = codes "0xaaaaaaaaaaaaaaaaaaaaaaaaaaaaaaaaaaaaaaaa" },
        record {
          customer_id = 7;
          chain_id = 42161;
          token_address = replicate 20 0xaa;
          threshold_be = replicate 32 0;
          alert_on_infinite = false;
          enabled = true;
        }
            ∷ [],
      )
      ∷ [];
  bridge_configs_by_key = [];
  bridge_addresses = [];
  bridge_names = [];
  oracle_configs_by_feed = [];
}

-- An approval of 1 in block 11.
abbrev raw : RawLog
raw = record {
  address = codes "0xaaaaaaaaaaaaaaaaaaaaaaaaaaaaaaaaaaaaaaaa";
  topics =
      codes "0x8c5be1e5ebec7d5bd14f71427d1e84f3dd0314c0f7b2291e5b200ac8c7c3b925"
      ∷ codes "0x00"
      ∷ codes "0x00"
      ∷ [];
  hex_data = codes "0x0000000000000000000000000000000000000000000000000000000000000001";
  block_number = codes "0xb";
  transaction_hash = codes "0x";
  log_index = codes "0x0";
  transaction_index = codes "0x1";
  removed = false;
}

abbrev poll : Surroundings
poll = record {
  latest_block = ok 100;
  get_logs = λ from to. ok (raw ∷ []);
  block_timestamp = λ block. ok block;
  system_now_ms = 0;
  steady_now_ms = λ n. n;
  uninitialized = λ n. [];
}

signals : List Signal
signals = pushed cfg 42161 (poll ∷ [])

found-fronts_pill :
    (l : List Signal)
    → found ((empty ∷ fronts l []) ++ front poison_pill ∷ []) ≡ l ++ poison_pill ∷ []
found-fronts_pill [] = refl
found-fronts_pill (s ∷ l) = ap (λ r. s ∷ r) (found-fronts_pill l)

all_dispatched : (l : List Alert) → dispatched (map dispatch l) ≡ l
all_dispatched [] = refl
all_dispatched (a ∷ l) = ap (λ r. a ∷ r) (all_dispatched l)

quiet : (l : List Alert) → NoStops (map dispatch l)
quiet [] = tt
quiet (a ∷ l) = quiet l

abbrev turns : List Turn
turns = empty ∷ fronts signals []

-- What the engine dispatches, as the dispatcher finds it.
ran : List Alert
ran = (Engine.run (registered cfg) false [] (turns ++ front poison_pill ∷ empty ∷ [])).1

-- Rounds of the dispatcher behind the stop: one for each alert that is left, and one more.
after : List (ℕ × (Bytes → Bool))
after = replicate (length (Dispatcher.run dispatcher (map dispatch ran)).queue + 1) (0, λ _. true)

below : AnswersBelow poll
below head e = omega (arith, hundred e)
  where
    hundred : ◌≡◌ {A = Outcome ℕ} (ok 100) (ok head) → head ≡ 100
    hundred h = cc

run_complete_example :
    Covered
      (poll ∷ [])
      (EventSource.make (es_cfg cfg) 42161)
      (EventSource.run (EventSource.make (es_cfg cfg) 42161) (poll ∷ []))
    × (ran ≡ (handle_all (registered cfg) signals []).1)
    × ((Engine.run (registered cfg) false [] (turns ++ front poison_pill ∷ empty ∷ [])).2 ≡ true)
    × IsOver (dispatched_run (map dispatch ran) after)
    × (map alert_of (dispatched_run (map dispatch ran) after).log
        ≡ (handle_all (registered cfg) signals []).1)
    × All (TriesAll (codes "file" ∷ [])) (dispatched_run (map dispatch ran) after).log
    × OnlyRepeats dedup_cfg (dispatched_run (map dispatch ran) after).log
unfolding signals ran after queued tried_until
run_complete_example =
    run_complete cfg 42161 (poll ∷ []) (false ∷ true ∷ []) turns [] (map dispatch ran) after refl
      (below, tt) refl (found-fronts_pill signals) (quiet ran) (all_dispatched ran)
      (length-replicate (length (Dispatcher.run dispatcher (map dispatch ran)).queue + 1)
        (0, λ _. true))
