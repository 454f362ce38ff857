-- ===== src/Dispatcher/Tests.antt =====
-- A dispatcher with two channels, which both throw at the last alert.
use risk_sentinel.Common.{
  ◌+◌, ◌<◌, ◌≤◌, ◌≡◌, refl, Bool, true, false, none, some, List, [], ◌∷◌, ◌++◌, Bytes, codes, map,
  arith, bytes_beq, All,
}
use risk_sentinel.Common.Assoc.{find, assign}
use risk_sentinel.Common.Digits.{to_string, put_digits}
use risk_sentinel.Signal.{Alert}
use risk_sentinel.Dedup.{
  DeduplicatorConfig, build_key, chain_part, token_part, make, longest, window_of, window_or,
  is_stale, erase_stale, cleanup_stale_entries, is_recent, decide, count_alert, should_suppress,
}
use risk_sentinel.Dedup.Key.{IsKeyable}
use risk_sentinel.Dispatcher.{
  AlertDispatcher, suppressed, tried, Event, dispatch, round, started, send_all, entry, handle,
  is_shutdown, run_round, step, run,
}
use risk_sentinel.Dispatcher.Order.{alert_of, run-dispatched}
use risk_sentinel.Dispatcher.Channels.{TriesAll, run-TriesAll}
use risk_sentinel.Dispatcher.Ending.{rounds, IsOver, run-ends}
use risk_sentinel.Dispatcher.Repeats.{sent-window}

abbrev paused : Alert
paused = record {
  customer_id = 7;
  rule_type = codes "g";
  message = codes "m";
  timestamp_ms = 5;
  internal_ingress_time_ms = 0;
  amount_decimal = none;
  token_address = some (codes "0xa");
  chain_id = some 1;
}

abbrev cfg : DeduplicatorConfig
cfg = record { default_window_ms = 100; per_rule_window_ms = []; cleanup_every_n_alerts = 2 }

abbrev channels : List Bytes
channels = codes "file" ∷ codes "web" ∷ []

abbrev events : List Event
events =
    dispatch paused
    ∷ dispatch paused
    ∷ round 10 (λ name. true)
    ∷ round 20 (λ name. true)
    ∷ dispatch paused
    ∷ round 110 (λ name. false)
    ∷ []

abbrev all_ok : List (Bytes × Bool)
all_ok = (codes "file", true) ∷ (codes "web", true) ∷ []

abbrev all_failed : List (Bytes × Bool)
all_failed = (codes "file", false) ∷ (codes "web", false) ∷ []

log_of_events :
    (run (started channels cfg) events).log
    ≡ tried paused 10 all_ok ∷ suppressed paused 20 ∷ tried paused 110 all_failed ∷ []
unfolding run step run_round handle entry send_all started should_suppress make longest decide find
    assign build_key chain_part token_part to_string put_digits window_of window_or is_stale
    erase_stale cleanup_stale_entries is_recent count_alert bytes_beq is_shutdown
log_of_events = refl

run-dispatched_example :
    map alert_of (run (started channels cfg) events).log
      ++ (run (started channels cfg) events).queue
    ≡ paused ∷ paused ∷ paused ∷ []
run-dispatched_example = run-dispatched channels cfg events

run-TriesAll_example : All (TriesAll channels) (run (started channels cfg) events).log
run-TriesAll_example = run-TriesAll channels cfg events

paused-IsKeyable : IsKeyable paused
paused-IsKeyable = record {
  customer_fits = omega arith;
  rule_lacks_bar = (omega arith, tt);
  chain_fits = omega arith;
}

window_end : 20 < 10 + window_of cfg (codes "g")
unfolding window_of window_or find
window_end = omega arith

sent-window_example : 10 + window_of cfg (codes "g") ≤ 110
sent-window_example =
    sent-window channels cfg events [] (suppressed paused 20 ∷ []) [] paused paused 10 110 all_ok
      all_failed log_of_events paused-IsKeyable paused-IsKeyable refl
      ((paused-IsKeyable, window_end), tt)

abbrev stopping : AlertDispatcher
stopping = record (started channels cfg) { queue = paused ∷ []; running = false }

stopping-is_shutdown : is_shutdown stopping ≡ true
unfolding is_shutdown started
stopping-is_shutdown = refl

stopping-goes_on : stopping.ended ≡ false
unfolding started
stopping-goes_on = refl

run-ends_example : IsOver (run stopping (rounds ((10, λ name. true) ∷ (20, λ name. true) ∷ [])))
run-ends_example =
    run-ends stopping (paused ∷ []) ((10, λ name. true) ∷ (20, λ name. true) ∷ []) refl
      stopping-is_shutdown stopping-goes_on (omega arith)
