-- ===== src/Engine/Tests.antt =====
-- An engine with a rule for large transfers and one for approvals.
use risk_sentinel.Common.{ℕ, ◌≡◌, refl, true, false, none, [], ◌∷◌, ◌++◌, List, Bytes, replicate}
use risk_sentinel.Signal.{Signal, SignalType, SignalMeta, Command, evm_log, control_signal}
use risk_sentinel.Engine.{RiskEngine, make, process, run, empty, is_stop}
use risk_sentinel.Engine.AnyRule.{AnyRule, any_rule, large_transfer, approval}
use risk_sentinel.Engine.Routing.{evaluate_interested}
use risk_sentinel.Engine.Registered.{register_all, process_all, process-registered}
use risk_sentinel.Engine.Drain.{fronts, handle_all, run-drains, any_stops}

abbrev word : ℕ → Bytes
word b = replicate 31 0 ++ b ∷ []

abbrev token : Bytes
token = replicate 19 0 ++ 17 ∷ []

abbrev meta : SignalMeta
meta = record {
  timestamp_ms = 1000;
  internal_ingress_time_ms = 1001;
  block_number = none;
  tx_hash = none;
  is_final = false;
  source_id = 1;
}

abbrev transfer : Signal
transfer = record {
  type = SignalType.transfer;
  meta = meta;
  payload = evm_log (record {
    chain_id = 1;
    tx_index = 0;
    log_index = 0;
    removed = false;
    address = token;
    topic_count = 3;
    topics = word 1 ∷ word 2 ∷ word 3 ∷ [];
    data_size = 32;
    data_bytes = word 9;
    truncated = false;
  });
}

abbrev stop_signal : Signal
stop_signal = record {
  type = SignalType.control;
  meta = meta;
  payload = control_signal Command.stop;
}

abbrev rules : List AnyRule
rules =
    approval []
    ∷ large_transfer (
        record { customer_id = 5; chain_id = 1; token_address = token; threshold_be = word 8 } ∷ [])
    ∷ []

abbrev engine : RiskEngine AnyRule
engine = register_all make rules

stop_is_there : any_stops (stop_signal ∷ transfer ∷ []) ≡ true
unfolding is_stop
stop_is_there = refl

process-registered_example : process (process_all engine (transfer ∷ [])) transfer ≡ (
  record (process_all engine (transfer ∷ [])) {
    rules = (evaluate_interested 2 transfer (process_all engine (transfer ∷ [])).rules []).0;
  },
  (evaluate_interested 2 transfer (process_all engine (transfer ∷ [])).rules []).1,
)
process-registered_example = process-registered rules (transfer ∷ []) transfer

run-drains_example : run engine false [] (fronts (stop_signal ∷ transfer ∷ []) (empty ∷ [])) ≡ (
  (handle_all engine (stop_signal ∷ transfer ∷ []) []).0,
  (handle_all engine (stop_signal ∷ transfer ∷ []) []).1,
  true,
)
run-drains_example = run-drains engine [] (stop_signal ∷ transfer ∷ []) [] stop_is_there
