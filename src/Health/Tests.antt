-- ===== src/Health/Tests.antt =====
-- Readiness of a service whose dispatcher is late.
use risk_sentinel.Common.{◌≡◌, ◌↔◌, refl, true, false, some, codes, bytes_eq, bytes_beq}
use risk_sentinel.Common.Assoc.{find}
use risk_sentinel.Common.Digits.{to_string, put_digits}
use risk_sentinel.Health.{
  HealthChecksConfig, HealthCheckInputs, evaluate_readiness, threads_alive, rpc_recent, check_hb,
  age_ms, failed, trimmed, pop_space,
}
use risk_sentinel.Health.Ready.{IsUp, evaluate_readiness-IsUp}

abbrev cfg : HealthChecksConfig
cfg = record { heartbeat_max_age_ms = 5000; rpc_max_silence_ms = 120000 }

abbrev inputs : HealthCheckInputs
inputs = record {
  event_source = some 9000;
  risk_engine = some 9500;
  dispatcher = some 100;
  rpc_last_success_unix_s = some 0;
  db_probe = some true;
}

late :
    find (codes "threads_alive") (evaluate_readiness inputs cfg 10000 60).checks
    ≡ some (record { passed = false; detail = codes "dispatcher stale (9900ms);" })
unfolding evaluate_readiness threads_alive check_hb age_ms failed trimmed pop_space to_string
    put_digits find bytes_beq
late = refl

-- The detail is not empty although the check has passed.
starting :
    find (codes "rpc_recent") (evaluate_readiness inputs cfg 10000 60).checks
    ≡ some (record { passed = true; detail = codes "no RPC calls yet" })
unfolding evaluate_readiness rpc_recent find bytes_beq
starting = refl

evaluate_readiness-IsUp_example :
    ((evaluate_readiness inputs cfg 10000 60).ready ≡ true) ↔ IsUp inputs cfg 10000 60
evaluate_readiness-IsUp_example = evaluate_readiness-IsUp inputs cfg 10000 60
