-- ===== src/Health.antt =====
-- src/health/health_checks.cpp and include/sentinel/health/heartbeat.hpp: the readiness report.
-- The two clocks and what the probes answer are arguments.
pub mod Ready
mod Tests
use risk_sentinel.Common.{
  ℕ, zero, suc, ◌+◌, ◌-◌, ◌*◌, ◌/◌, ◌^◌, Bool, true, false, not, ◌&&◌, Option, none, some, List, [],
  ◌∷◌, ◌++◌, Bytes, codes, ltb, leb, ◌==◌, if◌then◌else◌,
}
use risk_sentinel.Common.Digits.{to_string}

pub record CheckResult : Type 0 where
  pub passed : Bool
  pub detail : Bytes

pub record HealthChecksConfig : Type 0 where
  pub heartbeat_max_age_ms : ℕ
  pub rpc_max_silence_ms : ℕ

-- A heartbeat is the value of `last_ms()` behind a pointer that may be null; a probe that is not set
-- is `none`, and one that is set is what it answers.
pub record HealthCheckInputs : Type 0 where
  pub event_source : Option ℕ
  pub risk_engine : Option ℕ
  pub dispatcher : Option ℕ
  pub rpc_last_success_unix_s : Option ℕ
  pub db_probe : Option Bool

pub record ReadinessReport : Type 0 where
  pub ready : Bool
  pub checks : List (Bytes × CheckResult)

-- `Heartbeat::age_ms`
unfoldable pub age_ms : ℕ → ℕ → ℕ
age_ms last now_ms = if last == 0 then 2 ^ 64 - 1 else if ltb now_ms last then 0 else now_ms - last

unfoldable pub failed : CheckResult → Bytes → CheckResult
failed r text = record { passed = false; detail = r.detail ++ text }

-- The lambda `check_hb`.
unfoldable pub check_hb : HealthChecksConfig → ℕ → CheckResult → Option ℕ → Bytes → CheckResult
unfolding failed age_ms
check_hb cfg now_ms r none name = failed r (name ++ codes " heartbeat missing; ")
check_hb cfg now_ms r (some last) name =
    let age = age_ms last now_ms in
    if ltb cfg.heartbeat_max_age_ms age
    then failed r (name ++ (codes " stale (" ++ (to_string age ++ codes "ms); ")))
    else r

-- `if (!r.detail.empty() && r.detail.back() == ' ') r.detail.pop_back();`
unfoldable pub pop_space : Bytes → Bytes
pop_space [] = []
pop_space (c ∷ []) = if c == b' ' then [] else c ∷ []
pop_space (c ∷ d ∷ s) = c ∷ pop_space (d ∷ s)

unfoldable pub trimmed : CheckResult → CheckResult
unfolding pop_space
trimmed r = record r { detail = pop_space r.detail }

abbrev pub clean : CheckResult
clean = record { passed = true; detail = [] }

unfoldable pub threads_alive : HealthCheckInputs → HealthChecksConfig → ℕ → CheckResult
unfolding check_hb trimmed
threads_alive inputs cfg now_ms =
    let r₁ = check_hb cfg now_ms clean inputs.event_source (codes "event_source") in
    let r₂ = check_hb cfg now_ms r₁ inputs.risk_engine (codes "risk_engine") in
    trimmed (check_hb cfg now_ms r₂ inputs.dispatcher (codes "dispatcher"))

unfoldable pub probed : Option Bool → Bool
probed none = false
probed (some connected) = connected

unfoldable pub db_connected : HealthCheckInputs → CheckResult
unfolding probed
db_connected inputs =
    let connected = probed inputs.db_probe in
    record { passed = connected; detail = if connected then [] else codes "DB probe failed" }

unfoldable pub rpc_recent : Option ℕ → HealthChecksConfig → ℕ → CheckResult
rpc_recent none cfg now_s = clean
rpc_recent (some last_s) cfg now_s =
    let silence_s = if leb last_s now_s then now_s - last_s else 0 in
    if last_s == 0
    then record { passed = true; detail = codes "no RPC calls yet" }
    else if leb (cfg.rpc_max_silence_ms / 1000) silence_s
    then record {
      passed = false;
      detail = codes "last RPC success " ++ (to_string silence_s ++ codes "s ago");
    }
    else clean

-- The lambda `check_recorded`.
unfoldable pub check_recorded : CheckResult → Option ℕ → Bytes → CheckResult
unfolding failed
check_recorded r none name = failed r (name ++ codes " not yet recorded; ")
check_recorded r (some last) name =
    if last == 0 then failed r (name ++ codes " not yet recorded; ") else r

unfoldable pub heartbeats_recorded : HealthCheckInputs → CheckResult
unfolding check_recorded trimmed
heartbeats_recorded inputs =
    let r₁ = check_recorded clean inputs.event_source (codes "event_source") in
    let r₂ = check_recorded r₁ inputs.risk_engine (codes "risk_engine") in
    trimmed (check_recorded r₂ inputs.dispatcher (codes "dispatcher"))

unfoldable pub evaluate_readiness : HealthCheckInputs → HealthChecksConfig → ℕ → ℕ → ReadinessReport
unfolding threads_alive db_connected rpc_recent heartbeats_recorded
evaluate_readiness inputs cfg now_ms now_s =
    let alive = threads_alive inputs cfg now_ms in
    let connected = db_connected inputs in
    let recent = rpc_recent inputs.rpc_last_success_unix_s cfg now_s in
    let recorded = heartbeats_recorded inputs in
    record {
      ready = alive.passed && (connected.passed && (recent.passed && recorded.passed));
      checks =
          (codes "threads_alive", alive)
          ∷ (codes "db_connected", connected)
          ∷ (codes "rpc_recent", recent)
          ∷ (codes "heartbeats_recorded", recorded)
          ∷ [];
    }
