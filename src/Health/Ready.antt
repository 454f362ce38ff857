-- ===== src/Health/Ready.antt =====
-- About src/health/health_checks.cpp: when the service is ready.
use risk_sentinel.Common.{
  ℕ, ◌+◌, ◌/◌, ◌<◌, ◌≤◌, ◌≡◌, ◌≢◌, ◌↔◌, ◌⊎◌, ap, ◌∙◌, Bool, true, false, not, ◌&&◌, Option, none,
  some, Bytes, codes, ltb, ◌==◌, arith,
}
use risk_sentinel.Health.{
  CheckResult, HealthChecksConfig, HealthCheckInputs, evaluate_readiness, threads_alive,
  db_connected, rpc_recent, heartbeats_recorded, check_hb, check_recorded, age_ms, failed, trimmed,
  probed, clean,
}

-- A thread has recorded a heartbeat, at most `limit` milliseconds ago (or in the future).
abbrev pub IsBeating : ℕ → ℕ → Option ℕ → Type 0
IsBeating limit now_ms none = ⊥
IsBeating limit now_ms (some last) = (last ≢ 0) × (now_ms ≤ last + limit)

-- No request has succeeded yet, or the last one did less than the limit of whole seconds ago; a time
-- in the future counts as now.
abbrev pub IsRecent : ℕ → ℕ → Option ℕ → Type 0
IsRecent limit_s now_s none = Unit {0}
IsRecent limit_s now_s (some last_s) = (last_s ≡ 0) ⊎ ((now_s < last_s + limit_s) × (0 < limit_s))

beats : ℕ → ℕ → Option ℕ → Bool
beats limit now_ms none = false
beats limit now_ms (some last) = not (ltb limit (age_ms last now_ms))

recorded : Option ℕ → Bool
recorded none = false
recorded (some last) = not (last == 0)

check_hb-passed :
    (cfg : HealthChecksConfig) (now_ms : ℕ) (r : CheckResult) (hb : Option ℕ) (name : Bytes)
    → (check_hb cfg now_ms r hb name).passed
      ≡ (r.passed && beats cfg.heartbeat_max_age_ms now_ms hb)
unfolding check_hb failed beats
check_hb-passed cfg now_ms r none name = ground arith
check_hb-passed cfg now_ms r (some last) name = ground arith

check_recorded-passed :
    (r : CheckResult) (hb : Option ℕ) (name : Bytes)
    → (check_recorded r hb name).passed ≡ (r.passed && recorded hb)
unfolding check_recorded failed recorded
check_recorded-passed r none name = ground arith
check_recorded-passed r (some last) name = ground arith

alive_iff :
    (limit now_ms : ℕ) (hb : Option ℕ)
    → ((beats limit now_ms hb && recorded hb) ≡ true) ↔ IsBeating limit now_ms hb
unfolding beats recorded age_ms
alive_iff limit now_ms none = ground arith
alive_iff limit now_ms (some last) = ground arith

rpc_recent_iff :
    (cfg : HealthChecksConfig) (now_s : ℕ) (last : Option ℕ)
    → ((rpc_recent last cfg now_s).passed ≡ true)
      ↔ IsRecent (cfg.rpc_max_silence_ms / 1000) now_s last
unfolding rpc_recent
rpc_recent_iff cfg now_s none = ground arith
rpc_recent_iff cfg now_s (some last_s) = ground arith

-- The inputs under which the service should be ready.
pub record IsUp (inputs : HealthCheckInputs) (cfg : HealthChecksConfig) (now_ms now_s : ℕ)
    : Type 0 where
  pub source_beats : IsBeating cfg.heartbeat_max_age_ms now_ms inputs.event_source
  pub engine_beats : IsBeating cfg.heartbeat_max_age_ms now_ms inputs.risk_engine
  pub dispatcher_beats : IsBeating cfg.heartbeat_max_age_ms now_ms inputs.dispatcher
  pub database : inputs.db_probe ≡ some true
  pub chain : IsRecent (cfg.rpc_max_silence_ms / 1000) now_s inputs.rpc_last_success_unix_s

threads_alive-passed :
    (inputs : HealthCheckInputs) (cfg : HealthChecksConfig) (now_ms : ℕ)
    → (threads_alive inputs cfg now_ms).passed ≡ (
        (beats cfg.heartbeat_max_age_ms now_ms inputs.event_source
          && beats cfg.heartbeat_max_age_ms now_ms inputs.risk_engine)
        && beats cfg.heartbeat_max_age_ms now_ms inputs.dispatcher)
unfolding threads_alive trimmed
threads_alive-passed inputs cfg now_ms =
    let s = inputs.event_source in
    let e = inputs.risk_engine in
    let r₁ = check_hb cfg now_ms clean s (codes "event_source") in
    let r₂ = check_hb cfg now_ms r₁ e (codes "risk_engine") in
    check_hb-passed cfg now_ms r₂ inputs.dispatcher (codes "dispatcher")
    ∙ ap (λ b. b && beats cfg.heartbeat_max_age_ms now_ms inputs.dispatcher)
        (check_hb-passed cfg now_ms r₁ e (codes "risk_engine")
          ∙ ap (λ b. b && beats cfg.heartbeat_max_age_ms now_ms e)
              (check_hb-passed cfg now_ms clean s (codes "event_source")))

heartbeats_recorded-passed :
    (inputs : HealthCheckInputs)
    → (heartbeats_recorded inputs).passed ≡ (
        (recorded inputs.event_source && recorded inputs.risk_engine) && recorded inputs.dispatcher)
unfolding heartbeats_recorded trimmed
heartbeats_recorded-passed inputs =
    let s = inputs.event_source in
    let e = inputs.risk_engine in
    let r₁ = check_recorded clean s (codes "event_source") in
    let r₂ = check_recorded r₁ e (codes "risk_engine") in
    check_recorded-passed r₂ inputs.dispatcher (codes "dispatcher")
    ∙ ap (λ b. b && recorded inputs.dispatcher)
        (check_recorded-passed r₁ e (codes "risk_engine")
          ∙ ap (λ b. b && recorded e) (check_recorded-passed clean s (codes "event_source")))

db_connected_iff :
    (inputs : HealthCheckInputs)
    → ((db_connected inputs).passed ≡ true) ↔ (inputs.db_probe ≡ some true)
unfolding db_connected
db_connected_iff inputs = probe inputs.db_probe
  where
    probe : (p : Option Bool) → (probed p ≡ true) ↔ (p ≡ some true)
    probe none = (λ h. cc, λ h. cc)
    probe (some b) = (λ h. cc, λ h. cc)

abbrev All5 : Bool → Bool → Bool → Bool → Bool → Type 0
All5 a b c d r = (a ≡ true) × (b ≡ true) × (c ≡ true) × (d ≡ true) × (r ≡ true)

split_all :
    (a b c d r x y z : Bool)
    → (((a && b) && c) && (d && (r && ((x && y) && z))) ≡ true)
      ↔ All5 (a && x) (b && y) (c && z) d r
split_all true b c d r true y z = ground arith
split_all true b c d r false y z = ground arith
split_all false b c d r x y z = ground arith

ready_iff :
    (inputs : HealthCheckInputs) (cfg : HealthChecksConfig) (now_ms now_s : ℕ)
    → ((evaluate_readiness inputs cfg now_ms now_s).ready ≡ true)
      ↔ All5
          (beats cfg.heartbeat_max_age_ms now_ms inputs.event_source
            && recorded inputs.event_source)
          (beats cfg.heartbeat_max_age_ms now_ms inputs.risk_engine && recorded inputs.risk_engine)
          (beats cfg.heartbeat_max_age_ms now_ms inputs.dispatcher && recorded inputs.dispatcher)
          (db_connected inputs).passed
          (rpc_recent inputs.rpc_last_success_unix_s cfg now_s).passed
unfolding evaluate_readiness
ready_iff inputs cfg now_ms now_s =
    let limit = cfg.heartbeat_max_age_ms in
    rw (threads_alive-passed inputs cfg now_ms, heartbeats_recorded-passed inputs)
      (split_all (beats limit now_ms inputs.event_source) (beats limit now_ms inputs.risk_engine)
        (beats limit now_ms inputs.dispatcher) (db_connected inputs).passed
        (rpc_recent inputs.rpc_last_success_unix_s cfg now_s).passed (recorded inputs.event_source)
        (recorded inputs.risk_engine) (recorded inputs.dispatcher))

-- The service reports that it is ready exactly when each of its three threads has recorded a heartbeat
-- that is not older than the limit, the database answers, and the last successful request to the chain
-- is less than the limit of whole seconds ago or there has been none yet.
pub evaluate_readiness-IsUp :
    (inputs : HealthCheckInputs) (cfg : HealthChecksConfig) (now_ms now_s : ℕ)
    → ((evaluate_readiness inputs cfg now_ms now_s).ready ≡ true) ↔ IsUp inputs cfg now_ms now_s
evaluate_readiness-IsUp inputs cfg now_ms now_s =
    let limit = cfg.heartbeat_max_age_ms in
    let (there, back) = ready_iff inputs cfg now_ms now_s in
    (
      λ h.
          let (s, e, d, db, rpc) = there h in
          record {
            source_beats = (alive_iff limit now_ms inputs.event_source).0 s;
            engine_beats = (alive_iff limit now_ms inputs.risk_engine).0 e;
            dispatcher_beats = (alive_iff limit now_ms inputs.dispatcher).0 d;
            database = (db_connected_iff inputs).0 db;
            chain = (rpc_recent_iff cfg now_s inputs.rpc_last_success_unix_s).0 rpc;
          },
      λ up. back (
        (alive_iff limit now_ms inputs.event_source).1 up.source_beats,
        (alive_iff limit now_ms inputs.risk_engine).1 up.engine_beats,
        (alive_iff limit now_ms inputs.dispatcher).1 up.dispatcher_beats,
        (db_connected_iff inputs).1 up.database,
        (rpc_recent_iff cfg now_s inputs.rpc_last_success_unix_s).1 up.chain,
      ),
    )
