-- ===== src/App/Lifecycle.antt =====
-- src/app/app.cpp: `App::run` and what it calls to start and to stop the parts. What the environment
-- does is an argument. `init_logging_` always returns true.
use risk_sentinel.Common.{
  ℕ, zero, suc, ◌+◌, Bool, true, false, not, ◌&&◌, ◌||◌, Option, none, some, List, [], ◌∷◌, ◌++◌,
  Bytes, codes, length, ◌==◌, if◌then◌else◌, bytes_beq, Outcome, ok, err,
}
use risk_sentinel.Backtest.App.{tried_until}

-- What leaves a call: a `std::exception` or anything else.
pub data Failure : Type 0 where
  exception : Bytes → Failure
  unknown : Failure

pub data Part : Type 0 where
  health : Part
  source : Part
  engine : Part
  alerts : Part

-- A call on a part, or on its thread: the start of the thread, `stop`, and the return of `join`.
pub data Call : Type 0 where
  launched : Part → Call
  stopped : Part → Call
  joined : Part → Call

-- `if (present) { call; }` in the order of the calls.
unfoldable pub call_if : Bool → Call → List Call → List Call
call_if present call calls = if present then calls ++ call ∷ [] else calls

pub record Environment : Type 0 where
  pub database_url : Bytes
  pub rpc_url : Bytes
  pub chain : Bytes
  -- whether an attempt to connect, counted from 0, gives an open connection
  pub opens : ℕ → Bool
  pub ensure_schema : Outcome (Unit {0})
  pub get_or_init_checkpoint : Outcome ℕ
  -- the constructions of `Metrics` and `JsonRpcClient`, of the event source, which asks the adapter
  -- for its chain, of the dispatcher with its channels, of the engine and of the health server: each
  -- may fail
  pub metrics : Option Failure
  pub rpc : Option Failure
  pub source_built : Option Failure
  pub dispatcher_built : Option Failure
  pub engine_built : Option Failure
  pub health_built : Option Failure
  -- the starts of the threads and of the health server, which may fail
  pub dispatcher_starts : Option Failure
  pub engine_starts : Option Failure
  pub source_starts : Option Failure
  pub health_starts : Outcome (Unit {0})
  -- what `try_push` returns until the deadline; `is_finished` has no effect but on the log
  pub pushes : List Bool

-- Which members of `App` are set, which threads are joinable, and what was done.
pub record App : Type 0 where
  pub ring_buffer : Bool
  pub event_source : Bool
  pub dispatcher : Bool
  pub risk_engine : Bool
  pub health_server : Bool
  pub dispatcher_thread : Bool
  pub risk_engine_thread : Bool
  pub event_source_thread : Bool
  pub is_stopped : Bool
  pub readiness_file : Bool
  pub pushed : Bool
  pub calls : List Call

unfoldable pub make : App
make = record {
  ring_buffer = false;
  event_source = false;
  dispatcher = false;
  risk_engine = false;
  health_server = false;
  dispatcher_thread = false;
  risk_engine_thread = false;
  event_source_thread = false;
  is_stopped = false;
  readiness_file = false;
  pushed = false;
  calls = [];
}

-- The loop with its retries that are left, and the attempt that is next.
unfoldable pub connect : (ℕ → Bool) → ℕ → ℕ → Bool
connect opens zero attempt = false
connect opens (suc retries) attempt =
    let later = connect opens retries (attempt + 1) in if opens attempt then true else later

-- `none` for `return false`, else the block to start from.
unfoldable pub init_db : Environment → Option ℕ
unfolding connect
init_db env =
    if length env.database_url == 0
    then none
    else if not (connect env.opens 15 0)
    then none
    else elim env.ensure_schema [
      | err e ↦ none
      | ok _ ↦ elim env.get_or_init_checkpoint [ err e ↦ none | ok last ↦ some last ]
    ]

-- A call that may fail, with the members that it has set by then.
pub data Result : Type 0 where
  done : App → Result
  failed : Failure → App → Result

infixl 5 ◌>>>◌
abbrev pub ◌>>>◌ : Result → (App → Result) → Result
done app >>> next = next app
failed e app >>> next = failed e app

unfoldable pub fail_if : Option Failure → App → Result
fail_if none app = done app
fail_if (some e) app = failed e app

unfoldable pub check_rpc_url : Environment → App → Result
check_rpc_url env app =
    if length env.rpc_url == 0 then failed (exception (codes "RPC_URL is empty")) app else done app

unfoldable pub set_adapter : Environment → App → Result
set_adapter env app =
    if bytes_beq env.chain (codes "arbitrum") || bytes_beq env.chain (codes "ethereum")
    then done app
    else failed (exception (codes "Unknown chain: " ++ env.chain)) app

-- `member_ = std::make_unique<...>(...)`, where the construction may fail.
unfoldable pub build : Option Failure → (App → App) → App → Result
build none set app = done (set app)
build (some e) set app = failed e app

-- The members in the order of their construction.
unfoldable pub set_modules : Environment → App → Result
unfolding build
set_modules env app =
    build env.source_built (λ app. record app { event_source = true }) app
    >>> build env.dispatcher_built (λ app. record app { dispatcher = true })
    >>> build env.engine_built (λ app. record app { risk_engine = true })
    >>> build env.health_built (λ app. record app { health_server = true })

-- Loading from the database does not fail: each `load_..._` catches what it throws.
unfoldable pub init_modules : Environment → App → Result
unfolding fail_if check_rpc_url set_adapter set_modules
init_modules env app =
    done (record app { ring_buffer = true })
    >>> check_rpc_url env
    >>> fail_if env.metrics
    >>> fail_if env.rpc
    >>> set_adapter env
    >>> set_modules env

-- A health server that does not start is dropped.
unfoldable pub start_health : Outcome (Unit {0}) → App → Result
start_health (ok _) app = done app
start_health (err e) app = done (record app { health_server = false })

-- `thread_ = std::jthread(...)`, which may fail.
unfoldable pub start_dispatcher : Environment → App → Result
unfolding build call_if
start_dispatcher env =
    build env.dispatcher_starts
      λ app. record app { dispatcher_thread = true; calls = app.calls ++ launched alerts ∷ [] }

unfoldable pub start_engine : Environment → App → Result
unfolding build
start_engine env =
    build env.engine_starts
      λ app. record app { risk_engine_thread = true; calls = app.calls ++ launched engine ∷ [] }

unfoldable pub start_source : Environment → App → Result
unfolding build
start_source env =
    build env.source_starts
      λ app. record app { event_source_thread = true; calls = app.calls ++ launched source ∷ [] }

unfoldable pub start_threads : Environment → App → Result
unfolding start_dispatcher start_engine start_source start_health
start_threads env app =
    start_dispatcher env app
    >>> start_engine env
    >>> start_source env
    >>> start_health env.health_starts

-- `if (part) part->stop();`
unfoldable pub stop_if : Bool → Part → App → App
unfolding call_if
stop_if present part app = record app { calls = call_if present (stopped part) app.calls }

-- The poison pill, and `stop` whether or not it was pushed.
unfoldable pub stop_engine : Environment → App → App
unfolding call_if tried_until
stop_engine env app =
    let both = app.risk_engine && app.ring_buffer in
    record app {
      pushed = if both then tried_until env.pushes else app.pushed;
      calls = call_if both (stopped engine) app.calls;
    }

-- The parts that are set, the health server first.
unfoldable pub stop_all : Environment → App → App
unfolding stop_if stop_engine
stop_all env a =
    let b = stop_if a.health_server health a in
    let c = stop_if b.event_source source b in
    let d = stop_engine env c in stop_if d.dispatcher alerts d

-- Only the first call does anything.
unfoldable pub stop_orderly : Environment → App → App
unfolding stop_all
stop_orderly env app =
    let all = stop_all env (record app { is_stopped = true }) in if app.is_stopped then app else all

-- `if (thread.joinable()) thread.join();` for each thread: it is not joinable behind this. What `join`
-- waits for is the thread, and the calls behind it are those that follow once it returns.
unfoldable pub join_threads : App → App
unfolding call_if
join_threads app = record app {
  event_source_thread = false;
  risk_engine_thread = false;
  dispatcher_thread = false;
  calls = call_if app.dispatcher_thread (joined alerts) (
      call_if app.risk_engine_thread (joined engine)
        (call_if app.event_source_thread (joined source) app.calls));
}

-- The end of `run` with its exit code.
unfoldable pub finish : Environment → ℕ → App → ℕ × App
unfolding stop_orderly join_threads
finish env code app = (code, join_threads (stop_orderly env app))

unfoldable pub exit_code : Failure → ℕ
exit_code (exception e) = 3
exit_code unknown = 4

-- The wait for `request_stop`, and the file, which is removed on leaving the block.
unfoldable pub wait_for_stop : App → App
wait_for_stop app =
    let ready = record app { readiness_file = true } in record ready { readiness_file = false }

unfoldable pub ended : Environment → Result → ℕ × App
unfolding finish exit_code wait_for_stop
ended env (done app) = finish env 0 (wait_for_stop app)
ended env (failed e app) = finish env (exit_code e) app

-- `run` behind `init_db_`. `register_rules_`, which comes between, sets none of these members and throws
-- nothing of its own, as `load_large_transfer_configs_` catches what the database throws.
unfoldable pub opened : Environment → Option ℕ → App → ℕ × App
unfolding init_modules start_threads ended
opened env none app = (2, app)
opened env (some last) app = ended env (init_modules env app >>> start_threads env)

unfoldable pub run : Environment → App → ℕ × App
unfolding init_db opened
run env app = opened env (init_db env) app
