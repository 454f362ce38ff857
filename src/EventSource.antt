-- ===== src/EventSource.antt =====
-- src/events/EventSource.cpp: the cursor over the blocks of a chain, and one poll.
-- Metrics, logging and sleeping are left out. The members are those that steer the polls.
pub mod Fetch
pub mod Pushes
pub mod Polls
pub mod Deliveries
pub mod Coverage
pub mod Head
pub mod Commands
mod Tests
use risk_sentinel.Common.{
  ℕ, zero, suc, ◌+◌, ◌-◌, ◌*◌, ◌/◌, ◌%◌, ◌^◌, min, max, Bool, true, false, ◌&&◌, ◌||◌, not, List,
  [], ◌∷◌, ◌++◌, Bytes, codes, ltb, leb, ◌==◌, if◌then◌else◌, Outcome, ok, err,
}
use risk_sentinel.Signal.{Signal}
use risk_sentinel.Normalize.{RawLog, normalize}

pub record EventSourceConfig : Type 0 where
  pub start_block : ℕ
  pub max_block_range : ℕ
  pub min_block_range : ℕ
  pub backtest_end_block : ℕ

-- `ChainAdapter` and the clocks during one poll: what a request answers or throws, the system clock
-- in milliseconds, the steady clock at the n-th log, and what the local hash array holds there.
pub record Surroundings : Type 0 where
  pub latest_block : Outcome ℕ
  pub get_logs : ℕ → ℕ → Outcome (List RawLog)
  pub block_timestamp : ℕ → Outcome ℕ
  pub system_now_ms : ℕ
  pub steady_now_ms : ℕ → ℕ
  pub uninitialized : ℕ → Bytes

-- `out` holds every signal that was pushed to the ring buffer, in order.
pub record EventSource : Type 0 where
  pub cfg : EventSourceConfig
  pub chain_id : ℕ
  pub next_block : ℕ
  pub cold_start : Bool
  pub cached_chain_head : ℕ
  pub out : List Signal

unfoldable pub make : EventSourceConfig → ℕ → EventSource
make cfg chain_id = record {
  cfg = cfg;
  chain_id = chain_id;
  next_block = cfg.start_block;
  cold_start = cfg.start_block == 0;
  cached_chain_head = 0;
  out = [];
}

-- The head of the chain, cut at the end of a backtest.
unfoldable pub capped : EventSourceConfig → ℕ → ℕ
capped cfg head = if cfg.backtest_end_block == 0 then head else min head cfg.backtest_end_block

-- `to_block = next_block_ + range - 1` in `uint64_t`.
unfoldable pub to_block : ℕ → ℕ → ℕ
to_block next range = (next + range + (2 ^ 64 - 1)) % 2 ^ 64

-- `cached_chain_head_ - next_block_ + 1` where the head is not below the cursor, cut to the
-- configured range.
unfoldable pub first_range : EventSourceConfig → ℕ → ℕ → ℕ
first_range cfg next head =
    max (min cfg.max_block_range ((head - next + 1) % 2 ^ 64)) cfg.min_block_range

-- One answer of `getLogs`: the loop ends with the logs, ends because the range is the least one
-- already, or goes on with `rest`.
unfoldable pub retry :
    Outcome (List RawLog) → ℕ → Bool → Outcome (ℕ × List RawLog) → Outcome (ℕ × List RawLog)
retry (ok logs) to at_min rest = ok (to, logs)
retry (err e) to at_min rest =
    if at_min then err (codes "Persistent RPC failure even with min_range") else rest

-- The retry loop: the last block of the range that was fetched, and its logs. A failure halves the
-- range.
unfoldable pub fetch : ℕ → EventSourceConfig → Surroundings → ℕ → ℕ → Outcome (ℕ × List RawLog)
fetch zero cfg around next range = err (codes "out of fuel")
fetch (suc fuel) cfg around next range =
    let to = to_block next range in
    let rest = fetch fuel cfg around next (max (range / 2) cfg.min_block_range) in
    retry (around.get_logs next to) to (leb range cfg.min_block_range) rest

-- The timestamp of the batch in milliseconds; the system clock if the request fails.
unfoldable pub timestamp_or : Outcome ℕ → ℕ → ℕ
timestamp_or (ok seconds) now_ms = seconds * 1000 % 2 ^ 64
timestamp_or (err e) now_ms = now_ms

unfoldable pub stamp : Signal → ℕ → Signal
stamp signal now_ms = record signal {
  meta = record signal.meta { internal_ingress_time_ms = now_ms };
}

-- `normalize`, the ingress time, and `push_blocking`, which waits until there is room; then `rest`.
unfoldable pub push_one :
    Outcome Signal
    → ℕ
    → List Signal
    → (List Signal → List Signal × Outcome (Unit {0}))
    → List Signal × Outcome (Unit {0})
unfolding stamp
push_one (ok signal) now_ms out rest = rest (out ++ stamp signal now_ms ∷ [])
push_one (err e) now_ms out rest = (out, err e)

-- The loop over the logs: an exception leaves the signals before it in the buffer.
unfoldable pub push_all :
    Surroundings → ℕ → ℕ → ℕ → List RawLog → List Signal → List Signal × Outcome (Unit {0})
push_all around chain_id timestamp n [] out = (out, ok tt)
push_all around chain_id timestamp n (raw ∷ logs) out =
    push_one (normalize raw chain_id timestamp (around.uninitialized n)) (around.steady_now_ms n)
      out (push_all around chain_id timestamp (n + 1) logs)

-- Behind the loop: the cursor moves behind the range, and the poll says whether more is at hand.
unfoldable pub advance :
    EventSource → ℕ → List Signal × Outcome (Unit {0}) → EventSource × Outcome Bool
advance s to (out, err e) = (record s { out = out }, err e)
advance s to (out, ok _) =
    let next = (to + 1) % 2 ^ 64 in
    (record s { out = out; next_block = next }, ok (leb next s.cached_chain_head))

unfoldable pub deliver :
    EventSource → Surroundings → Outcome (ℕ × List RawLog) → EventSource × Outcome Bool
unfolding push_all advance
deliver s around (err e) = (s, err e)
deliver s around (ok (to, logs)) =
    let timestamp = timestamp_or (around.block_timestamp to) around.system_now_ms in
    advance s to (push_all around s.chain_id timestamp 0 logs s.out)

-- Steps 2 to 6 of `poll_once`: fetch a range from the cursor on, and deliver its logs. Each retry
-- makes the range smaller, so the range itself and one round more are fuel enough.
unfoldable pub fetch_batch : EventSource → Surroundings → EventSource × Outcome Bool
unfolding fetch deliver
fetch_batch s around =
    if ltb s.cached_chain_head s.next_block
    then (s, ok false)
    else let range = first_range s.cfg s.next_block s.cached_chain_head in
      deliver s around (fetch (range + 1) s.cfg around s.next_block range)

-- Step 1 with a new head. The first poll without a checkpoint jumps to the head, unless it is a
-- backtest, and ends there.
unfoldable pub with_head : EventSource → Surroundings → Outcome ℕ → EventSource × Outcome Bool
unfolding fetch_batch
with_head s around (err e) = (s, err (codes "latestBlock failed: " ++ e))
with_head s around (ok latest) =
    let head = capped s.cfg latest in
    if s.cold_start
    then (
      record s {
        cached_chain_head = head;
        next_block = if s.cfg.backtest_end_block == 0 then head else s.next_block;
        cold_start = false;
      },
      ok false,
    )
    else fetch_batch (record s { cached_chain_head = head }) around

unfoldable pub poll_once : EventSource → Surroundings → EventSource × Outcome Bool
unfolding with_head fetch_batch
poll_once s around =
    if s.cached_chain_head == 0 || ltb s.cached_chain_head s.next_block
    then with_head s around around.latest_block
    else fetch_batch s around

-- The polls of `run`: a poll that throws is logged, and the next one follows; a backtest ends once
-- the cursor has passed its last block. Each element is what the polls find in turn, up to the stop.
unfoldable pub run : EventSource → List Surroundings → EventSource
unfolding poll_once
run s [] = s
run s (around ∷ polls) =
    let rest = run (poll_once s around).0 polls in
    if not (s.cfg.backtest_end_block == 0) && ltb s.cfg.backtest_end_block s.next_block
    then s
    else rest
