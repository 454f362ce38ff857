-- ===== src/Dispatcher.antt =====
-- src/risk/alert_dispatcher.cpp: `AlertDispatcher`, its queue and its loop. Metrics, logging and the
-- heartbeat are left out; the lock makes each step atomic.
pub mod Order
pub mod Channels
pub mod Ending
pub mod Repeats
pub mod Stored
pub mod Suppressed
mod Tests
use risk_sentinel.Common.{
  ℕ, Bool, true, false, not, ◌&&◌, ◌||◌, Option, none, some, List, [], ◌∷◌, ◌++◌, Bytes,
  if◌then◌else◌, map,
}
use risk_sentinel.Signal.{Alert}
use risk_sentinel.Dedup.{AlertDeduplicator, DeduplicatorConfig, make, should_suppress}

-- What became of an alert that left the queue at a time: the deduplicator suppressed it, or each
-- channel was tried, and `send` returned (true) or threw (false).
pub data Outgoing : Type 0 where
  suppressed : Alert → ℕ → Outgoing
  tried : Alert → ℕ → List (Bytes × Bool) → Outgoing

-- The channels by their names; `log` holds what became of the alerts, in order; `ended` says that
-- the loop of `run` is over.
pub record AlertDispatcher : Type 0 where
  pub channels : List Bytes
  pub queue : List Alert
  pub running : Bool
  pub stop_requested : Bool
  pub deduplicator : AlertDeduplicator
  pub log : List Outgoing
  pub ended : Bool

-- The dispatcher as it is when `run` has begun.
unfoldable pub started : List Bytes → DeduplicatorConfig → AlertDispatcher
started channels dedup_cfg = record {
  channels = channels;
  queue = [];
  running = true;
  stop_requested = false;
  deduplicator = make dedup_cfg;
  log = [];
  ended = false;
}

-- A channel that is not null comes behind the others; `run` has not begun then.
unfoldable pub add_channel : AlertDispatcher → Option Bytes → AlertDispatcher
add_channel d none = d
add_channel d (some name) = record d { channels = d.channels ++ name ∷ [] }

-- The calls of the other threads, and one round of the loop after its wait: the system clock, and
-- whether `send` of a channel returns.
pub data Event : Type 0 where
  dispatch : Alert → Event
  stop : Event
  request_stop : Event
  round : ℕ → (Bytes → Bool) → Event

-- The loop over the channels: an exception is caught, and the next channel follows.
unfoldable pub send_all : (Bytes → Bool) → List Bytes → List (Bytes × Bool)
send_all returns [] = []
send_all returns (name ∷ channels) = (name, returns name) ∷ send_all returns channels

unfoldable pub entry : Bool → Alert → ℕ → (Bytes → Bool) → List Bytes → Outgoing
unfolding send_all
entry true alert now_ms returns channels = suppressed alert now_ms
entry false alert now_ms returns channels = tried alert now_ms (send_all returns channels)

-- An alert that was popped.
unfoldable pub handle : AlertDispatcher → Alert → List Alert → ℕ → (Bytes → Bool) → AlertDispatcher
unfolding entry
handle d alert queue now_ms returns =
    let (deduplicator, suppress) = should_suppress d.deduplicator alert now_ms in
    record d {
      queue = queue;
      deduplicator = deduplicator;
      log = d.log ++ entry suppress alert now_ms returns d.channels ∷ [];
    }

unfoldable pub is_shutdown : AlertDispatcher → Bool
is_shutdown d = not d.running || d.stop_requested

unfoldable pub run_round : AlertDispatcher → List Alert → ℕ → (Bytes → Bool) → AlertDispatcher
unfolding handle is_shutdown
run_round d [] now_ms returns = if is_shutdown d then record d { ended = true } else d
run_round d (alert ∷ queue) now_ms returns = handle d alert queue now_ms returns

-- Once the loop is over, there are no more rounds.
unfoldable pub step : AlertDispatcher → Event → AlertDispatcher
unfolding run_round
step d (dispatch alert) = record d { queue = d.queue ++ alert ∷ [] }
step d stop = record d { running = false }
step d request_stop = record d { stop_requested = true }
step d (round now_ms returns) = if d.ended then d else run_round d d.queue now_ms returns

unfoldable pub run : AlertDispatcher → List Event → AlertDispatcher
unfolding step
run d [] = d
run d (event ∷ events) = run (step d event) events
