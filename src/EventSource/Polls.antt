-- ===== src/EventSource/Polls.antt =====
-- About src/events/EventSource.cpp: what one poll does to the cursor and the ring buffer.
use risk_sentinel.Common.{
  ℕ, ◌+◌, ◌^◌, ◌<◌, ◌≤◌, ◌≡◌, refl, Bool, true, false, ◌&&◌, ◌||◌, ltb, ◌==◌, List, ◌++◌, Outcome,
  ok, err, Bytes, arith, if◌then◌else◌, if-both, Bool-cases, inl, inr, ◌⊎◌,
}
use risk_sentinel.Signal.{Signal}
use risk_sentinel.Normalize.{RawLog}
use risk_sentinel.EventSource.{
  EventSource, EventSourceConfig, Surroundings, fetch, to_block, first_range, capped, timestamp_or,
  advance, deliver, fetch_batch, with_head, poll_once,
}
use risk_sentinel.EventSource.Pushes.{Emits, Begins, Pushed, push_all-Pushed}
use risk_sentinel.EventSource.Fetch.{fetch-Fetched, Refused, RefusedOr, fetch-RefusedOr}

-- Why a poll can fetch nothing at a cursor: the chain does not tell its head, or the cursor is past the
-- head or past the last block of a backtest, or a range from the cursor on is refused.
abbrev pub IsStuck : ℕ → Surroundings → ℕ → Type 0
IsStuck last around next =
    ((e : Bytes) × (around.latest_block ≡ err e))
    ⊎ ((latest : ℕ) × (around.latest_block ≡ ok latest)
        × ((latest < next) ⊎ ((0 < last) × (last < next))))
    ⊎ Refused around next

-- The poll that ends the start without a checkpoint.
abbrev pub Settles : EventSource → Surroundings → EventSource → Type 0
Settles s around s' =
    (latest : ℕ) × (around.latest_block ≡ ok latest)
    × (s.cold_start ≡ true)
    × (s'.cold_start ≡ false)

-- The three ways a poll can go: nothing is fetched, for a reason; a batch is fetched, and an exception
-- of `normalize` leaves a part of its signals; a batch is fetched and pushed, and the cursor moves behind it.
abbrev pub Idle : EventSource → Surroundings → EventSource → Type 0
Idle s around s' =
    (s'.next_block ≡ s.next_block)
    × (s'.out ≡ s.out)
    × (IsStuck s.cfg.backtest_end_block around s.next_block ⊎ Settles s around s')

abbrev pub Failed : EventSource → Surroundings → EventSource → Type 0
Failed s around s' =
    (to timestamp : ℕ) × (logs : List RawLog) × (signals : List Signal) × (around.get_logs
        s.next_block to
      ≡ ok logs)
    × Begins around s.chain_id timestamp 0 logs signals
    × (s'.next_block ≡ s.next_block)
    × (s'.out ≡ s.out ++ signals)

abbrev pub Advanced : EventSource → Surroundings → EventSource → Type 0
Advanced s around s' =
    (to timestamp : ℕ) × (logs : List RawLog) × (signals : List Signal) × (s.next_block ≤ to)
    × (around.get_logs s.next_block to ≡ ok logs)
    × Emits around s.chain_id timestamp 0 logs signals
    × (s'.next_block ≡ to + 1)
    × (s'.out ≡ s.out ++ signals)

abbrev pub Polled : EventSource → Surroundings → EventSource → Type 0
Polled s around s' = Idle s around s' ⊎ Failed s around s' ⊎ Advanced s around s'

advance-Polled :
    (s : EventSource) (around : Surroundings) (to timestamp : ℕ) (logs : List RawLog)
    (result : List Signal × Outcome (Unit {0}))
    → s.next_block ≤ to
    → to + 1 < 2 ^ 64
    → around.get_logs s.next_block to ≡ ok logs
    → Pushed around s.chain_id timestamp 0 logs s.out result
    → Polled s around (advance s to result).0
unfolding advance
advance-Polled s around to timestamp logs (out, ok _) le lt g (signals, o, h) =
    inr (inr (to, timestamp, logs, signals, le, g, h, omega arith, o))
advance-Polled s around to timestamp logs (out, err e) le lt g (signals, o, h) =
    inr (inl (to, timestamp, logs, signals, g, h, refl, o))

deliver-Polled :
    (s : EventSource) (around : Surroundings) (result : Outcome (ℕ × List RawLog))
    → ((to : ℕ) (logs : List RawLog)
        → result ≡ ok (to, logs)
        → (s.next_block ≤ to) × (to + 1 < 2 ^ 64) × (around.get_logs s.next_block to ≡ ok logs))
    → RefusedOr around s.next_block result
    → Polled s around (deliver s around result).0
unfolding deliver
deliver-Polled s around (err e) h refused = inl (refl, refl, inl (inr (inr refused)))
deliver-Polled s around (ok (to, logs)) h _ =
    let (le, lt, g) = h to logs refl in
    let timestamp = timestamp_or (around.block_timestamp to) around.system_now_ms in
    advance-Polled s around to timestamp logs _ le lt g
      (push_all-Pushed around s.chain_id timestamp 0 logs s.out)

-- Blocks are below 2 ^ 63, and the least range is not zero.
abbrev pub IsReady : EventSourceConfig → ℕ → Type 0
IsReady cfg head = (0 < cfg.min_block_range) × (cfg.min_block_range < 2 ^ 62) × (head < 2 ^ 62)

range_end :
    (cfg : EventSourceConfig) (next head r : ℕ)
    → IsReady cfg head
    → next ≤ head
    → r ≤ first_range cfg next head
    → cfg.min_block_range ≤ r
    → (next ≤ to_block next r) × (to_block next r + 1 < 2 ^ 64)
unfolding first_range to_block
range_end cfg next head r h le small least =
    (omega (arith, h.0, h.1, h.2), omega (arith, h.0, h.1, h.2))

pub range_least :
    (cfg : EventSourceConfig) (next head : ℕ) → cfg.min_block_range ≤ first_range cfg next head
unfolding first_range
range_least cfg next head = omega arith

fetch_batch-Polled :
    (s : EventSource) (around : Surroundings)
    → IsReady s.cfg s.cached_chain_head
    → (ltb s.cached_chain_head s.next_block ≡ true
        → IsStuck s.cfg.backtest_end_block around s.next_block)
    → Polled s around (fetch_batch s around).0
unfolding fetch_batch
fetch_batch-Polled s around h stuck = elim (Bool-cases (ltb s.cached_chain_head s.next_block)) [
  | inl b ↦ rw b (inl (refl, refl, inl (stuck b)))
  | inr b ↦
      let range = first_range s.cfg s.next_block s.cached_chain_head in
      rw b (
        deliver-Polled s around (fetch (range + 1) s.cfg around s.next_block range)
          (λ to logs e.
            let (r, le, least, t, g) =
              fetch-Fetched (range + 1) s.cfg around s.next_block range (to, logs)
                (range_least s.cfg s.next_block s.cached_chain_head) e in
            let (low, high) =
              range_end s.cfg s.next_block s.cached_chain_head r h (ground arith) le least in
            (omega (arith, t, low), omega (arith, t, high), g))
          (fetch-RefusedOr (range + 1) s.cfg around s.next_block range (omega arith)))
]

-- The jump to the head is behind: the first poll is over, or this is a backtest.
abbrev pub IsWarm : EventSource → Type 0
IsWarm s = (s.cold_start && s.cfg.backtest_end_block == 0) ≡ false

abbrev pub AnswersBelow : Surroundings → Type 0
AnswersBelow around = (head : ℕ) → around.latest_block ≡ ok head → head < 2 ^ 62

pub capped-lt : (cfg : EventSourceConfig) (head : ℕ) → head < 2 ^ 62 → capped cfg head < 2 ^ 62
unfolding capped
capped-lt cfg head h = ground arith

jump :
    (a b : ℕ) (cold backtest : Bool)
    → cold ≡ true
    → (cold && backtest) ≡ false
    → (if backtest then a else b) ≡ b
jump a b cold backtest c h = ground arith

capped-stuck :
    (cfg : EventSourceConfig) (latest next : ℕ)
    → ltb (capped cfg latest) next ≡ true
    → (latest < next) ⊎ ((0 < cfg.backtest_end_block) × (cfg.backtest_end_block < next))
unfolding capped
capped-stuck cfg latest next h = ground (arith, h)

with_head-Polled :
    (s : EventSource) (around : Surroundings) (answer : Outcome ℕ)
    → around.latest_block ≡ answer
    → ((head : ℕ) → answer ≡ ok head → IsReady s.cfg head)
    → IsWarm s
    → Polled s around (with_head s around answer).0
unfolding with_head
with_head-Polled s around (err e) a h warm = inl (refl, refl, inl (inl (e, a)))
with_head-Polled s around (ok latest) a h warm =
    let (low, high, lt) = h latest refl in
    if-both (λ (p : EventSource × Outcome Bool). Polled s around p.0) s.cold_start _ _
      (λ c. inl (
        jump (capped s.cfg latest) s.next_block s.cold_start (s.cfg.backtest_end_block == 0) c warm,
        refl,
        inr (latest, a, c, refl),
      ))
      (λ _.
        fetch_batch-Polled (record s { cached_chain_head = capped s.cfg latest }) around
          (low, high, capped-lt s.cfg latest lt)
          (λ b. inr (inl (latest, a, capped-stuck s.cfg latest s.next_block b))))

-- A poll pushes all the signals of the logs from the cursor to a block and moves the cursor right behind
-- that block; or `normalize` throws at a log, those before it are pushed, and the cursor stays; or the
-- poll leaves both alone, which it does only if the chain does not tell its head, the cursor is past the
-- head or past the last block, or a range from the cursor on is refused, and when it ends a start
-- without a checkpoint. Provided that the jump to the head is behind, that heads and the least range
-- are below 2 ^ 62, and that the least range is not zero.
pub poll_once-Polled :
    (s : EventSource) (around : Surroundings)
    → IsReady s.cfg s.cached_chain_head
    → IsWarm s
    → AnswersBelow around
    → Polled s around (poll_once s around).0
unfolding poll_once
poll_once-Polled s around ready warm below =
    if-both (λ (p : EventSource × Outcome Bool). Polled s around p.0)
      (s.cached_chain_head == 0 || ltb s.cached_chain_head s.next_block) _ _
      (λ _.
        with_head-Polled s around around.latest_block refl
          (λ head e. (ready.0, ready.1, below head e)) warm)
      (λ known. fetch_batch-Polled s around ready (λ b. absurd (ground (arith, known, b))))
