-- ===== src/EventSource/Head.antt =====
-- About src/events/EventSource.cpp: the cursor against the head of the chain.
use risk_sentinel.Common.{
  ℕ, ◌+◌, ◌^◌, ◌<◌, ◌≤◌, ◌≡◌, refl, max, Bool, ◌||◌, ltb, ◌==◌, List, Outcome, ok, err, arith,
  if◌then◌else◌, if-both,
}
use risk_sentinel.Signal.{Signal}
use risk_sentinel.Normalize.{RawLog}
use risk_sentinel.EventSource.{
  EventSource, EventSourceConfig, Surroundings, fetch, to_block, first_range, capped, advance,
  deliver, fetch_batch, with_head, poll_once,
}
use risk_sentinel.EventSource.Fetch.{fetch-Fetched}
use risk_sentinel.EventSource.Polls.{AnswersBelow, capped-lt, range_least}

-- The cursor is where it was, or at most right behind the head.
abbrev pub IsBehind : EventSource → EventSource → Type 0
IsBehind s s' = s'.next_block ≤ max s.next_block (s'.cached_chain_head + 1)

advance-IsBehind :
    (s : EventSource) (to : ℕ) (result : List Signal × Outcome (Unit {0}))
    → to ≤ s.cached_chain_head
    → IsBehind s (advance s to result).0
unfolding advance
advance-IsBehind s to (out, ok _) h = omega (arith, h)
advance-IsBehind s to (out, err e) h = omega arith

deliver-IsBehind :
    (s : EventSource) (around : Surroundings) (result : Outcome (ℕ × List RawLog))
    → ((to : ℕ) (logs : List RawLog) → result ≡ ok (to, logs) → to ≤ s.cached_chain_head)
    → IsBehind s (deliver s around result).0
unfolding deliver
deliver-IsBehind s around (err e) h = omega arith
deliver-IsBehind s around (ok (to, logs)) h = advance-IsBehind s to _ (h to logs refl)

end_below :
    (cfg : EventSourceConfig) (next head r : ℕ)
    → cfg.min_block_range ≡ 1
    → head < 2 ^ 62
    → next ≤ head
    → r ≤ first_range cfg next head
    → 1 ≤ r
    → to_block next r ≤ head
unfolding first_range to_block
end_below cfg next head r one lt le small least = omega (arith, one, lt, le, least, small)

fetch_batch-IsBehind :
    (s : EventSource) (around : Surroundings)
    → s.cfg.min_block_range ≡ 1
    → s.cached_chain_head < 2 ^ 62
    → IsBehind s (fetch_batch s around).0
unfolding fetch_batch
fetch_batch-IsBehind s around one lt =
    let range = first_range s.cfg s.next_block s.cached_chain_head in
    if-both (λ (p : EventSource × Outcome Bool). IsBehind s p.0)
      (ltb s.cached_chain_head s.next_block) _ _ (λ _. omega arith)
      (λ b.
        deliver-IsBehind s around (fetch (range + 1) s.cfg around s.next_block range) (λ to logs e.
          let (r, le, least, t, g) =
            fetch-Fetched (range + 1) s.cfg around s.next_block range (to, logs)
              (range_least s.cfg s.next_block s.cached_chain_head) e in
          omega (
            arith,
            t,
            end_below s.cfg s.next_block s.cached_chain_head r one lt (ground arith) le
                (omega (arith, one, least)),
          )))

jump_below : (b : Bool) (head next : ℕ) → (if b then head else next) ≤ max next (head + 1)
jump_below b head next = ground arith

with_head-IsBehind :
    (s : EventSource) (around : Surroundings) (answer : Outcome ℕ)
    → ((head : ℕ) → answer ≡ ok head → head < 2 ^ 62)
    → s.cfg.min_block_range ≡ 1
    → IsBehind s (with_head s around answer).0
unfolding with_head
with_head-IsBehind s around (err e) h one = omega arith
with_head-IsBehind s around (ok latest) h one =
    let head = capped s.cfg latest in
    if-both (λ (p : EventSource × Outcome Bool). IsBehind s p.0) s.cold_start _ _
      (λ _. jump_below (s.cfg.backtest_end_block == 0) head s.next_block)
      (λ _.
        fetch_batch-IsBehind (record s { cached_chain_head = head }) around one
          (capped-lt s.cfg latest (h latest refl)))

-- With the least range of one block and heads below 2 ^ 62, a poll leaves the cursor where it was or
-- moves it to at most the block right behind the head that it knows, so that no block is passed that
-- the chain does not have yet, the jump of a cold start included.
pub poll_once-IsBehind :
    (s : EventSource) (around : Surroundings)
    → s.cfg.min_block_range ≡ 1
    → s.cached_chain_head < 2 ^ 62
    → AnswersBelow around
    → IsBehind s (poll_once s around).0
unfolding poll_once
poll_once-IsBehind s around one lt below =
    if-both (λ (p : EventSource × Outcome Bool). IsBehind s p.0)
      (s.cached_chain_head == 0 || ltb s.cached_chain_head s.next_block) _ _
      (λ _. with_head-IsBehind s around around.latest_block below one)
      (λ _. fetch_batch-IsBehind s around one lt)
