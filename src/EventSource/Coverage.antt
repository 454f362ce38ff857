-- ===== src/EventSource/Coverage.antt =====
-- About src/events/EventSource.cpp: the blocks and signals of a run of polls.
use risk_sentinel.Common.{
  ℕ, ◌+◌, ◌^◌, ◌<◌, ◌≡◌, refl, ap, subst, sym, ◌∙◌, Bool, true, not, ◌&&◌, ◌||◌, ltb, ◌==◌, List,
  [], ◌∷◌, ◌++◌, Outcome, ok, err, if-both, All, inl, inr, append_assoc, append-nil,
}
use risk_sentinel.Signal.{Signal}
use risk_sentinel.Normalize.{RawLog}
use risk_sentinel.EventSource.{
  EventSource, EventSourceConfig, Surroundings, capped, advance, deliver, fetch_batch, with_head,
  poll_once, run,
}
use risk_sentinel.EventSource.Polls.{
  Polled, IsReady, IsWarm, AnswersBelow, poll_once-Polled, capped-lt,
}
use risk_sentinel.EventSource.Deliveries.{
  Deliveries, no_more, exhausted, idle, batch, part, colder, never_cold, settled_first,
}

-- A poll keeps the configuration and the chain, the head and the start stay as they should, and a source
-- does not get cold.
abbrev pub Keeps : EventSource → EventSource → Type 0
Keeps s s' =
    (s'.cfg ≡ s.cfg)
    × (s'.chain_id ≡ s.chain_id)
    × (s'.cached_chain_head < 2 ^ 62)
    × IsWarm s'
    × (s'.cold_start ≡ true → s.cold_start ≡ true)

advance-Keeps :
    (s : EventSource) (to : ℕ) (result : List Signal × Outcome (Unit {0}))
    → s.cached_chain_head < 2 ^ 62
    → IsWarm s
    → Keeps s (advance s to result).0
unfolding advance
advance-Keeps s to (out, ok _) h w = (refl, refl, h, w, λ c. c)
advance-Keeps s to (out, err e) h w = (refl, refl, h, w, λ c. c)

deliver-Keeps :
    (s : EventSource) (around : Surroundings) (result : Outcome (ℕ × List RawLog))
    → s.cached_chain_head < 2 ^ 62
    → IsWarm s
    → Keeps s (deliver s around result).0
unfolding deliver
deliver-Keeps s around (err e) h w = (refl, refl, h, w, λ c. c)
deliver-Keeps s around (ok (to, logs)) h w = advance-Keeps s to _ h w

fetch_batch-Keeps :
    (s : EventSource) (around : Surroundings)
    → s.cached_chain_head < 2 ^ 62
    → IsWarm s
    → Keeps s (fetch_batch s around).0
unfolding fetch_batch
fetch_batch-Keeps s around h w =
    if-both (λ (p : EventSource × Outcome Bool). Keeps s p.0) (ltb s.cached_chain_head s.next_block)
      _ _ (λ _. (refl, refl, h, w, λ c. c)) (λ _. deliver-Keeps s around _ h w)

with_head-Keeps :
    (s : EventSource) (around : Surroundings) (answer : Outcome ℕ)
    → ((head : ℕ) → answer ≡ ok head → head < 2 ^ 62)
    → s.cached_chain_head < 2 ^ 62
    → IsWarm s
    → Keeps s (with_head s around answer).0
unfolding with_head
with_head-Keeps s around (err e) below h w = (refl, refl, h, w, λ c. c)
with_head-Keeps s around (ok latest) below h w =
    let lt = capped-lt s.cfg latest (below latest refl) in
    if-both (λ (p : EventSource × Outcome Bool). Keeps s p.0) s.cold_start _ _
      (λ _. (refl, refl, lt, refl, λ c. absurd (never_cold c)))
      (λ _. fetch_batch-Keeps (record s { cached_chain_head = capped s.cfg latest }) around lt w)

poll_once-Keeps :
    (s : EventSource) (around : Surroundings)
    → AnswersBelow around
    → s.cached_chain_head < 2 ^ 62
    → IsWarm s
    → Keeps s (poll_once s around).0
unfolding poll_once
poll_once-Keeps s around below h w =
    if-both (λ (p : EventSource × Outcome Bool). Keeps s p.0)
      (s.cached_chain_head == 0 || ltb s.cached_chain_head s.next_block) _ _
      (λ _. with_head-Keeps s around around.latest_block below h w)
      (λ _. fetch_batch-Keeps s around h w)

-- What the polls do from one state to another.
abbrev pub Covered : List Surroundings → EventSource → EventSource → Type 0
Covered polls s s' =
    (pushed : List Signal) × (s'.out ≡ s.out ++ pushed)
    × Deliveries s.chain_id s.cfg.backtest_end_block s.cold_start polls s.next_block s'.next_block
        pushed

-- The deliveries of a state that has the same cursor, chain and last block.
moved :
    (polls : List Surroundings) (s t u : EventSource) (a : ℕ) (pushed : List Signal)
    → t.cfg ≡ s.cfg
    → t.chain_id ≡ s.chain_id
    → t.next_block ≡ a
    → Deliveries t.chain_id t.cfg.backtest_end_block t.cold_start polls t.next_block u.next_block
        pushed
    → Deliveries s.chain_id s.cfg.backtest_end_block t.cold_start polls a u.next_block pushed
moved polls s t u a pushed c i n d =
    subst
      (λ x. Deliveries s.chain_id s.cfg.backtest_end_block t.cold_start polls x u.next_block pushed)
      n
      (subst
        (λ x.
          Deliveries x s.cfg.backtest_end_block t.cold_start polls t.next_block u.next_block pushed)
        i
        (subst
          (λ (x : EventSourceConfig).
            Deliveries t.chain_id x.backtest_end_block t.cold_start polls t.next_block u.next_block
              pushed)
          c d))

-- One poll before a run.
poll-Covered :
    (s t u : EventSource) (around : Surroundings) (polls : List Surroundings)
    → Polled s around t
    → t.cfg ≡ s.cfg
    → t.chain_id ≡ s.chain_id
    → (t.cold_start ≡ true → s.cold_start ≡ true)
    → Covered polls t u
    → Covered (around ∷ polls) s u
poll-Covered s t u around polls (inl (n, o, inl stuck)) c i cold (pushed, e, d) = (
  pushed,
  e ∙ ap (λ l. l ++ pushed) o,
  idle around stuck (
      colder t.cold_start s.cold_start _ _ _ _ cold
        (moved polls s t u s.next_block pushed c i n d)),
)
poll-Covered s t u around polls (inl (n, o, inr (latest, told, was, is))) c i cold (pushed, e, d) =
    (
      pushed,
      e ∙ ap (λ l. l ++ pushed) o,
      settled_first s.cold_start t.cold_start around latest _ _ _ _ told was is
          (moved polls s t u s.next_block pushed c i n d),
    )
poll-Covered s t u around polls (inr (inl (to, timestamp, logs, signals, g, h, n, o))) c i cold
      (pushed, e, d) =
    (
      signals ++ pushed,
      e ∙ (ap (λ l. l ++ pushed) o ∙ append_assoc s.out signals pushed),
      part around to timestamp logs signals g h (
          colder t.cold_start s.cold_start _ _ _ _ cold
            (moved polls s t u s.next_block pushed c i n d)),
    )
poll-Covered s t u around polls (inr (inr (to, timestamp, logs, signals, le, g, h, n, o))) c i cold
      (pushed, e, d) =
    (
      signals ++ pushed,
      e ∙ (ap (λ l. l ++ pushed) o ∙ append_assoc s.out signals pushed),
      batch around to timestamp logs signals le g h (
          colder t.cold_start s.cold_start _ _ _ _ cold
            (moved polls s t u (to + 1) pushed c i n d)),
    )

-- Whatever the chain answers to a run of polls, each poll in turn, as the chain answers in this poll,
-- asks for a range from the cursor on and pushes the signals of all the logs that it is answered, in
-- order, with the cursor right behind the range; or `normalize` throws at one of these logs, and those
-- before it are pushed, with the cursor where it was; or the poll leaves cursor and buffer alone, which
-- it does only if the chain does not tell its head, the cursor is past the head or past the last block,
-- or a range from the cursor on is refused, and in the first poll that is told the head by a source
-- that started without a checkpoint. So the buffer holds batches of neighbouring ranges up to the
-- cursor, with parts of batches in between. The run ends with its polls or, in a backtest, once the
-- cursor is past the last block. Provided that the jump to the head is behind, that heads and the least
-- range are below 2 ^ 62, and that the least range is not zero.
pub run-Covered :
    (s : EventSource) (polls : List Surroundings)
    → IsReady s.cfg s.cached_chain_head
    → IsWarm s
    → All AnswersBelow polls
    → Covered polls s (run s polls)
unfolding run
run-Covered s [] ready warm below = ([], sym (append-nil s.out), no_more s.cold_start s.next_block)
run-Covered s (around ∷ polls) ready warm below =
    let t = (poll_once s around).0 in
    let (c, i, h, w, cold) = poll_once-Keeps s around below.0 ready.2 warm in
    let (low, high, _) = ready in
    if-both (Covered (around ∷ polls) s)
      (not (s.cfg.backtest_end_block == 0) && ltb s.cfg.backtest_end_block s.next_block) _ _
      (λ past.
        ([], sym (append-nil s.out), exhausted s.cold_start (around ∷ polls) s.next_block past))
      (λ _.
        poll-Covered s t (run t polls) around polls (poll_once-Polled s around ready warm below.0) c
          i cold
          (run-Covered t polls
            (
              subst (λ (cfg : EventSourceConfig). 0 < cfg.min_block_range) (sym c) low,
              subst (λ (cfg : EventSourceConfig). cfg.min_block_range < 2 ^ 62) (sym c) high,
              h,
            )
            w below.1))
