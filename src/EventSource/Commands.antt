-- ===== src/EventSource/Commands.antt =====
-- About src/events/EventSource.cpp: no signal of the source is a command to the engine.
use risk_sentinel.Common.{
  ℕ, ◌+◌, ◌≡◌, refl, Bool, true, false, ◌&&◌, ◌||◌, not, List, [], ◌∷◌, ◌++◌, Outcome, ok, err,
  Outcome-cases, inl, inr, if-both, ltb, ◌==◌, arith, Bytes,
}
use risk_sentinel.Signal.{
  Signal, SignalType, SignalPayload, type_beq, monostate, evm_log, price, snapshot,
  governance_event, control_signal, mint_burn_event, oracle_event,
}
use risk_sentinel.Normalize.{RawLog, normalize}
use risk_sentinel.Normalize.Classes.{Fits, normalize-Fits}
use risk_sentinel.EventSource.{
  EventSource, Surroundings, stamp, push_one, push_all, timestamp_or, advance, deliver, capped,
  fetch_batch, with_head, poll_once, run,
}
use risk_sentinel.Engine.{is_stop}
use risk_sentinel.Engine.Drain.{stops, any_stops}

Fits-no_stop :
    (type : SignalType) (payload : SignalPayload) → Fits type payload → is_stop payload ≡ false
unfolding is_stop
Fits-no_stop type monostate h = absurd h
Fits-no_stop type (evm_log evm) h = refl
Fits-no_stop type (price p) h = absurd h
Fits-no_stop type (snapshot p q) h = absurd h
Fits-no_stop type (governance_event e) h = refl
Fits-no_stop type (control_signal c) h = absurd h
Fits-no_stop type (mint_burn_event e) h = refl
Fits-no_stop type (oracle_event e) h = refl

and_false : (b : Bool) → (b && false) ≡ false
and_false true = refl
and_false false = refl

any_stops-append :
    (xs : List Signal) (s : Signal)
    → any_stops xs ≡ false
    → stops s ≡ false
    → any_stops (xs ++ s ∷ []) ≡ false
any_stops-append [] s h e = rw e refl
any_stops-append (x ∷ xs) s h e = ground (arith, any_stops-append xs s)

stamped_no_stop :
    (raw : RawLog) (chain_id timestamp now_ms : ℕ) (hash : Bytes) (signal : Signal)
    → normalize raw chain_id timestamp hash ≡ ok signal
    → stops (stamp signal now_ms) ≡ false
unfolding stamp
stamped_no_stop raw chain_id timestamp now_ms hash signal e =
    rw
      (Fits-no_stop signal.type signal.payload
        (normalize-Fits raw chain_id timestamp hash signal e))
      (and_false (type_beq signal.type SignalType.control))

push_all-no_stops :
    (around : Surroundings) (chain_id timestamp n : ℕ) (logs : List RawLog) (out : List Signal)
    → any_stops out ≡ false
    → any_stops (push_all around chain_id timestamp n logs out).0 ≡ false
unfolding push_all push_one
push_all-no_stops around chain_id timestamp n [] out h = h
push_all-no_stops around chain_id timestamp n (raw ∷ logs) out h =
    let hash = around.uninitialized n in
    let now_ms = around.steady_now_ms n in
    elim (Outcome-cases (normalize raw chain_id timestamp hash)) [
      | inl (signal, e) ↦ rw e (
          push_all-no_stops around chain_id timestamp (n + 1) logs (out ++ stamp signal now_ms ∷ [])
            (any_stops-append out (stamp signal now_ms) h
              (stamped_no_stop raw chain_id timestamp now_ms hash signal e)))
      | inr (text, e) ↦ rw e h
    ]

abbrev Quiet : EventSource → Type 0
Quiet s = any_stops s.out ≡ false

advance-Quiet :
    (s : EventSource) (to : ℕ) (r : List Signal × Outcome (Unit {0}))
    → any_stops r.0 ≡ false
    → Quiet (advance s to r).0
unfolding advance
advance-Quiet s to (out, err e) h = h
advance-Quiet s to (out, ok u) h = h

deliver-Quiet :
    (s : EventSource) (around : Surroundings) (r : Outcome (ℕ × List RawLog))
    → Quiet s
    → Quiet (deliver s around r).0
unfolding deliver
deliver-Quiet s around (err e) h = h
deliver-Quiet s around (ok (to, logs)) h =
    let timestamp = timestamp_or (around.block_timestamp to) around.system_now_ms in
    advance-Quiet s to (push_all around s.chain_id timestamp 0 logs s.out)
      (push_all-no_stops around s.chain_id timestamp 0 logs s.out h)

fetch_batch-Quiet :
    (s : EventSource) (around : Surroundings) → Quiet s → Quiet (fetch_batch s around).0
unfolding fetch_batch
fetch_batch-Quiet s around h =
    if-both (λ (r : EventSource × Outcome Bool). Quiet r.0) (ltb s.cached_chain_head s.next_block) _
      _ (λ _. h) (λ _. deliver-Quiet s around _ h)

with_head-Quiet :
    (s : EventSource) (around : Surroundings) (r : Outcome ℕ)
    → Quiet s
    → Quiet (with_head s around r).0
unfolding with_head
with_head-Quiet s around (err e) h = h
with_head-Quiet s around (ok latest) h =
    if-both (λ (r : EventSource × Outcome Bool). Quiet r.0) s.cold_start _ _ (λ _. h)
      (λ _. fetch_batch-Quiet (record s { cached_chain_head = capped s.cfg latest }) around h)

poll_once-Quiet : (s : EventSource) (around : Surroundings) → Quiet s → Quiet (poll_once s around).0
unfolding poll_once
poll_once-Quiet s around h =
    if-both (λ (r : EventSource × Outcome Bool). Quiet r.0)
      (s.cached_chain_head == 0 || ltb s.cached_chain_head s.next_block) _ _
      (λ _. with_head-Quiet s around around.latest_block h) (λ _. fetch_batch-Quiet s around h)

-- Whatever the chain answers, a source that has pushed no stop command pushes none.
pub run-no_stops :
    (s : EventSource) (polls : List Surroundings)
    → any_stops s.out ≡ false
    → any_stops (run s polls).out ≡ false
unfolding run
run-no_stops s [] h = h
run-no_stops s (around ∷ polls) h =
    if-both Quiet (not (s.cfg.backtest_end_block == 0) && ltb s.cfg.backtest_end_block s.next_block)
      _ _ (λ _. h) (λ _. run-no_stops (poll_once s around).0 polls (poll_once-Quiet s around h))
