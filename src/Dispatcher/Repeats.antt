-- ===== src/Dispatcher/Repeats.antt =====
-- About src/risk/alert_dispatcher.cpp: alerts with one key, and the windows between them.
use risk_sentinel.Common.{
  ℕ, ◌+◌, ◌≤◌, ◌≡◌, refl, ap, sym, subst, ◌∙◌, Bool, true, false, List, [], ◌∷◌, ◌++◌, Bytes,
  if-both, map, arith, All, Bool-cases, inl, inr, ltb, ltb→lt,
}
use risk_sentinel.Signal.{Alert}
use risk_sentinel.Dedup.{
  AlertDeduplicator, DeduplicatorConfig, build_key, window_of, should_suppress,
}
use risk_sentinel.Dedup as Dedup
use risk_sentinel.Dedup.Key.{IsKeyable}
use risk_sentinel.Dedup.Repeats.{IsCallBefore, no_repeat_within_window}
use risk_sentinel.Dedup.Repeats as Calls
use risk_sentinel.Dispatcher.{
  AlertDispatcher, Outgoing, suppressed, tried, Event, dispatch, stop, request_stop, round, started,
  entry, handle, is_shutdown, run_round, step, run,
}

-- An outgoing alert as a call of `should_suppress`, and whether it passed.
abbrev pub call_of : Outgoing → Alert × ℕ
call_of (suppressed alert now_ms) = (alert, now_ms)
call_of (tried alert now_ms results) = (alert, now_ms)

abbrev pub is_suppressed : Outgoing → Bool
is_suppressed (suppressed alert now_ms) = true
is_suppressed (tried alert now_ms results) = false

-- The log is what the deduplicator decides, one call after the other.
abbrev pub IsDecided : AlertDeduplicator → List Outgoing → Type 0
IsDecided d [] = Unit {0}
IsDecided d (o ∷ log) =
    ((should_suppress d (call_of o).0 (call_of o).1).1 ≡ is_suppressed o)
    × IsDecided (should_suppress d (call_of o).0 (call_of o).1).0 log

abbrev pub calls : List Outgoing → List (Alert × ℕ)
calls log = map call_of log

calls-append :
    (log : List Outgoing) (o : Outgoing) → calls (log ++ o ∷ []) ≡ calls log ++ call_of o ∷ []
calls-append [] o = refl
calls-append (x ∷ log) o = ap (λ t. call_of x ∷ t) (calls-append log o)

run-append :
    (d : AlertDeduplicator) (xs : List (Alert × ℕ)) (c : Alert × ℕ)
    → Calls.run d (xs ++ c ∷ []) ≡ (should_suppress (Calls.run d xs) c.0 c.1).0
run-append d [] c = refl
run-append d (x ∷ xs) c = run-append (should_suppress d x.0 x.1).0 xs c

IsDecided-append :
    (d : AlertDeduplicator) (log : List Outgoing) (o : Outgoing)
    → IsDecided d log
    → (should_suppress (Calls.run d (calls log)) (call_of o).0 (call_of o).1).1 ≡ is_suppressed o
    → IsDecided d (log ++ o ∷ [])
IsDecided-append d [] o h e = (e, tt)
IsDecided-append d (x ∷ log) o h e =
    (h.0, IsDecided-append (should_suppress d (call_of x).0 (call_of x).1).0 log o h.1 e)

IsDecided-at :
    (d : AlertDeduplicator) (log : List Outgoing) (o : Outgoing) (rest : List Outgoing)
    → IsDecided d (log ++ o ∷ rest)
    → IsDecided (Calls.run d (calls log)) (o ∷ rest)
IsDecided-at d [] o rest h = h
IsDecided-at d (x ∷ log) o rest h =
    IsDecided-at (should_suppress d (call_of x).0 (call_of x).1).0 log o rest h.1

entry-call :
    (b : Bool) (alert : Alert) (now_ms : ℕ) (returns : Bytes → Bool) (channels : List Bytes)
    → (call_of (entry b alert now_ms returns channels) ≡ (alert, now_ms))
      × (is_suppressed (entry b alert now_ms returns channels) ≡ b)
unfolding entry
entry-call true alert now_ms returns channels = (refl, refl)
entry-call false alert now_ms returns channels = (refl, refl)

-- The deduplicator has seen the calls of the log, and the log is what it decided.
abbrev pub Follows : AlertDeduplicator → AlertDispatcher → Type 0
Follows start d = (d.deduplicator ≡ Calls.run start (calls d.log)) × IsDecided start d.log

handle-Follows :
    (start : AlertDeduplicator) (d : AlertDispatcher) (alert : Alert) (queue : List Alert)
    (now_ms : ℕ) (returns : Bytes → Bool)
    → Follows start d
    → Follows start (handle d alert queue now_ms returns)
unfolding handle
handle-Follows start d alert queue now_ms returns (e, h) =
    let b = (should_suppress d.deduplicator alert now_ms).1 in
    let o = entry b alert now_ms returns d.channels in
    let (c, s) = entry-call b alert now_ms returns d.channels in
    (
      sym (
          ap (Calls.run start) (calls-append d.log o)
          ∙ (run-append start (calls d.log) (call_of o) ∙ rw (c, ← e) refl)),
      IsDecided-append start d.log o h (rw (c, ← e) (sym s)),
    )

step-Follows :
    (start : AlertDeduplicator) (d : AlertDispatcher) (event : Event)
    → Follows start d
    → Follows start (step d event)
unfolding step run_round
step-Follows start d (dispatch alert) h = h
step-Follows start d stop h = h
step-Follows start d request_stop h = h
step-Follows start d (round now_ms returns) h =
    if-both (Follows start) d.ended _ _ (λ _. h) (λ _. rounds d.queue)
  where
    rounds : (queue : List Alert) → Follows start (run_round d queue now_ms returns)
    rounds [] = if-both (Follows start) (is_shutdown d) _ _ (λ _. h) (λ _. h)
    rounds (alert ∷ queue) = handle-Follows start d alert queue now_ms returns h

run-Follows :
    (start : AlertDeduplicator) (d : AlertDispatcher) (events : List Event)
    → Follows start d
    → Follows start (run d events)
unfolding run
run-Follows start d [] h = h
run-Follows start d (event ∷ events) h =
    run-Follows start (step d event) events (step-Follows start d event h)

run-IsDecided :
    (channels : List Bytes) (cfg : DeduplicatorConfig) (events : List Event)
    → IsDecided (Dedup.make cfg) (run (started channels cfg) events).log
unfolding started
run-IsDecided channels cfg events =
    (run-Follows (Dedup.make cfg) (started channels cfg) events (refl, tt)).1

-- If two alerts with one key were both sent to the channels, the window of their rule lies between
-- them, provided that the alerts handled in between were handled before the end of that window,
-- and that all of these have identifiers of 64 bits and rule names without a bar.
pub sent-window :
    (channels : List Bytes) (cfg : DeduplicatorConfig) (events : List Event)
    (earlier between after : List Outgoing) (a b : Alert) (t now_ms : ℕ)
    (first second : List (Bytes × Bool))
    → (run (started channels cfg) events).log
      ≡ earlier ++ tried a t first ∷ (between ++ tried b now_ms second ∷ after)
    → IsKeyable a
    → IsKeyable b
    → build_key b ≡ build_key a
    → All (IsCallBefore (t + window_of cfg a.rule_type)) (calls between)
    → t + window_of cfg a.rule_type ≤ now_ms
sent-window channels cfg events earlier between after a b t now_ms first second e ha hb k before =
    let start = Dedup.make cfg in
    let decided = subst (IsDecided start) e (run-IsDecided channels cfg events) in
    let (passed, rest) =
      IsDecided-at start earlier (tried a t first) (between ++ tried b now_ms second ∷ after)
        decided in
    let second_passed =
      (IsDecided-at (should_suppress (Calls.run start (calls earlier)) a t).0 between
        (tried b now_ms second) after rest).0 in
    elim (Bool-cases (ltb now_ms (t + window_of cfg a.rule_type))) [
      | inl soon ↦ absurd (
          true_is_not_false (
            sym (
              no_repeat_within_window cfg (calls earlier) (calls between) a b t now_ms ha hb k
                before (ltb→lt _ _ soon) passed)
            ∙ second_passed))
      | inr late ↦ not_before now_ms (t + window_of cfg a.rule_type) late
    ]
  where
    true_is_not_false : ◌≡◌ {A = Bool} true false → ⊥
    true_is_not_false h = cc

    not_before : (x y : ℕ) → ltb x y ≡ false → y ≤ x
    not_before x y h = ground arith
