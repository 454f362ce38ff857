-- ===== src/Dispatcher/Suppressed.antt =====
-- About src/risk/alert_dispatcher.cpp: which alerts are suppressed.
use risk_sentinel.Common.{
  ℕ, ◌+◌, ◌<◌, ◌≡◌, refl, ◌∙◌, subst, Bool, true, false, Option, none, some, List, [], ◌∷◌, ◌++◌,
  Bytes, bytes_eq, if-both, arith,
}
use risk_sentinel.Common.Assoc.{find}
use risk_sentinel.Signal.{Alert}
use risk_sentinel.Dedup.{DeduplicatorConfig, build_key, window_of, make, should_suppress}
use risk_sentinel.Dedup.Window.{should_suppress-cfg, should_suppress-within, within}
use risk_sentinel.Dispatcher.{
  AlertDispatcher, Outgoing, suppressed, tried, Event, dispatch, stop, request_stop, round, started,
  entry, handle, is_shutdown, run_round, step, run,
}
use risk_sentinel.Dispatcher.Stored.{HasSent, Stored, Stored-find, should_suppress-Stored}

-- A suppressed alert repeats one that was sent before: the same key, and a time before the end of the
-- window of its rule.
abbrev pub Repeats : DeduplicatorConfig → List Outgoing → Outgoing → Type 0
Repeats cfg earlier (tried alert now_ms results) = Unit {0}
Repeats cfg earlier (suppressed alert now_ms) =
    (t : ℕ) × HasSent (build_key alert) t earlier × (now_ms < t + window_of cfg alert.rule_type)

-- A log in which each suppressed alert repeats one that stands before it.
pub data OnlyRepeats (cfg : DeduplicatorConfig) : List Outgoing → Type 0 where
  nothing : OnlyRepeats cfg []
  next :
      (earlier : List Outgoing) (out : Outgoing)
      → OnlyRepeats cfg earlier
      → Repeats cfg earlier out
      → OnlyRepeats cfg (earlier ++ out ∷ [])

within-Repeats :
    (cfg : DeduplicatorConfig) (log : List Outgoing) (last : Option ℕ) (alert : Alert) (now_ms : ℕ)
    (b : Bool) (returns : Bytes → Bool) (channels : List Bytes)
    → ((t : ℕ) → last ≡ some t → HasSent (build_key alert) t log)
    → b ≡ within last (window_of cfg alert.rule_type) now_ms
    → Repeats cfg log (entry b alert now_ms returns channels)
unfolding entry
within-Repeats cfg log last alert now_ms false returns channels h e = tt
within-Repeats cfg log none alert now_ms true returns channels h e = absurd (ground (arith, e))
within-Repeats cfg log (some t) alert now_ms true returns channels h e =
    (t, h t refl, ground (arith, e))

-- What each step keeps.
abbrev Inv : DeduplicatorConfig → AlertDispatcher → Type 0
Inv cfg d =
    (d.deduplicator.cfg ≡ cfg) × Stored d.log d.deduplicator.last_fired_ms × OnlyRepeats cfg d.log

handle-Inv :
    (cfg : DeduplicatorConfig) (d : AlertDispatcher) (alert : Alert) (queue : List Alert)
    (now_ms : ℕ) (returns : Bytes → Bool)
    → Inv cfg d
    → Inv cfg (handle d alert queue now_ms returns)
unfolding handle
handle-Inv cfg d alert queue now_ms returns (c, stored, repeats) = (
  (should_suppress-cfg d.deduplicator alert now_ms).0 ∙ c,
  should_suppress-Stored d.log d.deduplicator alert now_ms returns d.channels stored,
  next d.log _ repeats (
      within-Repeats cfg d.log (find (build_key alert) d.deduplicator.last_fired_ms) alert now_ms
        (should_suppress d.deduplicator alert now_ms).1 returns d.channels
        (λ t e. Stored-find d.log (build_key alert) t d.deduplicator.last_fired_ms stored e)
        (subst
          (λ g.
            (should_suppress d.deduplicator alert now_ms).1
            ≡ within (find (build_key alert) d.deduplicator.last_fired_ms)
                (window_of g alert.rule_type) now_ms)
          c (should_suppress-within d.deduplicator alert now_ms))),
)

step-Inv :
    (cfg : DeduplicatorConfig) (d : AlertDispatcher) (event : Event)
    → Inv cfg d
    → Inv cfg (step d event)
unfolding step run_round
step-Inv cfg d (dispatch alert) h = h
step-Inv cfg d stop h = h
step-Inv cfg d request_stop h = h
step-Inv cfg d (round now_ms returns) h =
    if-both (Inv cfg) d.ended _ _ (λ _. h) (λ _. rounds d.queue)
  where
    rounds : (queue : List Alert) → Inv cfg (run_round d queue now_ms returns)
    rounds [] = if-both (Inv cfg) (is_shutdown d) _ _ (λ _. h) (λ _. h)
    rounds (alert ∷ queue) = handle-Inv cfg d alert queue now_ms returns h

run-Inv :
    (cfg : DeduplicatorConfig) (d : AlertDispatcher) (events : List Event)
    → Inv cfg d
    → Inv cfg (run d events)
unfolding run
run-Inv cfg d [] h = h
run-Inv cfg d (event ∷ events) h = run-Inv cfg (step d event) events (step-Inv cfg d event h)

-- Whatever the threads do, each alert that was suppressed repeats one that was sent to the channels
-- before it: one with the same key, sent less than the window of its rule ago.
pub run-OnlyRepeats :
    (channels : List Bytes) (cfg : DeduplicatorConfig) (events : List Event)
    → OnlyRepeats cfg (run (started channels cfg) events).log
unfolding started make
run-OnlyRepeats channels cfg events =
    (run-Inv cfg (started channels cfg) events (refl, tt, nothing)).2
