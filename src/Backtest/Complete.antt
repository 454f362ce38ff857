-- ===== src/Backtest/Complete.antt =====
-- About src/backtest/backtest_app.cpp: a backtest from the chain to its channel.
use risk_sentinel.Common.{
  ℕ, ◌+◌, ◌≡◌, refl, sym, ◌∙◌, ap, subst, Bool, true, false, List, [], ◌∷◌, ◌++◌, map, append-nil,
  Bytes, codes, length, All, if-both, ◌==◌, arith,
}
use risk_sentinel.Signal.{Signal, Alert}
use risk_sentinel.EventSource
use risk_sentinel.EventSource.{Surroundings}
use risk_sentinel.EventSource.Polls.{AnswersBelow}
use risk_sentinel.EventSource.Coverage.{Covered, run-Covered}
use risk_sentinel.EventSource.Commands.{run-no_stops}
use risk_sentinel.Engine
use risk_sentinel.Engine.{Turn, front, empty}
use risk_sentinel.Engine.AnyRule.{AnyRule, any_rule}
use risk_sentinel.Engine.Drain.{stops, any_stops, handle_all}
use risk_sentinel.Engine.Idle.{found, run-found}
use risk_sentinel.Dispatcher
use risk_sentinel.Dispatcher.{
  AlertDispatcher, Outgoing, Event, dispatch, round, started, step, run_round, handle, is_shutdown,
}
use risk_sentinel.Dispatcher.Order.{alert_of, dispatched, run-dispatched}
use risk_sentinel.Dispatcher.Channels.{TriesAll, run-TriesAll}
use risk_sentinel.Dispatcher.Suppressed.{OnlyRepeats, run-OnlyRepeats}
use risk_sentinel.Dispatcher.Ending.{IsOver, rounds, run-ends}
use risk_sentinel.Backtest.Config.{BacktestConfig}
use risk_sentinel.Backtest.App.{
  es_cfg, registered, dispatcher, dedup_cfg, poison_pill, tried_until, queued,
}

-- What the other threads do to the dispatcher before the stop: they dispatch, and it goes round.
abbrev pub NoStops : List Event → Type 0
NoStops [] = Unit {0}
NoStops (dispatch alert ∷ events) = NoStops events
NoStops (round now_ms returns ∷ events) = NoStops events
NoStops (_ ∷ events) = ⊥

dispatched-append :
    (events more : List Event) → dispatched (events ++ more) ≡ dispatched events ++ dispatched more
dispatched-append [] more = refl
dispatched-append (dispatch alert ∷ events) more =
    ap (λ l. alert ∷ l) (dispatched-append events more)
dispatched-append (Event.stop ∷ events) more = dispatched-append events more
dispatched-append (Event.request_stop ∷ events) more = dispatched-append events more
dispatched-append (round now_ms returns ∷ events) more = dispatched-append events more

dispatched-rounds : (turns : List (ℕ × (Bytes → Bool))) → dispatched (rounds turns) ≡ []
dispatched-rounds [] = refl
dispatched-rounds ((now_ms, returns) ∷ turns) = dispatched-rounds turns

run-append :
    (d : AlertDispatcher) (events more : List Event)
    → Dispatcher.run d (events ++ more) ≡ Dispatcher.run (Dispatcher.run d events) more
unfolding Dispatcher.run
run-append d [] more = refl
run-append d (event ∷ events) more = run-append (step d event) events more

abbrev IsOpen : AlertDispatcher → Type 0
IsOpen d = (is_shutdown d ≡ false) × (d.ended ≡ false)

round-IsOpen :
    (d : AlertDispatcher) (queue : List Alert) (now_ms : ℕ) (returns : Bytes → Bool)
    → IsOpen d
    → IsOpen (run_round d queue now_ms returns)
unfolding run_round handle is_shutdown
round-IsOpen d [] now_ms returns (s, e) = rw s (s, e)
round-IsOpen d (alert ∷ queue) now_ms returns h = h

run-IsOpen :
    (d : AlertDispatcher) (events : List Event)
    → NoStops events
    → IsOpen d
    → IsOpen (Dispatcher.run d events)
unfolding Dispatcher.run step is_shutdown
run-IsOpen d [] n h = h
run-IsOpen d (dispatch alert ∷ events) n h = run-IsOpen (step d (dispatch alert)) events n h
run-IsOpen d (Event.stop ∷ events) n h = absurd n
run-IsOpen d (Event.request_stop ∷ events) n h = absurd n
run-IsOpen d (round now_ms returns ∷ events) n h =
    run-IsOpen (step d (round now_ms returns)) events n
      (if-both IsOpen d.ended _ _ (λ _. h) (λ _. round-IsOpen d d.queue now_ms returns h))

-- The dispatcher's thread over the whole backtest: `stop()` comes behind the events, and `after` are
-- the rounds up to the join.
abbrev pub dispatched_run : List Event → List (ℕ × (Bytes → Bool)) → AlertDispatcher
dispatched_run events after = Dispatcher.run dispatcher (events ++ Event.stop ∷ rounds after)

dispatched_run-IsOver :
    (events : List Event) (after : List (ℕ × (Bytes → Bool)))
    → NoStops events
    → length after ≡ length (Dispatcher.run dispatcher events).queue + 1
    → IsOver (dispatched_run events after)
unfolding dispatcher started step is_shutdown Dispatcher.run
dispatched_run-IsOver events after n len =
    let d = Dispatcher.run dispatcher events in
    let open_too : IsOpen d = run-IsOpen dispatcher events n (refl, refl) in
    subst IsOver (sym (run-append dispatcher events (Event.stop ∷ rounds after)))
      (run-ends (record d { running = false }) d.queue after refl refl open_too.1 len)

dispatched_run-log :
    (events : List Event) (after : List (ℕ × (Bytes → Bool)))
    → IsOver (dispatched_run events after)
    → map alert_of (dispatched_run events after).log ≡ dispatched events
unfolding dispatcher
dispatched_run-log events after over =
    let d = dispatched_run events after in
    sym (append-nil (map alert_of d.log))
    ∙ (ap (λ (q : List Alert). map alert_of d.log ++ q) (sym over.1)
        ∙ (run-dispatched (codes "file" ∷ []) dedup_cfg (events ++ Event.stop ∷ rounds after)
            ∙ (dispatched-append events (Event.stop ∷ rounds after)
                ∙ (ap (λ (l : List Alert). dispatched events ++ l) (dispatched-rounds after)
                    ∙ append-nil (dispatched events)))))

pill_stops : stops poison_pill ≡ true
unfolding poison_pill Engine.is_stop
pill_stops = refl

-- The signals that the source of a backtest pushes while it runs.
abbrev pub pushed : BacktestConfig → ℕ → List Surroundings → List Signal
pushed cfg chain_id polls = (EventSource.run (EventSource.make (es_cfg cfg) chain_id) polls).out

pushed-no_stops :
    (cfg : BacktestConfig) (chain_id : ℕ) (polls : List Surroundings)
    → any_stops (pushed cfg chain_id polls) ≡ false
unfolding EventSource.make
pushed-no_stops cfg chain_id polls =
    run-no_stops (EventSource.make (es_cfg cfg) chain_id) polls refl

but_last : List Signal → List Signal
but_last [] = []
but_last (s ∷ []) = []
but_last (s ∷ t ∷ l) = s ∷ but_last (t ∷ l)

but_last-append : (l : List Signal) (s : Signal) → but_last (l ++ s ∷ []) ≡ l
unfolding but_last
but_last-append [] s = refl
but_last-append (a ∷ []) s = refl
but_last-append (a ∷ b ∷ l) s = ap (λ (r : List Signal). a ∷ r) (but_last-append (b ∷ l) s)

found-append :
    (turns : List Turn) (s : Signal) → found (turns ++ front s ∷ []) ≡ found turns ++ s ∷ []
found-append [] s = refl
found-append (front t ∷ turns) s = ap (λ (r : List Signal). t ∷ r) (found-append turns s)
found-append (empty ∷ turns) s = found-append turns s

-- The rounds before the pill find what was pushed before it.
before_pill :
    (turns : List Turn) (attempts : List Bool) (signals : List Signal)
    → tried_until attempts ≡ true
    → found (turns ++ front poison_pill ∷ []) ≡ queued attempts signals
    → found turns ≡ signals
unfolding queued
before_pill turns attempts signals t f =
    sym (but_last-append (found turns) poison_pill)
    ∙ (ap but_last (sym (found-append turns poison_pill) ∙ (f ∙ rw t refl))
        ∙ but_last-append signals poison_pill)

source_covers :
    (cfg : BacktestConfig) (chain_id : ℕ) (polls : List Surroundings)
    → cfg.end_block == 0 ≡ false
    → All AnswersBelow polls
    → Covered polls
        (EventSource.make (es_cfg cfg) chain_id)
        (EventSource.run (EventSource.make (es_cfg cfg) chain_id) polls)
unfolding EventSource.make es_cfg
source_covers cfg chain_id polls ending below =
    run-Covered (EventSource.make (es_cfg cfg) chain_id) polls
      (omega arith, omega arith, omega arith) (ground (arith, ending)) below

-- A backtest from the chain to the file. Whatever the chain answers, with heads below 2 ^ 62, the signals
-- that the source pushes are those that `Covered` describes: of all the logs that the chain answers for
-- neighbouring ranges from the first block on, up to the cursor, with parts of the batches at which
-- `normalize` threw in between; a poll does nothing only if the chain refuses a request or has no new
-- block, or if it is the first that is told the head in a backtest from block 0 on. However often the
-- engine finds its queue empty in between: if the poison pill gets into the ring buffer in time, and the engine finds all that is in the buffer, the pill last, and then nothing,
-- it has drained its queue, and what it dispatched are the alerts that its rules raise on these signals,
-- in order. If the dispatcher's thread gets these before its stop, and then goes round once for each
-- alert that is left and once more, it ends with an empty queue, and each of the alerts, in order, was
-- tried at the file channel or suppressed, and then an alert with the same key was tried before, less
-- than the window of the rule ago.
pub run_complete :
    (cfg : BacktestConfig) (chain_id : ℕ) (polls : List Surroundings) (attempts : List Bool)
    (turns rest : List Turn) (events : List Event) (after : List (ℕ × (Bytes → Bool)))
    → cfg.end_block == 0 ≡ false
    → All AnswersBelow polls
    → tried_until attempts ≡ true
    → found (turns ++ front poison_pill ∷ []) ≡ queued attempts (pushed cfg chain_id polls)
    → NoStops events
    → let alerts = (handle_all (registered cfg) (pushed cfg chain_id polls) []).1 in
      let engine =
        Engine.run (registered cfg) false [] (turns ++ front poison_pill ∷ empty ∷ rest) in
      dispatched events ≡ engine.1
      → length after ≡ length (Dispatcher.run dispatcher events).queue + 1
      → Covered polls
          (EventSource.make (es_cfg cfg) chain_id)
          (EventSource.run (EventSource.make (es_cfg cfg) chain_id) polls)
        × (engine.1 ≡ alerts)
        × (engine.2 ≡ true)
        × IsOver (dispatched_run events after)
        × (map alert_of (dispatched_run events after).log ≡ alerts)
        × All (TriesAll (codes "file" ∷ [])) (dispatched_run events after).log
        × OnlyRepeats dedup_cfg (dispatched_run events after).log
unfolding dispatcher
run_complete cfg chain_id polls attempts turns rest events after ending below tried filled n e len =
    let f = before_pill turns attempts (pushed cfg chain_id polls) tried filled in
    let none_stops =
      subst (λ (l : List Signal). any_stops l ≡ false) (sym f)
        (pushed-no_stops cfg chain_id polls) in
    let ran = run-found (registered cfg) [] turns poison_pill rest none_stops pill_stops in
    let same = ap (λ (l : List Signal). (handle_all (registered cfg) l []).1) f in
    let alerts_are = ap (λ (r : Engine.RiskEngine AnyRule × List Alert × Bool). r.1) ran ∙ same in
    let over = dispatched_run-IsOver events after n len in
    (
      source_covers cfg chain_id polls ending below,
      alerts_are,
      ap (λ (r : Engine.RiskEngine AnyRule × List Alert × Bool). r.2) ran,
      over,
      dispatched_run-log events after over ∙ (e ∙ alerts_are),
      run-TriesAll (codes "file" ∷ []) dedup_cfg (events ++ Event.stop ∷ rounds after),
      run-OnlyRepeats (codes "file" ∷ []) dedup_cfg (events ++ Event.stop ∷ rounds after),
    )
