-- ===== src/Dispatcher/Channels.antt =====
-- About src/risk/alert_dispatcher.cpp: which channels an alert is tried at.
use risk_sentinel.Common.{
  some, ℕ, ◌≡◌, refl, ap, Bool, true, false, List, [], ◌∷◌, ◌++◌, Bytes, if-both, map, All,
  All-append,
}
use risk_sentinel.Signal.{Alert}
use risk_sentinel.Dedup.{DeduplicatorConfig, should_suppress}
use risk_sentinel.Dispatcher.{
  AlertDispatcher, add_channel, Outgoing, suppressed, tried, Event, dispatch, stop, request_stop,
  round, started, send_all, entry, handle, is_shutdown, run_round, step, run,
}

-- `started` has the channels that were added, in the order of the calls.
started-add_channel :
    (channels : List Bytes) (cfg : DeduplicatorConfig) (name : Bytes)
    → add_channel (started channels cfg) (some name) ≡ started (channels ++ name ∷ []) cfg
unfolding started add_channel
started-add_channel channels cfg name = refl

-- An alert that is not suppressed is tried at every channel, in order, whatever channels throw.
abbrev pub TriesAll : List Bytes → Outgoing → Type 0
TriesAll channels (suppressed alert now_ms) = Unit {0}
TriesAll channels (tried alert now_ms results) = map (λ (r : Bytes × Bool). r.0) results ≡ channels

send_all-names :
    (returns : Bytes → Bool) (channels : List Bytes)
    → map (λ (r : Bytes × Bool). r.0) (send_all returns channels) ≡ channels
unfolding send_all
send_all-names returns [] = refl
send_all-names returns (name ∷ channels) = ap (λ t. name ∷ t) (send_all-names returns channels)

entry-TriesAll :
    (b : Bool) (alert : Alert) (now_ms : ℕ) (returns : Bytes → Bool) (channels : List Bytes)
    → TriesAll channels (entry b alert now_ms returns channels)
unfolding entry
entry-TriesAll true alert now_ms returns channels = tt
entry-TriesAll false alert now_ms returns channels = send_all-names returns channels

abbrev pub AllTried : List Bytes → AlertDispatcher → Type 0
AllTried channels d = (d.channels ≡ channels) × All (TriesAll channels) d.log

handle-AllTried :
    (channels : List Bytes) (d : AlertDispatcher) (alert : Alert) (queue : List Alert) (now_ms : ℕ)
    (returns : Bytes → Bool)
    → AllTried channels d
    → AllTried channels (handle d alert queue now_ms returns)
unfolding handle
handle-AllTried channels d alert queue now_ms returns (c, h) = (
  c,
  All-append _ _ _ h (
    rw c (
        entry-TriesAll (should_suppress d.deduplicator alert now_ms).1 alert now_ms returns
          channels),
    tt,
  ),
)

step-AllTried :
    (channels : List Bytes) (d : AlertDispatcher) (event : Event)
    → AllTried channels d
    → AllTried channels (step d event)
unfolding step run_round
step-AllTried channels d (dispatch alert) h = h
step-AllTried channels d stop h = h
step-AllTried channels d request_stop h = h
step-AllTried channels d (round now_ms returns) h =
    if-both (AllTried channels) d.ended _ _ (λ _. h) (λ _. rounds d.queue)
  where
    rounds : (queue : List Alert) → AllTried channels (run_round d queue now_ms returns)
    rounds [] = if-both (AllTried channels) (is_shutdown d) _ _ (λ _. h) (λ _. h)
    rounds (alert ∷ queue) = handle-AllTried channels d alert queue now_ms returns h

run-AllTried :
    (channels : List Bytes) (d : AlertDispatcher) (events : List Event)
    → AllTried channels d
    → AllTried channels (run d events)
unfolding run
run-AllTried channels d [] h = h
run-AllTried channels d (event ∷ events) h =
    run-AllTried channels (step d event) events (step-AllTried channels d event h)

-- Whatever the threads do and whatever channels throw, each alert that was not suppressed has been
-- tried at every channel, in the order of the channels.
pub run-TriesAll :
    (channels : List Bytes) (cfg : DeduplicatorConfig) (events : List Event)
    → All (TriesAll channels) (run (started channels cfg) events).log
unfolding started
run-TriesAll channels cfg events =
    (run-AllTried channels (started channels cfg) events (refl, tt)).1
