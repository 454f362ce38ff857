-- ===== src/Dispatcher/Order.antt =====
-- About src/risk/alert_dispatcher.cpp: the order of the alerts that were dispatched.
use risk_sentinel.Common.{
  ℕ, ◌≡◌, refl, ap, sym, ◌∙◌, Bool, true, false, List, [], ◌∷◌, ◌++◌, Bytes, if-both, map,
  append_assoc, append-nil,
}
use risk_sentinel.Signal.{Alert}
use risk_sentinel.Dedup.{DeduplicatorConfig, should_suppress}
use risk_sentinel.Dispatcher.{
  AlertDispatcher, Outgoing, suppressed, tried, Event, dispatch, stop, request_stop, round, started,
  entry, handle, is_shutdown, run_round, step, run,
}

abbrev pub alert_of : Outgoing → Alert
alert_of (suppressed alert now_ms) = alert
alert_of (tried alert now_ms results) = alert

-- The alerts that other threads dispatched, in order.
abbrev pub dispatched : List Event → List Alert
dispatched [] = []
dispatched (dispatch alert ∷ events) = alert ∷ dispatched events
dispatched (_ ∷ events) = dispatched events

-- The alerts that have left the queue, and those that are in it.
abbrev pub seen : AlertDispatcher → List Alert
seen d = map alert_of d.log ++ d.queue

entry-alert :
    (b : Bool) (alert : Alert) (now_ms : ℕ) (returns : Bytes → Bool) (channels : List Bytes)
    → alert_of (entry b alert now_ms returns channels) ≡ alert
unfolding entry
entry-alert true alert now_ms returns channels = refl
entry-alert false alert now_ms returns channels = refl

map-append :
    (xs : List Outgoing) (x : Outgoing)
    → map alert_of (xs ++ x ∷ []) ≡ map alert_of xs ++ alert_of x ∷ []
map-append [] x = refl
map-append (y ∷ xs) x = ap (λ t. alert_of y ∷ t) (map-append xs x)

handle-seen :
    (d : AlertDispatcher) (alert : Alert) (queue : List Alert) (now_ms : ℕ) (returns : Bytes → Bool)
    → seen (handle d alert queue now_ms returns) ≡ map alert_of d.log ++ alert ∷ queue
unfolding handle
handle-seen d alert queue now_ms returns =
    let suppress = (should_suppress d.deduplicator alert now_ms).1 in
    rw
      (
        map-append d.log (entry suppress alert now_ms returns d.channels),
        entry-alert suppress alert now_ms returns d.channels,
      )
      (append_assoc (map alert_of d.log) (alert ∷ []) queue)

run_round-seen :
    (d : AlertDispatcher) (queue : List Alert) (now_ms : ℕ) (returns : Bytes → Bool)
    → d.queue ≡ queue
    → seen (run_round d queue now_ms returns) ≡ seen d
unfolding run_round
run_round-seen d [] now_ms returns e =
    if-both (λ (d' : AlertDispatcher). seen d' ≡ seen d) (is_shutdown d) _ _ (λ _. refl) (λ _. refl)
run_round-seen d (alert ∷ queue) now_ms returns e =
    handle-seen d alert queue now_ms returns ∙ ap (λ q. map alert_of d.log ++ q) (sym e)

step-seen :
    (d : AlertDispatcher) (event : Event) → seen (step d event) ≡ seen d ++ dispatched (event ∷ [])
unfolding step
step-seen d (dispatch alert) = sym (append_assoc (map alert_of d.log) d.queue (alert ∷ []))
step-seen d stop = sym (append-nil (seen d))
step-seen d request_stop = sym (append-nil (seen d))
step-seen d (round now_ms returns) =
    if-both (λ (d' : AlertDispatcher). seen d' ≡ seen d) d.ended _ _ (λ _. refl)
      (λ _. run_round-seen d d.queue now_ms returns refl)
    ∙ sym (append-nil (seen d))

dispatched-first :
    (event : Event) (events : List Event)
    → dispatched (event ∷ events) ≡ dispatched (event ∷ []) ++ dispatched events
dispatched-first (dispatch alert) events = refl
dispatched-first stop events = refl
dispatched-first request_stop events = refl
dispatched-first (round now_ms returns) events = refl

run-seen :
    (d : AlertDispatcher) (events : List Event) → seen (run d events) ≡ seen d ++ dispatched events
unfolding run
run-seen d [] = sym (append-nil (seen d))
run-seen d (event ∷ events) =
    run-seen (step d event) events
    ∙ (ap (λ l. l ++ dispatched events) (step-seen d event)
        ∙ (append_assoc (seen d) (dispatched (event ∷ [])) (dispatched events)
            ∙ ap (λ l. seen d ++ l) (sym (dispatched-first event events))))

-- Whatever the threads do, the alerts that were suppressed or sent, followed by those still in the
-- queue, are the alerts that were dispatched, each once and in order.
pub run-dispatched :
    (channels : List Bytes) (cfg : DeduplicatorConfig) (events : List Event)
    → map alert_of (run (started channels cfg) events).log
        ++ (run (started channels cfg) events).queue
      ≡ dispatched events
unfolding started
run-dispatched channels cfg events = run-seen (started channels cfg) events
