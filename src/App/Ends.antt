-- ===== src/App/Ends.antt =====
-- About src/app/app.cpp: the calls of `App::run`, from the starts of the threads to their joins.
use risk_sentinel.Common.{◌≡◌, Bool, true, false, ◌&&◌, List, [], ◌∷◌, ◌++◌, if◌then◌else◌}
use risk_sentinel.App.Lifecycle.{
  health, source, engine, alerts, Call, launched, stopped, joined, App, Result, done, failed,
}

-- One more call, if it was made.
abbrev pub then_if : Bool → Call → List Call → List Call
then_if made call calls = if made then calls ++ call ∷ [] else calls

-- The starts of the threads: the dispatcher's first and the event source's last.
abbrev pub starts : Bool → Bool → Bool → List Call
starts d e s =
    then_if s (launched source) (then_if e (launched engine) (then_if d (launched alerts) []))

-- Nothing but the threads of these parts was started.
abbrev pub Started : Bool → Bool → Bool → App → Type 0
Started d e s app =
    (app.is_stopped ≡ false)
    × (app.readiness_file ≡ false)
    × (app.dispatcher_thread ≡ d)
    × (app.risk_engine_thread ≡ e)
    × (app.event_source_thread ≡ s)
    × (app.calls ≡ starts d e s)

-- A thread that was started belongs to a part that is set.
abbrev Owned : App → Type 0
Owned app =
    (d : Bool) × (e : Bool) × (s : Bool) × Started d e s app
    × (d ≡ true → app.dispatcher ≡ true)
    × (e ≡ true → app.risk_engine && app.ring_buffer ≡ true)
    × (s ≡ true → app.event_source ≡ true)

-- The end of a run: the calls are the starts of the threads `d`, `e` and `s`, then the stops of the parts
-- `H`, `S`, `E` and `D`, among them all whose thread was started, then the joins of these threads.
abbrev pub IsOver : App → Type 0
IsOver app =
    (app.event_source_thread ≡ false)
    × (app.risk_engine_thread ≡ false)
    × (app.dispatcher_thread ≡ false)
    × (app.is_stopped ≡ true)
    × (app.readiness_file ≡ false)
    × (d : Bool) × (e : Bool) × (s : Bool) × (H : Bool) × (S : Bool) × (E : Bool) × (D : Bool) × (d
          ≡ true
        → D ≡ true)
    × (e ≡ true → E ≡ true)
    × (s ≡ true → S ≡ true)
    × (app.calls
        ≡ then_if d (joined alerts) (
            then_if e (joined engine) (
              then_if s (joined source) (
                then_if D (stopped alerts) (
                  then_if E (stopped engine)
                    (then_if S (stopped source) (then_if H (stopped health) (starts d e s))))))))

-- Nothing was started, and the ring buffer is set.
abbrev Idle : App → Type 0
Idle app = Started false false false app × (app.ring_buffer ≡ true)

-- All parts are set.
abbrev Set : Bool → Bool → Bool → App → Type 0
Set d e s app =
    Started d e s app
    × (app.event_source ≡ true)
    × (app.risk_engine && app.ring_buffer ≡ true)
    × (app.dispatcher ≡ true)

-- What a call that may fail leaves behind.
abbrev Leaves : (App → Type 0) → Result → Type 0
Leaves P (done app) = P app
Leaves P (failed e app) = Owned app

-- The event source is set, then the dispatcher, then the engine as well.
abbrev WithSource : App → Type 0
WithSource app = Idle app × (app.event_source ≡ true)

abbrev WithDispatcher : App → Type 0
WithDispatcher app = Idle app × (app.event_source ≡ true) × (app.dispatcher ≡ true)
