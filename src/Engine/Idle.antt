-- ===== src/Engine/Idle.antt =====
-- About src/risk/risk_engine.cpp: rounds that find nothing, between the signals and before the stop.
use risk_sentinel.Common.{◌≡◌, refl, Bool, true, false, ◌||◌, List, [], ◌∷◌, ◌++◌}
use risk_sentinel.Signal.{Signal, Alert}
use risk_sentinel.Engine.{RiskRule, RiskEngine, Turn, front, empty, process, run}
use risk_sentinel.Engine.Drain.{stops, any_stops, handle_all}

-- The signals that the rounds find.
abbrev pub found : List Turn → List Signal
found [] = []
found (front signal ∷ turns) = signal ∷ found turns
found (empty ∷ turns) = found turns

or-false : (a b : Bool) → (a || b) ≡ false → (a ≡ false) × (b ≡ false)
or-false true b h = cc
or-false false b h = (refl, h)

module _ {R : Type 0} ⦃rules_are : RiskRule R⦄ where
  -- Whenever the queue runs empty in between, the signals before a stop command are all handled, and
  -- the engine ends as soon as it finds nothing behind the stop.
  pub run-found :
      (engine : RiskEngine R) (out : List Alert) (turns : List Turn) (pill : Signal)
      (rest : List Turn)
      → any_stops (found turns) ≡ false
      → stops pill ≡ true
      → run engine false out (turns ++ front pill ∷ empty ∷ rest)
        ≡ ((handle_all engine (found turns) out).0, (handle_all engine (found turns) out).1, true)
  unfolding run
  run-found engine out [] pill rest none_stops s = rw s refl
  run-found engine out (empty ∷ turns) pill rest none_stops s =
      run-found engine out turns pill rest none_stops s
  run-found engine out (front signal ∷ turns) pill rest none_stops s =
      let (this, others) = or-false (stops signal) (any_stops (found turns)) none_stops in
      rw this (
        run-found (process engine signal).0 (out ++ (process engine signal).1) turns pill rest
          others s)
