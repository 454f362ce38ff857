-- ===== src/Engine/Drain.antt =====
-- About src/risk/risk_engine.cpp: the queue after a stop command.
use risk_sentinel.Common.{
  ◌≡◌, refl, ap, sym, ◌∙◌, Bool, true, false, ◌&&◌, ◌||◌, List, [], ◌∷◌, ◌++◌, if◌then◌else◌,
  Bool-cases, inl, inr,
}
use risk_sentinel.Signal.{Signal, SignalType, Alert, type_beq}
use risk_sentinel.Engine.{RiskRule, RiskEngine, Turn, front, empty, is_stop, process, run}

abbrev pub stops : Signal → Bool
stops signal = type_beq signal.type SignalType.control && is_stop signal.payload

-- Rounds that find one signal after the other.
abbrev pub fronts : List Signal → List Turn → List Turn
fronts [] turns = turns
fronts (signal ∷ signals) turns = front signal ∷ fronts signals turns

abbrev pub any_stops : List Signal → Bool
any_stops [] = false
any_stops (signal ∷ signals) = stops signal || any_stops signals

or_false : (b : Bool) → (b || false) ≡ b
or_false true = refl
or_false false = refl

or_true : (b : Bool) → (b || true) ≡ true
or_true true = refl
or_true false = refl

module _ {R : Type 0} ⦃rules_are : RiskRule R⦄ where
  -- What the signals of a queue do, the stop commands among them skipped.
  abbrev pub handle_all : RiskEngine R → List Signal → List Alert → RiskEngine R × List Alert
  handle_all engine [] out = (engine, out)
  handle_all engine (signal ∷ signals) out =
      let (engine', alerts) = process engine signal in
      let skipped = handle_all engine signals out in
      let handled = handle_all engine' signals (out ++ alerts) in
      if stops signal then skipped else handled

  run-fronts :
      (engine : RiskEngine R) (drain_mode : Bool) (out : List Alert) (signals : List Signal)
      (turns : List Turn)
      → run engine drain_mode out (fronts signals turns)
        ≡ run
            (handle_all engine signals out).0
            (drain_mode || any_stops signals)
            (handle_all engine signals out).1
            turns
  unfolding run
  run-fronts engine drain_mode out [] turns =
      ap (λ b. run engine b out turns) (sym (or_false drain_mode))
  run-fronts engine drain_mode out (signal ∷ signals) turns = elim (Bool-cases (stops signal)) [
    | inl e ↦ rw (e, or_true drain_mode) (run-fronts engine true out signals turns)
    | inr e ↦ rw e (
        run-fronts (process engine signal).0 drain_mode (out ++ (process engine signal).1) signals
          turns)
  ]

  -- When a stop command is among the signals of the queue, the engine ends as soon as it finds the
  -- queue empty, and by then it has handled every other signal, those behind the stop included, in
  -- order.
  pub run-drains :
      (engine : RiskEngine R) (out : List Alert) (signals : List Signal) (turns : List Turn)
      → any_stops signals ≡ true
      → run engine false out (fronts signals (empty ∷ turns))
        ≡ ((handle_all engine signals out).0, (handle_all engine signals out).1, true)
  unfolding run
  run-drains engine out signals turns h =
      run-fronts engine false out signals (empty ∷ turns) ∙ rw h refl
