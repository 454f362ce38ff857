-- ===== src/Engine/Registered.antt =====
-- About src/risk/risk_engine.cpp: an engine whose rules are registered before its thread starts.
use risk_sentinel.Common.{◌≡◌, refl, List, [], ◌∷◌}
use risk_sentinel.Signal.{Signal, index, signal_type_count}
use risk_sentinel.Engine.{RiskRule, RiskEngine, make, register_rule, process}
use risk_sentinel.Engine.Routing.{
  IsRouted, evaluate_interested, register_rule-IsRouted, process-IsRouted, process-interested,
  none_yet,
}

module _ {R : Type 0} ⦃rules_are : RiskRule R⦄ where
  -- The engine after the registrations that precede its thread.
  abbrev pub register_all : RiskEngine R → List R → RiskEngine R
  register_all engine [] = engine
  register_all engine (rule ∷ rules) = register_all (register_rule engine rule) rules

  register_all-IsRouted :
      (engine : RiskEngine R) (rules : List R)
      → IsRouted engine
      → IsRouted (register_all engine rules)
  register_all-IsRouted engine [] h = h
  register_all-IsRouted engine (rule ∷ rules) h =
      register_all-IsRouted (register_rule engine rule) rules (register_rule-IsRouted engine rule h)

  -- From the constructor on, after any registrations and any signals, the table is right.
  registered-IsRouted : (rules : List R) → IsRouted (register_all make rules)
  unfolding make
  registered-IsRouted rules =
      register_all-IsRouted make rules (refl, λ i lt. none_yet i signal_type_count)

  abbrev pub process_all : RiskEngine R → List Signal → RiskEngine R
  process_all engine [] = engine
  process_all engine (signal ∷ signals) = process_all (process engine signal).0 signals

  process_all-IsRouted :
      (engine : RiskEngine R) (signals : List Signal)
      → IsRouted engine
      → IsRouted (process_all engine signals)
  process_all-IsRouted engine [] h = h
  process_all-IsRouted engine (signal ∷ signals) h =
      process_all-IsRouted (process engine signal).0 signals (process-IsRouted engine signal h)

  -- After any registrations and any signals, the next signal is evaluated by the registered rules
  -- that are interested in its type and by no other, each once and in the order of registration, and
  -- the alerts are theirs in that order.
  pub process-registered :
      (rules : List R) (earlier : List Signal) (signal : Signal)
      → let engine = process_all (register_all make rules) earlier in
        process engine signal ≡ (
          record engine {
            rules = (evaluate_interested (index signal.type) signal engine.rules []).0;
          },
          (evaluate_interested (index signal.type) signal engine.rules []).1,
        )
  process-registered rules earlier signal =
      process-interested (process_all (register_all make rules) earlier) signal
        (process_all-IsRouted (register_all make rules) earlier (registered-IsRouted rules))
