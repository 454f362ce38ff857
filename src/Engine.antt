-- ===== src/Engine.antt =====
-- src/risk/risk_engine.cpp: `RiskEngine`, over the interface of its rules. Metrics, the heartbeat and
-- the dummy StateStore are left out.
pub mod Routing
pub mod Registered
pub mod Drain
pub mod Idle
pub mod AnyRule
mod Tests
use risk_sentinel.Common.{
  ℕ, zero, suc, ◌+◌, ◌-◌, ◌^◌, bit_and, Bool, true, false, not, ◌&&◌, Option, none, some, List, [],
  ◌∷◌, ◌++◌, ltb, ◌==◌, if◌then◌else◌, get_or, length, replicate, ◌≡◌,
}
use risk_sentinel.Signal.{
  Signal, SignalType, SignalPayload, Command, stop, sync, control_signal, signal_type_count, index,
  type_beq, Alert,
}

-- `IRiskRule`: a rule's state, its interest mask, and its evaluation, which may change the state but
-- not the interests.
pub record RiskRule (R : Type 0) : Type 0 where
  pub interests : R → ℕ
  pub evaluate : R → Signal → List Alert → R × List Alert
  pub interests-evaluate :
      (rule : R) (signal : Signal) (out : List Alert)
      → interests (evaluate rule signal out).0 ≡ interests rule

-- What `input_queue_.front()` finds in one round of the loop.
pub data Turn : Type 0 where
  front : Signal → Turn
  empty : Turn

-- `std::get<ControlSignal>(signal.payload).command == ControlSignal::Command::Stop`
unfoldable pub is_stop : SignalPayload → Bool
is_stop (control_signal stop) = true
is_stop _ = false

-- The rule objects, and in the routing table their positions in place of pointers.
pub record RiskEngine (R : Type 0) : Type 0 where
  pub rules : List R
  pub routing_table : List (List ℕ)

module _ {R : Type 0} ⦃rules_are : RiskRule R⦄ where
  unfoldable pub make : RiskEngine R
  make = record { rules = []; routing_table = replicate signal_type_count [] }

  -- `interests & (1 << i)`
  unfoldable pub is_interested : ℕ → R → Bool
  is_interested i rule = not (bit_and (rules_are.interests rule) (2 ^ i) == 0)

  -- The loop over the table from the entry `i` on.
  unfoldable pub add_routes : ℕ → R → ℕ → List (List ℕ) → List (List ℕ)
  unfolding is_interested
  add_routes i rule id [] = []
  add_routes i rule id (routes ∷ table) =
      (if is_interested i rule then routes ++ id ∷ [] else routes)
      ∷ add_routes (i + 1) rule id table

  unfoldable pub register_rule : RiskEngine R → R → RiskEngine R
  unfolding add_routes
  register_rule engine rule = record {
    rules = engine.rules ++ rule ∷ [];
    routing_table = add_routes 0 rule (length engine.rules) engine.routing_table;
  }

  -- `rule->evaluate(signal, state_store_, alerts)` for the rule at a position.
  unfoldable pub evaluate_at : ℕ → Signal → List R → List Alert → List R × List Alert
  evaluate_at id signal [] out = ([], out)
  evaluate_at zero signal (rule ∷ rules) out =
      let (rule', out') = rules_are.evaluate rule signal out in (rule' ∷ rules, out')
  evaluate_at (suc id) signal (rule ∷ rules) out =
      let (rules', out') = evaluate_at id signal rules out in (rule ∷ rules', out')

  unfoldable pub evaluate_all : List ℕ → Signal → List R → List Alert → List R × List Alert
  unfolding evaluate_at
  evaluate_all [] signal rules out = (rules, out)
  evaluate_all (id ∷ ids) signal rules out =
      let (rules', out') = evaluate_at id signal rules out in evaluate_all ids signal rules' out'

  -- One signal: the alerts, from an empty vector, of the rules that its type is routed to.
  unfoldable pub process : RiskEngine R → Signal → RiskEngine R × List Alert
  unfolding evaluate_all
  process engine signal =
      let i = index signal.type in
      if ltb i signal_type_count
      then (let (rules, alerts) =
            evaluate_all (get_or engine.routing_table i []) signal engine.rules [] in
          (record engine { rules = rules }, alerts))
      else (engine, [])

  -- The loop of `run` over what each round finds, up to the stop request: the engine, the alerts
  -- dispatched so far, and whether the queue was drained.
  unfoldable pub run :
      RiskEngine R → Bool → List Alert → List Turn → RiskEngine R × List Alert × Bool
  unfolding process is_stop
  run engine drain_mode dispatched [] = (engine, dispatched, false)
  run engine drain_mode dispatched (empty ∷ turns) =
      let rest = run engine drain_mode dispatched turns in
      if drain_mode then (engine, dispatched, true) else rest
  run engine drain_mode dispatched (front signal ∷ turns) =
      let (engine', alerts) = process engine signal in
      let stopped = run engine true dispatched turns in
      let rest = run engine' drain_mode (dispatched ++ alerts) turns in
      if type_beq signal.type SignalType.control && is_stop signal.payload then stopped else rest
