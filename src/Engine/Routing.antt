-- ===== src/Engine/Routing.antt =====
-- About src/risk/risk_engine.cpp: the routing table and the rules that see a signal.
use risk_sentinel.Common.{
  ℕ, zero, suc, ◌+◌, ◌<◌, ◌≡◌, refl, ap, sym, ◌∙◌, Bool, true, false, List, [], ◌∷◌, ◌++◌, lt→ltb,
  if◌then◌else◌, get_or, length, replicate, arith, Bool-cases, inl, inr, append_assoc,
  length-append,
}
use risk_sentinel.Signal.{Signal, SignalType, Alert, index, signal_type_count}
use risk_sentinel.Engine.{
  RiskRule, RiskEngine, is_interested, add_routes, register_rule, evaluate_at, evaluate_all,
  process,
}

zero_plus : (n : ℕ) → 0 + n ≡ n
zero_plus n = omega arith

type-lt : (type : SignalType) → index type < signal_type_count
type-lt type = ground arith

pub none_yet : (i n : ℕ) → get_or {A = List ℕ} (replicate n []) i [] ≡ []
none_yet i zero = refl
none_yet zero (suc n) = refl
none_yet (suc i) (suc n) = none_yet i n

module _ {R : Type 0} ⦃rules_are : RiskRule R⦄ where
  -- The positions, from `k` on, of the rules that are interested in type `i`.
  abbrev pub routes_from : ℕ → ℕ → List R → List ℕ
  routes_from i k [] = []
  routes_from i k (rule ∷ rules) =
      let rest = routes_from i (k + 1) rules in if is_interested i rule then k ∷ rest else rest

  -- The table has an entry for each type: the positions of the rules interested in it.
  abbrev pub IsRouted : RiskEngine R → Type 0
  IsRouted engine =
      (length engine.routing_table ≡ signal_type_count)
      × ((i : ℕ)
          → i < signal_type_count
          → get_or engine.routing_table i [] ≡ routes_from i 0 engine.rules)

  routes_from-append :
      (i k : ℕ) (rules : List R) (rule : R)
      → routes_from i k (rules ++ rule ∷ []) ≡ (
          if is_interested i rule
          then routes_from i k rules ++ (k + length rules) ∷ []
          else routes_from i k rules)
  routes_from-append i k [] rule =
      ap (λ m. if is_interested i rule then m ∷ [] else []) (omega arith)
  routes_from-append i k (r ∷ rules) rule =
      rw (routes_from-append i (k + 1) rules rule, shifted k (length rules))
        (both (is_interested i r) (is_interested i rule) k (routes_from i (k + 1) rules)
          ((k + suc (length rules)) ∷ []))
    where
      shifted : (a b : ℕ) → a + 1 + b ≡ a + suc b
      shifted a b = omega arith

      both :
          (x y : Bool) (a : ℕ) (as' bs : List ℕ)
          → (if x then a ∷ (if y then as' ++ bs else as') else (if y then as' ++ bs else as'))
            ≡ (if y then (if x then a ∷ as' else as') ++ bs else (if x then a ∷ as' else as'))
      both true true a as' bs = refl
      both true false a as' bs = refl
      both false true a as' bs = refl
      both false false a as' bs = refl

  add_routes-get :
      (n j : ℕ) (rule : R) (id : ℕ) (table : List (List ℕ))
      → j < length table
      → get_or (add_routes n rule id table) j []
        ≡ (if is_interested (n + j) rule then get_or table j [] ++ id ∷ [] else get_or table j [])
  unfolding add_routes
  add_routes-get n j rule id [] h = absurd (omega (arith, h))
  add_routes-get n zero rule id (routes ∷ table) h =
      ap (λ m. if is_interested m rule then routes ++ id ∷ [] else routes) (omega arith)
  add_routes-get n (suc j) rule id (routes ∷ table) h =
      add_routes-get (n + 1) j rule id table (omega (arith, h))
      ∙ ap (λ m. if is_interested m rule then get_or table j [] ++ id ∷ [] else get_or table j [])
          (omega arith)

  length-add_routes :
      (n : ℕ) (rule : R) (id : ℕ) (table : List (List ℕ))
      → length (add_routes n rule id table) ≡ length table
  unfolding add_routes
  length-add_routes n rule id [] = refl
  length-add_routes n rule id (routes ∷ table) = ap suc (length-add_routes (n + 1) rule id table)

  pub register_rule-IsRouted :
      (engine : RiskEngine R) (rule : R) → IsRouted engine → IsRouted (register_rule engine rule)
  unfolding register_rule
  register_rule-IsRouted engine rule (len, routed) = (
    length-add_routes 0 rule (length engine.rules) engine.routing_table ∙ len,
    λ i lt.
        add_routes-get 0 i rule (length engine.rules) engine.routing_table (omega (arith, len, lt))
        ∙ rw
            (
              zero_plus i,
              routed i lt,
              routes_from-append i 0 engine.rules rule,
              zero_plus (length engine.rules),
            )
            refl,
  )

  -- The rules one after the other, those that are not interested left alone.
  abbrev pub evaluate_interested : ℕ → Signal → List R → List Alert → List R × List Alert
  evaluate_interested i signal [] out = ([], out)
  evaluate_interested i signal (rule ∷ rules) out =
      let (rule', out') =
        if is_interested i rule then rules_are.evaluate rule signal out else (rule, out) in
      let (rules', out'') = evaluate_interested i signal rules out' in (rule' ∷ rules', out'')

  evaluate_at-middle :
      (k : ℕ) (done : List R) (rule : R) (rules : List R) (signal : Signal) (out : List Alert)
      → length done ≡ k
      → evaluate_at k signal (done ++ rule ∷ rules) out ≡ (
        done ++ (rules_are.evaluate rule signal out).0 ∷ rules,
        (rules_are.evaluate rule signal out).1,
      )
  unfolding evaluate_at
  evaluate_at-middle zero [] rule rules signal out h = refl
  evaluate_at-middle zero (d ∷ done) rule rules signal out h = absurd (omega arith)
  evaluate_at-middle (suc k) [] rule rules signal out h = absurd (omega arith)
  evaluate_at-middle (suc k) (d ∷ done) rule rules signal out h =
      rw (evaluate_at-middle k done rule rules signal out (omega arith))

  -- The rule in front, once evaluated, counts as done.
  one_done :
      (ids : List ℕ) (signal : Signal) (done rules : List R) (rule : R)
      (result : List R × List Alert) (alerts : List Alert)
      → evaluate_all ids signal ((done ++ rule ∷ []) ++ rules) alerts
        ≡ ((done ++ rule ∷ []) ++ result.0, result.1)
      → evaluate_all ids signal (done ++ rule ∷ rules) alerts ≡ (done ++ rule ∷ result.0, result.1)
  one_done ids signal done rules rule result alerts e =
      rw (append_assoc done (rule ∷ []) rules, append_assoc done (rule ∷ []) result.0) at e

  evaluate_all-interested :
      (i k : ℕ) (signal : Signal) (done rules : List R) (out : List Alert)
      → length done ≡ k
      → evaluate_all (routes_from i k rules) signal (done ++ rules) out ≡ (
        done ++ (evaluate_interested i signal rules out).0,
        (evaluate_interested i signal rules out).1,
      )
  unfolding evaluate_all
  evaluate_all-interested i k signal done [] out h = refl
  evaluate_all-interested i k signal done (rule ∷ rules) out h =
      let behind : (r : R) (alerts : List Alert)
          → evaluate_all (routes_from i (k + 1) rules) signal (done ++ r ∷ rules) alerts ≡ (
            done ++ r ∷ (evaluate_interested i signal rules alerts).0,
            (evaluate_interested i signal rules alerts).1,
          ) =
        λ r alerts.
          one_done (routes_from i (k + 1) rules) signal done rules r
            (evaluate_interested i signal rules alerts) alerts
            (evaluate_all-interested i (k + 1) signal (done ++ r ∷ []) rules alerts
              (omega (arith, length-append done (r ∷ []), h))) in
      elim (Bool-cases (is_interested i rule)) [
        | inl e ↦ rw e (
            ap
              (λ (p : List R × List Alert).
                evaluate_all (routes_from i (k + 1) rules) signal p.0 p.1)
              (evaluate_at-middle k done rule rules signal out h)
            ∙ behind (rules_are.evaluate rule signal out).0 (rules_are.evaluate rule signal out).1)
        | inr e ↦ rw e (behind rule out)
      ]

  -- On an engine whose table is right, a signal is evaluated by the rules that are interested in its
  -- type and by no other, in the order of registration, and their alerts come in that order.
  pub process-interested :
      (engine : RiskEngine R) (signal : Signal)
      → IsRouted engine
      → process engine signal ≡ (
        record engine {
          rules = (evaluate_interested (index signal.type) signal engine.rules []).0;
        },
        (evaluate_interested (index signal.type) signal engine.rules []).1,
      )
  unfolding process
  process-interested engine signal (len, routed) = rw (
    (lt→ltb (index signal.type) signal_type_count (type-lt signal.type)),
    routed (index signal.type) (type-lt signal.type),
    evaluate_all-interested (index signal.type) 0 signal [] engine.rules [] refl,
  )

  same_interests :
      (i : ℕ) (b : Bool) (signal : Signal) (rule : R) (out : List Alert)
      → is_interested i (if b then rules_are.evaluate rule signal out else (rule, out)).0
        ≡ is_interested i rule
  unfolding is_interested
  same_interests i true signal rule out = rw (rules_are.interests-evaluate rule signal out)
  same_interests i false signal rule out = refl

  routes-same :
      (i j k : ℕ) (signal : Signal) (rules : List R) (out : List Alert)
      → routes_from i k (evaluate_interested j signal rules out).0 ≡ routes_from i k rules
  routes-same i j k signal [] out = refl
  routes-same i j k signal (rule ∷ rules) out =
      let next = if is_interested j rule then rules_are.evaluate rule signal out else (rule, out) in
      rw (
        same_interests i (is_interested j rule) signal rule out,
        routes-same i j (k + 1) signal rules next.1,
      )

  pub process-IsRouted :
      (engine : RiskEngine R) (signal : Signal)
      → IsRouted engine
      → IsRouted (process engine signal).0
  process-IsRouted engine signal routed = rw (process-interested engine signal routed) (
    routed.0,
    λ i lt. routed.1 i lt ∙ sym (routes-same i (index signal.type) 0 signal engine.rules []),
  )
