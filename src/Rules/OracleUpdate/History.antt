-- ===== src/Rules/OracleUpdate/History.antt =====
-- The baselines over a whole history of signals.
use risk_sentinel.Common.{
  ℕ, ◌^◌, ◌<◌, true, false, Option, none, some, List, [], ◌∷◌, IsArray, arith, ◌≡◌, refl,
  Bool-cases, eq_of_some, ◌⊎◌, inl, inr, Option-cases, subst, sym, ◌∙◌,
}
use risk_sentinel.Common.Assoc.{find, find-assign}
use risk_sentinel.Hex.Value.{be_value}
use risk_sentinel.Signal.{
  Signal, SignalType, SignalPayload, type_beq, Alert, OracleUpdateEvent, ChainKey, key_beq,
  key_beq_iff, key_eq, oracle_event,
}
use risk_sentinel.Rules.OracleUpdate.{
  OracleRuleConfig, OracleUpdateRule, LastObservation, evaluate, record_last, as_oracle, key_of,
  observe,
}
use risk_sentinel.Rules.OracleUpdate.Baseline.{Inv, takes, within_u64, evaluate-guards, some_bucket}

-- The rule as the constructor leaves it.
unfoldable pub fresh : List (ChainKey × List OracleRuleConfig) → OracleUpdateRule
fresh configs = record { configs_by_feed = configs; last_by_feed = [] }

-- One evaluation after the other, as the engine makes them.
unfoldable pub run : OracleUpdateRule → List Signal → List Alert → OracleUpdateRule × List Alert
run rule [] out = (rule, out)
run rule (signal ∷ signals) out =
    let (rule', out') = evaluate rule signal out in run rule' signals out'

-- The answer of an oracle event is a 32-byte array.
abbrev pub IsTyped : Signal → Type 0
IsTyped signal =
    (event : OracleUpdateEvent)
    → signal.payload ≡ oracle_event event
    → IsArray 32 event.current_answer

abbrev pub AreTyped : List Signal → Type 0
AreTyped [] = Unit {0}
AreTyped (signal ∷ signals) = IsTyped signal × AreTyped signals

configured :
    (found : Option (List OracleRuleConfig)) (value : ℕ)
    → within_u64 found value ≡ true
    → (configs : List OracleRuleConfig) × (found ≡ some configs)
configured none value h = cc
configured (some configs) value h = (configs, refl)

abbrev observation : OracleUpdateEvent → LastObservation
observation event = record { answer = event.current_answer; updated_at = event.updated_at }

record_last-Inv :
    (rule : OracleUpdateRule) (event : OracleUpdateEvent)
    → Inv rule
    → IsArray 32 event.current_answer
    → takes rule event ≡ true
    → Inv (record_last rule event)
unfolding Inv record_last
record_last-Inv rule event inv h e key last found =
    let law = find-assign (key_of event) key (observation event) rule.last_by_feed in
    elim (Bool-cases (key_beq (key_of event) key)) [
      | inl same ↦
          let new : some (observation event) ≡ some last = rw same at (sym law ∙ found) in
          let k : key_of event ≡ key = (key_beq_iff (key_of event) key).0 same in
          let (configs, c) = configured _ (be_value event.current_answer) e in
          (
            subst (λ l. IsArray 32 l.answer) (eq_of_some new) h,
            subst (λ l. be_value l.answer < 2 ^ 64) (eq_of_some new) (some_bucket rule event e),
            (configs, subst (λ j. find j rule.configs_by_feed ≡ some configs) k c),
          )
      | inr other ↦
          let old : find key rule.last_by_feed ≡ some last = rw other at (sym law ∙ found) in
          inv key last old
    ]

evaluate_other :
    (rule : OracleUpdateRule) (signal : Signal) (out : List Alert)
    → (type_beq signal.type SignalType.oracle_update ≡ false) ⊎ (as_oracle signal.payload ≡ none)
    → (evaluate rule signal out).0 ≡ rule
unfolding evaluate
evaluate_other rule signal out (inl t) = rw t
evaluate_other rule signal out (inr p) = rw (p, evaluate) (ground arith)

as_oracle-some :
    (payload : SignalPayload) (event : OracleUpdateEvent)
    → as_oracle payload ≡ some event
    → payload ≡ oracle_event event
unfolding as_oracle
as_oracle-some payload event h = ground arith

type_beq-eq : (a b : SignalType) → type_beq a b ≡ true → a ≡ b
type_beq-eq a b h = ground arith

-- Whatever signal comes, the kept answers stay numbers below 2 ^ 64 of configured feeds.
pub evaluate-Inv :
    (rule : OracleUpdateRule) (signal : Signal) (out : List Alert)
    → Inv rule
    → IsTyped signal
    → Inv (evaluate rule signal out).0
unfolding observe
evaluate-Inv rule signal out inv typed =
    elim (Bool-cases (type_beq signal.type SignalType.oracle_update)) [
      | inr t ↦ rw (evaluate_other rule signal out (inl t)) inv
      | inl t ↦ elim (Option-cases (as_oracle signal.payload)) [
        | inl p ↦ rw (evaluate_other rule signal out (inr p)) inv
        | inr (event, p) ↦
            let q = as_oracle-some signal.payload event p in
            let step =
              evaluate-guards rule signal event out (type_beq-eq signal.type _ t) q
                (typed event q) in
            elim (Bool-cases (takes rule event)) [
              | inl e ↦ rw (step, e) (record_last-Inv rule event inv (typed event q) e)
              | inr e ↦ rw (step, e) inv
            ]
      ]
    ]

run-Inv :
    (rule : OracleUpdateRule) (signals : List Signal) (out : List Alert)
    → Inv rule
    → AreTyped signals
    → Inv (run rule signals out).0
unfolding run
run-Inv rule [] out inv typed = inv
run-Inv rule (signal ∷ signals) out inv typed =
    run-Inv (evaluate rule signal out).0 signals (evaluate rule signal out).1
      (evaluate-Inv rule signal out inv typed.0) typed.1

-- After any history of signals from the start, in which oracle answers are arrays of 32 bytes,
-- every baseline is a number below 2 ^ 64 of a feed that a customer is configured for.
pub run-fresh-Inv :
    (configs : List (ChainKey × List OracleRuleConfig)) (signals : List Signal) (out : List Alert)
    → AreTyped signals
    → Inv (run (fresh configs) signals out).0
unfolding fresh Inv find
run-fresh-Inv configs signals out typed =
    run-Inv (fresh configs) signals out (λ key last found. absurd (nothing last found)) typed
  where
    nothing : (last : LastObservation) → ◌≡◌ {A = Option LastObservation} none (some last) → ⊥
    nothing last e = cc
