-- ===== src/EventSource/Deliveries.antt =====
-- About src/events/EventSource.cpp: what a run of polls delivers.
use risk_sentinel.Common.{
  ℕ, ◌+◌, ◌≤◌, ◌≡◌, refl, subst, sym, Bool, true, false, not, ◌&&◌, ltb, ◌==◌, List, [], ◌∷◌, ◌++◌,
  ok,
}
use risk_sentinel.Signal.{Signal}
use risk_sentinel.Normalize.{RawLog}
use risk_sentinel.EventSource.{Surroundings}
use risk_sentinel.EventSource.Pushes.{Emits, Begins}
use risk_sentinel.EventSource.Polls.{IsStuck}

-- What the polls of a run do in turn, each with its own answers: the cursor moves from one block to
-- another, and signals are pushed. A poll asks the chain for a range from the cursor on and pushes the
-- signals of all the logs that it answers, with the cursor right behind the range; or `normalize` throws
-- at one of these logs, which leaves the signals of those before it and the cursor where it was; or it
-- leaves both as they were, since the head is not told, the cursor is past it, or a range is refused.
-- `cold` says that the source started without a checkpoint, and the first poll that is told the head
-- then does nothing else. A run ends with its polls, or, if `last` is not 0, once the cursor is past
-- that block.
pub data Deliveries (chain_id last : ℕ)
    : Bool → List Surroundings → ℕ → ℕ → List Signal → Type 0 where
  no_more : (cold : Bool) (a : ℕ) → Deliveries chain_id last cold [] a a []
  exhausted :
      (cold : Bool) (polls : List Surroundings) (a : ℕ)
      → not (last == 0) && ltb last a ≡ true
      → Deliveries chain_id last cold polls a a []
  idle :
      {cold : Bool} {polls : List Surroundings} {a b : ℕ} {rest : List Signal}
      (around : Surroundings)
      → IsStuck last around a
      → Deliveries chain_id last cold polls a b rest
      → Deliveries chain_id last cold (around ∷ polls) a b rest
  settled :
      {polls : List Surroundings} {a b : ℕ} {rest : List Signal} (around : Surroundings)
      (latest : ℕ)
      → around.latest_block ≡ ok latest
      → Deliveries chain_id last false polls a b rest
      → Deliveries chain_id last true (around ∷ polls) a b rest
  batch :
      {cold : Bool} {polls : List Surroundings} {a b : ℕ} {rest : List Signal}
      (around : Surroundings) (to timestamp : ℕ) (logs : List RawLog) (signals : List Signal)
      → a ≤ to
      → around.get_logs a to ≡ ok logs
      → Emits around chain_id timestamp 0 logs signals
      → Deliveries chain_id last cold polls (to + 1) b rest
      → Deliveries chain_id last cold (around ∷ polls) a b (signals ++ rest)
  part :
      {cold : Bool} {polls : List Surroundings} {a b : ℕ} {rest : List Signal}
      (around : Surroundings) (to timestamp : ℕ) (logs : List RawLog) (signals : List Signal)
      → around.get_logs a to ≡ ok logs
      → Begins around chain_id timestamp 0 logs signals
      → Deliveries chain_id last cold polls a b rest
      → Deliveries chain_id last cold (around ∷ polls) a b (signals ++ rest)

-- A run that did not start cold is one of a source that did.
pub colder :
    {chain_id last : ℕ} (cold c : Bool) (polls : List Surroundings) (a b : ℕ) (out : List Signal)
    → (cold ≡ true → c ≡ true)
    → Deliveries chain_id last cold polls a b out
    → Deliveries chain_id last c polls a b out
colder cold c _ _ _ _ h (no_more _ a) = no_more c a
colder cold c _ _ _ _ h (exhausted _ polls a past) = exhausted c polls a past
colder cold c _ _ _ _ h (idle around stuck d) = idle around stuck (colder cold c _ _ _ _ h d)
colder {chain_id} {last} _ c _ _ _ _ h (settled {polls} {a} {b} {rest} around latest told d) =
    subst (λ x. Deliveries chain_id last x (around ∷ polls) a b rest) (sym (h refl))
      (settled around latest told d)
colder cold c _ _ _ _ h (batch around to timestamp logs signals le g e d) =
    batch around to timestamp logs signals le g e (colder cold c _ _ _ _ h d)
colder cold c _ _ _ _ h (part around to timestamp logs signals g e d) =
    part around to timestamp logs signals g e (colder cold c _ _ _ _ h d)

pub never_cold : false ≡ true → ⊥
never_cold h = cc

-- The poll that ends a cold start, before what follows.
pub settled_first :
    {chain_id last : ℕ} (before after : Bool) (around : Surroundings) (latest : ℕ)
    (polls : List Surroundings) (a b : ℕ) (out : List Signal)
    → around.latest_block ≡ ok latest
    → before ≡ true
    → after ≡ false
    → Deliveries chain_id last after polls a b out
    → Deliveries chain_id last before (around ∷ polls) a b out
settled_first true false around latest polls a b out told e e' d = settled around latest told d
settled_first true true around latest polls a b out told e e' d = absurd (never_cold (sym e'))
settled_first false after around latest polls a b out told e e' d = absurd (never_cold e)
