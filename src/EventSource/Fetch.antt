-- ===== src/EventSource/Fetch.antt =====
-- About src/events/EventSource.cpp: the retry loop of `poll_once`.
use risk_sentinel.Common.{
  ℕ, zero, suc, ◌/◌, ◌<◌, ◌≤◌, ◌≡◌, refl, subst, max, Bool, true, false, leb, List, Bytes, codes,
  if-both, Outcome, ok, err, arith, if◌then◌else◌, ok-injective, Bool-cases, inl, inr,
}
use risk_sentinel.Normalize.{RawLog}
use risk_sentinel.EventSource.{EventSourceConfig, Surroundings, fetch, retry, to_block}

smaller : (range m : ℕ) → leb range m ≡ false → max (range / 2) m < range
smaller range m h = ground arith

-- The retry loop without fuel: one constructor for each way a round goes, and a derivation is a loop
-- that ends. The first range that the chain answers is returned; a refused one is halved, but not
-- below the least range, and the loop gives up when the least range is refused.
pub data Ends (cfg : EventSourceConfig) (around : Surroundings) (next : ℕ)
    : ℕ → Outcome (ℕ × List RawLog) → Type 0 where
  answered :
      (range : ℕ) (logs : List RawLog)
      → around.get_logs next (to_block next range) ≡ ok logs
      → Ends cfg around next range (ok (to_block next range, logs))
  gives_up :
      (range : ℕ) (e : Bytes)
      → around.get_logs next (to_block next range) ≡ err e
      → range ≤ cfg.min_block_range
      → Ends cfg around next range (err (codes "Persistent RPC failure even with min_range"))
  halved :
      (range : ℕ) (e : Bytes) (result : Outcome (ℕ × List RawLog))
      → around.get_logs next (to_block next range) ≡ err e
      → cfg.min_block_range < range
      → Ends cfg around next (max (range / 2) cfg.min_block_range) result
      → Ends cfg around next range result

retry-Ends :
    (cfg : EventSourceConfig) (around : Surroundings) (next range : ℕ)
    (answer : Outcome (List RawLog)) (rest : Outcome (ℕ × List RawLog))
    → around.get_logs next (to_block next range) ≡ answer
    → (leb range cfg.min_block_range ≡ false
        → Ends cfg around next (max (range / 2) cfg.min_block_range) rest)
    → Ends cfg around next range
        (retry answer (to_block next range) (leb range cfg.min_block_range) rest)
unfolding retry
retry-Ends cfg around next range (ok logs) rest a more = answered range logs a
retry-Ends cfg around next range (err e) rest a more =
    if-both (Ends cfg around next range) (leb range cfg.min_block_range) _ _
      (λ least. gives_up range e a (ground arith))
      (λ wide. halved range e rest a (ground arith) (more wide))

-- On any fuel above the range, and so on the fuel that a poll gives it, the retry loop ends by itself
-- before its fuel does, with the logs of the first range that the chain answers, or with the error once
-- the least range is refused.
pub fetch-Ends :
    (fuel : ℕ) (cfg : EventSourceConfig) (around : Surroundings) (next range : ℕ)
    → range < fuel
    → Ends cfg around next range (fetch fuel cfg around next range)
unfolding fetch
fetch-Ends zero cfg around next range h = absurd (omega arith)
fetch-Ends (suc fuel) cfg around next range h =
    retry-Ends cfg around next range (around.get_logs next (to_block next range)) _ refl λ more.
      let less = smaller range cfg.min_block_range more in
      fetch-Ends fuel cfg around next (max (range / 2) cfg.min_block_range) (omega (arith, h))

-- The range that succeeded, which is at most the first one and at least the least one.
abbrev pub Fetched : EventSourceConfig → Surroundings → ℕ → ℕ → ℕ × List RawLog → Type 0
Fetched cfg around next range (to, logs) =
    (r : ℕ) × (r ≤ range)
    × (cfg.min_block_range ≤ r)
    × (to ≡ to_block next r)
    × (around.get_logs next to ≡ ok logs)

wider_range :
    (cfg : EventSourceConfig) (around : Surroundings) (next small range : ℕ)
    (result : ℕ × List RawLog)
    → small ≤ range
    → Fetched cfg around next small result
    → Fetched cfg around next range result
wider_range cfg around next small range (to, logs) h (r, le, m, t, g) = (r, omega arith, m, t, g)

retry-Fetched :
    (cfg : EventSourceConfig) (around : Surroundings) (next range : ℕ)
    (answer : Outcome (List RawLog)) (rest : Outcome (ℕ × List RawLog)) (result : ℕ × List RawLog)
    → cfg.min_block_range ≤ range
    → around.get_logs next (to_block next range) ≡ answer
    → (leb range cfg.min_block_range ≡ false
        → rest ≡ ok result
        → Fetched cfg around next range result)
    → retry answer (to_block next range) (leb range cfg.min_block_range) rest ≡ ok result
    → Fetched cfg around next range result
unfolding retry
retry-Fetched cfg around next range (ok logs) rest result m a more e =
    subst (Fetched cfg around next range) (ok-injective _ _ e) (range, omega arith, m, refl, a)
retry-Fetched cfg around next range (err text) rest result m a more e =
    elim (Bool-cases (leb range cfg.min_block_range)) [
      | inl b ↦ absurd (no (leb range cfg.min_block_range) b e)
      | inr b ↦ more b (yes (leb range cfg.min_block_range) b e)
    ]
  where
    no :
        (b : Bool)
        → b ≡ true
        → (if b then err (codes "Persistent RPC failure even with min_range") else rest) ≡ ok result
        → ⊥
    no true h e' = cc
    no false h e' = cc

    yes :
        (b : Bool)
        → b ≡ false
        → (if b then err (codes "Persistent RPC failure even with min_range") else rest) ≡ ok result
        → rest ≡ ok result
    yes true h e' = cc
    yes false h e' = e'

-- What the loop returns is the answer of the chain for a range from the cursor on.
pub fetch-Fetched :
    (fuel : ℕ) (cfg : EventSourceConfig) (around : Surroundings) (next range : ℕ)
    (result : ℕ × List RawLog)
    → cfg.min_block_range ≤ range
    → fetch fuel cfg around next range ≡ ok result
    → Fetched cfg around next range result
unfolding fetch
fetch-Fetched zero cfg around next range result m e = cc
fetch-Fetched (suc fuel) cfg around next range result m e =
    retry-Fetched cfg around next range (around.get_logs next (to_block next range))
      (fetch fuel cfg around next (max (range / 2) cfg.min_block_range)) result m refl
      (λ more e'.
        wider_range cfg around next (max (range / 2) cfg.min_block_range) range result
          (omega (arith, smaller range cfg.min_block_range more))
          (fetch-Fetched fuel cfg around next (max (range / 2) cfg.min_block_range) result
            (omega arith) e'))
      e

-- A range from the cursor on that the chain refused.
abbrev pub Refused : Surroundings → ℕ → Type 0
Refused around next = (to : ℕ) × (e : Bytes) × (around.get_logs next to ≡ err e)

abbrev pub RefusedOr : Surroundings → ℕ → Outcome (ℕ × List RawLog) → Type 0
RefusedOr around next (ok result) = Unit {0}
RefusedOr around next (err e) = Refused around next

Ends-RefusedOr :
    (cfg : EventSourceConfig) (around : Surroundings) (next range : ℕ)
    (result : Outcome (ℕ × List RawLog))
    → Ends cfg around next range result
    → RefusedOr around next result
Ends-RefusedOr cfg around next _ _ (answered range logs a) = tt
Ends-RefusedOr cfg around next _ _ (gives_up range e a least) = (to_block next range, e, a)
Ends-RefusedOr cfg around next _ _ (halved range e result a wide ends) =
    Ends-RefusedOr cfg around next (max (range / 2) cfg.min_block_range) result ends

-- A loop that returns an error was refused.
pub fetch-RefusedOr :
    (fuel : ℕ) (cfg : EventSourceConfig) (around : Surroundings) (next range : ℕ)
    → range < fuel
    → RefusedOr around next (fetch fuel cfg around next range)
fetch-RefusedOr fuel cfg around next range h =
    Ends-RefusedOr cfg around next range _ (fetch-Ends fuel cfg around next range h)
