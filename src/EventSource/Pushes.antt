-- ===== src/EventSource/Pushes.antt =====
-- About src/events/EventSource.cpp: what the loop over the logs of a batch leaves in the ring buffer.
use risk_sentinel.Common.{
  Bytes, ℕ, ◌+◌, ◌≡◌, refl, sym, ◌∙◌, List, [], ◌∷◌, ◌++◌, Outcome, ok, err, inl, inr,
  Outcome-cases, append_assoc, append-nil,
}
use risk_sentinel.Signal.{Signal}
use risk_sentinel.Normalize.{RawLog, normalize}
use risk_sentinel.EventSource.{Surroundings, stamp, push_one, push_all}

-- The signals of all logs in order, each with its ingress time.
abbrev pub Emits : Surroundings → ℕ → ℕ → ℕ → List RawLog → List Signal → Type 0
Emits around chain_id timestamp n [] signals = signals ≡ []
Emits around chain_id timestamp n (raw ∷ logs) [] = ⊥
Emits around chain_id timestamp n (raw ∷ logs) (s ∷ signals) =
    ((signal : Signal) × (normalize raw chain_id timestamp (around.uninitialized n) ≡ ok signal)
      × (s ≡ stamp signal (around.steady_now_ms n)))
    × Emits around chain_id timestamp (n + 1) logs signals

-- The same for the logs before the first one that `normalize` throws at.
abbrev pub Begins : Surroundings → ℕ → ℕ → ℕ → List RawLog → List Signal → Type 0
Begins around chain_id timestamp n [] signals = ⊥
Begins around chain_id timestamp n (raw ∷ logs) [] =
    (text : Bytes) × (normalize raw chain_id timestamp (around.uninitialized n) ≡ err text)
Begins around chain_id timestamp n (raw ∷ logs) (s ∷ signals) =
    ((signal : Signal) × (normalize raw chain_id timestamp (around.uninitialized n) ≡ ok signal)
      × (s ≡ stamp signal (around.steady_now_ms n)))
    × Begins around chain_id timestamp (n + 1) logs signals

-- What `push_all` leaves, by whether it came to its end.
abbrev pub Pushed :
    Surroundings → ℕ → ℕ → ℕ → List RawLog → List Signal → List Signal × Outcome (Unit {0}) → Type 0
Pushed around chain_id timestamp n logs out (out', ok _) =
    (signals : List Signal) × (out' ≡ out ++ signals)
    × Emits around chain_id timestamp n logs signals
Pushed around chain_id timestamp n logs out (out', err e) =
    (signals : List Signal) × (out' ≡ out ++ signals)
    × Begins around chain_id timestamp n logs signals

more-Pushed :
    (around : Surroundings) (chain_id timestamp n : ℕ) (raw : RawLog) (logs : List RawLog)
    (signal : Signal) (out : List Signal) (result : List Signal × Outcome (Unit {0}))
    → normalize raw chain_id timestamp (around.uninitialized n) ≡ ok signal
    → Pushed around chain_id timestamp
        (n + 1)
        logs
        (out ++ stamp signal (around.steady_now_ms n) ∷ [])
        result
    → Pushed around chain_id timestamp n (raw ∷ logs) out result
more-Pushed around chain_id timestamp n raw logs signal out (out', ok _) e (signals, o, h) = (
  stamp signal (around.steady_now_ms n) ∷ signals,
  o ∙ append_assoc out (stamp signal (around.steady_now_ms n) ∷ []) signals,
  ((signal, e, refl), h),
)
more-Pushed around chain_id timestamp n raw logs signal out (out', err x) e (signals, o, h) = (
  stamp signal (around.steady_now_ms n) ∷ signals,
  o ∙ append_assoc out (stamp signal (around.steady_now_ms n) ∷ []) signals,
  ((signal, e, refl), h),
)

pub push_all-Pushed :
    (around : Surroundings) (chain_id timestamp n : ℕ) (logs : List RawLog) (out : List Signal)
    → Pushed around chain_id timestamp n logs out (push_all around chain_id timestamp n logs out)
unfolding push_all push_one
push_all-Pushed around chain_id timestamp n [] out = ([], sym (append-nil out), refl)
push_all-Pushed around chain_id timestamp n (raw ∷ logs) out =
    elim (Outcome-cases (normalize raw chain_id timestamp (around.uninitialized n))) [
      | inl (signal, e) ↦ rw e (
          more-Pushed around chain_id timestamp n raw logs signal out _ e (
            push_all-Pushed around chain_id timestamp (n + 1) logs
              (out ++ stamp signal (around.steady_now_ms n) ∷ [])))
      | inr (text, e) ↦ rw e ([], sym (append-nil out), (text, e))
    ]
