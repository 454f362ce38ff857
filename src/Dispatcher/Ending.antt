-- ===== src/Dispatcher/Ending.antt =====
-- About src/risk/alert_dispatcher.cpp: the end of the loop after a stop.
use risk_sentinel.Common.{
  ℕ, ◌+◌, ◌≡◌, refl, ap, sym, subst, ◌∙◌, Bool, true, false, List, [], ◌∷◌, Bytes, if◌then◌else◌,
  length, arith,
}
use risk_sentinel.Signal.{Alert}
use risk_sentinel.Dispatcher.{
  AlertDispatcher, Event, round, handle, is_shutdown, run_round, step, run,
}

-- Rounds of the loop, with nothing dispatched in between.
abbrev pub rounds : List (ℕ × (Bytes → Bool)) → List Event
rounds [] = []
rounds ((now_ms, returns) ∷ rest) = round now_ms returns ∷ rounds rest

if-no {ℓ} : {A : Type ℓ} (b : Bool) (x y : A) → b ≡ false → (if b then x else y) ≡ y
if-no true x y h = cc
if-no false x y h = refl

if-yes {ℓ} : {A : Type ℓ} (b : Bool) (x y : A) → b ≡ true → (if b then x else y) ≡ x
if-yes true x y h = refl
if-yes false x y h = cc

last_round :
    (d : AlertDispatcher) (now_ms : ℕ) (returns : Bytes → Bool)
    → d.queue ≡ []
    → is_shutdown d ≡ true
    → d.ended ≡ false
    → step d (round now_ms returns) ≡ record d { ended = true }
unfolding step run_round
last_round d now_ms returns q s e =
    if-no d.ended d (run_round d d.queue now_ms returns) e
    ∙ (ap (λ queue. run_round d queue now_ms returns) q
        ∙ if-yes (is_shutdown d) (record d { ended = true }) d s)

next_round :
    (d : AlertDispatcher) (alert : Alert) (queue : List Alert) (now_ms : ℕ) (returns : Bytes → Bool)
    → d.queue ≡ alert ∷ queue
    → d.ended ≡ false
    → step d (round now_ms returns) ≡ handle d alert queue now_ms returns
unfolding step run_round
next_round d alert queue now_ms returns q e =
    if-no d.ended d (run_round d d.queue now_ms returns) e
    ∙ ap (λ queue'. run_round d queue' now_ms returns) q

abbrev pub IsOver : AlertDispatcher → Type 0
IsOver d = (d.ended ≡ true) × (d.queue ≡ [])

-- Once a stop is asked for, one round for each alert in the queue and one more end the loop, and the
-- queue is empty then.
pub run-ends :
    (d : AlertDispatcher) (queue : List Alert) (turns : List (ℕ × (Bytes → Bool)))
    → d.queue ≡ queue
    → is_shutdown d ≡ true
    → d.ended ≡ false
    → length turns ≡ length queue + 1
    → IsOver (run d (rounds turns))
unfolding run handle is_shutdown
run-ends d queue [] q s e n = absurd (omega arith)
run-ends d [] ((now_ms, returns) ∷ []) q s e n =
    subst IsOver (sym (last_round d now_ms returns q s e)) (refl, q)
run-ends d [] (_ ∷ (_ ∷ turns)) q s e n = absurd (omega arith)
run-ends d (alert ∷ queue) ((now_ms, returns) ∷ turns) q s e n =
    subst (λ d'. IsOver (run d' (rounds turns))) (sym (next_round d alert queue now_ms returns q e))
      (run-ends (handle d alert queue now_ms returns) queue turns refl s e (omega arith))
