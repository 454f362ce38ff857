-- ===== src/Dedup/Repeats.antt =====
-- About src/risk/alert_deduplicator.cpp: runs of calls.
use risk_sentinel.Common.{
  ℕ, ◌+◌, ◌<◌, true, false, some, List, [], ◌∷◌, bytes_eq, arith, ◌≡◌, refl, All, sym, ◌∙◌, subst,
}
use risk_sentinel.Common.Assoc.{find}
use risk_sentinel.Signal.{Alert}
use risk_sentinel.Dedup.{
  AlertDeduplicator, DeduplicatorConfig, build_key, window_of, make, should_suppress,
}
use risk_sentinel.Dedup.Key.{IsKeyable, build_key-injective}
use risk_sentinel.Dedup.Window.{
  Bounded, make-Bounded, should_suppress-cfg, should_suppress-fires, should_suppress-keeps,
  should_suppress-within, within,
}

-- The deduplicator after a sequence of calls, each an alert and the time of the call.
abbrev pub run : AlertDeduplicator → List (Alert × ℕ) → AlertDeduplicator
run d [] = d
run d ((a, now_ms) ∷ calls) = run (should_suppress d a now_ms).0 calls

-- A call of the program, made before the time `limit`.
abbrev pub IsCallBefore : ℕ → Alert × ℕ → Type 0
IsCallBefore limit (a, now_ms) = IsKeyable a × (now_ms < limit)

step-Bounded :
    (d : AlertDeduplicator) (a : Alert) (t : ℕ) → Bounded d → Bounded (should_suppress d a t).0
step-Bounded d a t b rule = let (c, m) = should_suppress-cfg d a t in rw (c, m) (b rule)

run-Bounded : (d : AlertDeduplicator) (calls : List (Alert × ℕ)) → Bounded d → Bounded (run d calls)
run-Bounded d [] b = b
run-Bounded d ((a, t) ∷ calls) b =
    run-Bounded (should_suppress d a t).0 calls (step-Bounded d a t b)

run-cfg : (d : AlertDeduplicator) (calls : List (Alert × ℕ)) → (run d calls).cfg ≡ d.cfg
run-cfg d [] = refl
run-cfg d ((a, t) ∷ calls) = run-cfg (should_suppress d a t).0 calls ∙ (should_suppress-cfg d a t).0

run-find :
    (d : AlertDeduplicator) (a : Alert) (t : ℕ) (calls : List (Alert × ℕ))
    → IsKeyable a
    → Bounded d
    → find (build_key a) d.last_fired_ms ≡ some t
    → All (IsCallBefore (t + window_of d.cfg a.rule_type)) calls
    → find (build_key a) (run d calls).last_fired_ms ≡ some t
run-find d a t [] ha b f h = f
run-find d a t ((c, now_ms) ∷ calls) ha b f ((hc, before), h) =
    run-find (should_suppress d c now_ms).0 a t calls ha (step-Bounded d c now_ms b)
      (should_suppress-keeps d a c t now_ms ha hc b f before)
      (subst (λ cfg. All (IsCallBefore (t + window_of cfg a.rule_type)) calls)
        (sym (should_suppress-cfg d c now_ms).0) h)

within-before : (t window now_ms : ℕ) → now_ms < t + window → within (some t) window now_ms ≡ true
within-before t window now_ms h = ground arith

suppressed_again :
    (d : AlertDeduplicator) (a b : Alert) (t now_ms : ℕ) (calls : List (Alert × ℕ))
    → IsKeyable a
    → Bounded d
    → build_key b ≡ build_key a
    → b.rule_type ≡ a.rule_type
    → All (IsCallBefore (t + window_of d.cfg a.rule_type)) calls
    → now_ms < t + window_of d.cfg a.rule_type
    → (should_suppress d a t).1 ≡ false
    → (should_suppress (run (should_suppress d a t).0 calls) b now_ms).1 ≡ true
suppressed_again d a b t now_ms calls ha bounded k r h before passed =
    let c = (should_suppress-cfg d a t).0 in
    let found =
      run-find (should_suppress d a t).0 a t calls ha (step-Bounded d a t bounded)
        (should_suppress-fires d a t passed)
        (subst (λ cfg. All (IsCallBefore (t + window_of cfg a.rule_type)) calls) (sym c) h) in
    should_suppress-within (run (should_suppress d a t).0 calls) b now_ms
    ∙ rw (run-cfg (should_suppress d a t).0 calls, c, k, r, found)
        (within-before t (window_of d.cfg a.rule_type) now_ms before)

-- Once an alert has passed at time `t`, every further alert with its key is suppressed until the
-- window of its rule has passed since `t`, whatever alerts came before and whatever alerts come in
-- between at times before the end of that window, clean-ups and clocks that go back included; for
-- alerts in between and with that key whose identifiers have 64 bits and whose rule names have no
-- bar.
pub no_repeat_within_window :
    (cfg : DeduplicatorConfig) (earlier between : List (Alert × ℕ)) (a b : Alert) (t now_ms : ℕ)
    → IsKeyable a
    → IsKeyable b
    → build_key b ≡ build_key a
    → All (IsCallBefore (t + window_of cfg a.rule_type)) between
    → now_ms < t + window_of cfg a.rule_type
    → (should_suppress (run (make cfg) earlier) a t).1 ≡ false
    → (should_suppress (run (should_suppress (run (make cfg) earlier) a t).0 between) b now_ms).1
      ≡ true
unfolding make
no_repeat_within_window cfg earlier between a b t now_ms ha hb k calls before passed =
    let c = sym (run-cfg (make cfg) earlier) in
    suppressed_again (run (make cfg) earlier) a b t now_ms between ha
      (run-Bounded (make cfg) earlier (make-Bounded cfg)) k (build_key-injective b a hb ha k).1
      (subst (λ g. All (IsCallBefore (t + window_of g a.rule_type)) between) c calls)
      (subst (λ g. now_ms < t + window_of g a.rule_type) c before) passed
