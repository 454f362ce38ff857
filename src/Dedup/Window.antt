-- ===== src/Dedup/Window.antt =====
-- About src/risk/alert_deduplicator.cpp: one call, and the windows of the rules.
use risk_sentinel.Common.{
  ℕ, ◌+◌, ◌<◌, ◌≤◌, max, Bool, false, Option, none, some, List, [], ◌∷◌, Bytes, bytes_eq, bytes_beq,
  bytes_beq_iff, bytes_beq_refl, arith, ◌≡◌, refl, Bool-cases, inl, inr, ltb, ◌∙◌,
}
use risk_sentinel.Common.Assoc.{find, find-assign}
use risk_sentinel.Signal.{Alert}
use risk_sentinel.Dedup.{
  AlertDeduplicator, DeduplicatorConfig, build_key, window_of, window_or, longest, make, is_stale,
  is_recent, cleanup_stale_entries, decide, count_alert, should_suppress,
}
use risk_sentinel.Dedup.Key.{IsKeyable, build_key-injective}
use risk_sentinel.Dedup.Cleanup.{find-erase_fresh}

-- The last time counts as recent up to its window's end, also when the clock goes back.
abbrev pub within : Option ℕ → ℕ → ℕ → Bool
within none window now_ms = false
within (some last) window now_ms = ltb now_ms (last + window)

decide-within :
    (last : Option ℕ) (key : Bytes) (window now_ms : ℕ) (fired : List (Bytes × ℕ))
    → (decide last key window now_ms fired).1 ≡ within last window now_ms
unfolding decide is_recent
decide-within none key window now_ms fired = refl
decide-within (some last) key window now_ms fired = ground arith

-- An alert is suppressed exactly when its key fired before and the window of its rule, counted from
-- that time, has not passed.
pub should_suppress-within :
    (d : AlertDeduplicator) (a : Alert) (now_ms : ℕ)
    → (should_suppress d a now_ms).1
      ≡ within (find (build_key a) d.last_fired_ms) (window_of d.cfg a.rule_type) now_ms
unfolding should_suppress
should_suppress-within d a now_ms =
    decide-within (find (build_key a) d.last_fired_ms) (build_key a) (window_of d.cfg a.rule_type)
      now_ms d.last_fired_ms

-- No window is longer than the one by which entries go stale.
abbrev pub Bounded : AlertDeduplicator → Type 0
Bounded d = (rule : Bytes) → window_of d.cfg rule ≤ d.max_configured_window_ms

le-longest : (n : ℕ) (windows : List (Bytes × ℕ)) → n ≤ longest n windows
unfolding longest
le-longest n [] = omega arith
le-longest n ((rule, w) ∷ windows) = omega (arith, le-longest (max n w) windows)

find-le-longest :
    (d n : ℕ) (windows : List (Bytes × ℕ)) (rule : Bytes)
    → d ≤ n
    → window_or (find rule windows) d ≤ longest n windows
unfolding longest find window_or
find-le-longest d n [] rule h = h
find-le-longest d n ((r, w) ∷ windows) rule h = elim (Bool-cases (bytes_beq r rule)) [
  | inl e ↦ rw e (omega (arith, le-longest (max n w) windows))
  | inr e ↦ rw e (find-le-longest d (max n w) windows rule (omega (arith, h)))
]

pub make-Bounded : (cfg : DeduplicatorConfig) → Bounded (make cfg)
unfolding make window_of
make-Bounded cfg rule =
    find-le-longest cfg.default_window_ms cfg.default_window_ms cfg.per_rule_window_ms rule
      (omega arith)

-- A call changes neither the configuration nor the limit.
pub should_suppress-cfg :
    (d : AlertDeduplicator) (a : Alert) (now_ms : ℕ)
    → ((should_suppress d a now_ms).0.cfg ≡ d.cfg)
      × ((should_suppress d a now_ms).0.max_configured_window_ms ≡ d.max_configured_window_ms)
unfolding should_suppress count_alert cleanup_stale_entries
should_suppress-cfg d a now_ms = ground arith

count_alert-find :
    (d : AlertDeduplicator) (now_ms : ℕ) (key : Bytes) (t : ℕ)
    → find key d.last_fired_ms ≡ some t
    → is_stale d.max_configured_window_ms now_ms t ≡ false
    → find key (count_alert d now_ms).last_fired_ms ≡ some t
unfolding count_alert cleanup_stale_entries
count_alert-find d now_ms key t f s =
    ground (arith, find-erase_fresh d.max_configured_window_ms now_ms d.last_fired_ms key t f s)

-- The lookup leaves the time of a key alone: a different key, or a call that is suppressed.
decide-other :
    (last : Option ℕ) (j k : Bytes) (window now_ms : ℕ) (fired : List (Bytes × ℕ))
    → bytes_beq j k ≡ false
    → find k (decide last j window now_ms fired).0 ≡ find k fired
unfolding decide
decide-other none j k window now_ms fired e = rw (find-assign j k now_ms fired) (rw e refl)
decide-other (some last) j k window now_ms fired e =
    elim (Bool-cases (is_recent window now_ms last)) [
      | inl r ↦ rw r refl
      | inr r ↦ rw r (rw (find-assign j k now_ms fired) (rw e refl))
    ]

decide-recent :
    (t : ℕ) (k : Bytes) (window now_ms : ℕ) (fired : List (Bytes × ℕ))
    → now_ms < t + window
    → (decide (some t) k window now_ms fired).0 ≡ fired
unfolding decide is_recent
decide-recent t k window now_ms fired h = ground arith

decide-fires :
    (last : Option ℕ) (k : Bytes) (window now_ms : ℕ) (fired : List (Bytes × ℕ))
    → (decide last k window now_ms fired).1 ≡ false
    → find k (decide last k window now_ms fired).0 ≡ some now_ms
unfolding decide
decide-fires none k window now_ms fired e =
    rw (find-assign k k now_ms fired) (rw (bytes_beq_refl k) refl)
decide-fires (some last) k window now_ms fired e =
    elim (Bool-cases (is_recent window now_ms last)) [
      | inl r ↦ ground arith
      | inr r ↦ rw r (rw (find-assign k k now_ms fired) (rw (bytes_beq_refl k) refl))
    ]

fresh-within :
    (limit now_ms t window : ℕ)
    → window ≤ limit
    → now_ms < t + window
    → is_stale limit now_ms t ≡ false
unfolding is_stale
fresh-within limit now_ms t window b h = ground arith

-- A key that fired at `t` is not forgotten within its window, whatever alert comes.
unchanged :
    (d : AlertDeduplicator) (a b : Alert) (t now_ms : ℕ)
    → IsKeyable a
    → IsKeyable b
    → find (build_key a) d.last_fired_ms ≡ some t
    → now_ms < t + window_of d.cfg a.rule_type
    → find
        (build_key a)
        (decide
          (find (build_key b) d.last_fired_ms)
          (build_key b)
          (window_of d.cfg b.rule_type)
          now_ms
          d.last_fired_ms).0
      ≡ some t
unchanged d a b t now_ms ha hb f h = elim (Bool-cases (bytes_beq (build_key b) (build_key a))) [
  | inl e ↦
      (let k = (bytes_beq_iff (build_key b) (build_key a)).0 e in
        let r = (build_key-injective b a hb ha k).1 in
        rw k (
          rw r (
            rw f (
              rw
                (decide-recent t (build_key a) (window_of d.cfg a.rule_type) now_ms d.last_fired_ms
                  h)
                f))))
  | inr e ↦
      decide-other (find (build_key b) d.last_fired_ms) (build_key b) (build_key a)
        (window_of d.cfg b.rule_type) now_ms d.last_fired_ms e
      ∙ f
]

-- `find key` after a call, from `find key` after the lookup in it.
should_suppress-find :
    (d : AlertDeduplicator) (b : Alert) (now_ms : ℕ) (key : Bytes) (t : ℕ)
    → find key
        (decide
          (find (build_key b) d.last_fired_ms)
          (build_key b)
          (window_of d.cfg b.rule_type)
          now_ms
          d.last_fired_ms).0
      ≡ some t
    → is_stale d.max_configured_window_ms now_ms t ≡ false
    → find key (should_suppress d b now_ms).0.last_fired_ms ≡ some t
unfolding should_suppress
should_suppress-find d b now_ms key t f s = count_alert-find _ now_ms key t f s

-- A call leaves the time of a key that is within its window.
pub should_suppress-keeps :
    (d : AlertDeduplicator) (a b : Alert) (t now_ms : ℕ)
    → IsKeyable a
    → IsKeyable b
    → Bounded d
    → find (build_key a) d.last_fired_ms ≡ some t
    → now_ms < t + window_of d.cfg a.rule_type
    → find (build_key a) (should_suppress d b now_ms).0.last_fired_ms ≡ some t
should_suppress-keeps d a b t now_ms ha hb bounded f h =
    should_suppress-find d b now_ms (build_key a) t (unchanged d a b t now_ms ha hb f h) (
      fresh-within d.max_configured_window_ms now_ms t (window_of d.cfg a.rule_type)
        (bounded a.rule_type) h)

fresh_now : (limit t : ℕ) → is_stale limit t t ≡ false
unfolding is_stale
fresh_now limit t = ground arith

-- A call that passes leaves its time at its key.
pub should_suppress-fires :
    (d : AlertDeduplicator) (a : Alert) (t : ℕ)
    → (should_suppress d a t).1 ≡ false
    → find (build_key a) (should_suppress d a t).0.last_fired_ms ≡ some t
unfolding should_suppress
should_suppress-fires d a t e =
    should_suppress-find d a t (build_key a) t
      (decide-fires (find (build_key a) d.last_fired_ms) (build_key a) (window_of d.cfg a.rule_type)
        t d.last_fired_ms e)
      (fresh_now d.max_configured_window_ms t)
