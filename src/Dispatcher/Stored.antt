-- ===== src/Dispatcher/Stored.antt =====
-- About src/risk/alert_dispatcher.cpp: the deduplicator's entries and the log.
use risk_sentinel.Common.{
  ℕ, if◌then◌else◌, ◌≡◌, refl, sym, subst, Bool, Bool-cases, ◌⊎◌, inl, inr, Option, none, some,
  List, [], ◌∷◌, ◌++◌, Bytes, bytes_eq, bytes_beq, bytes_beq_iff, if-both, All,
}
use risk_sentinel.Common.Assoc.{find, assign}
use risk_sentinel.Signal.{Alert}
use risk_sentinel.Dedup.{
  AlertDeduplicator, build_key, window_of, is_stale, is_recent, erase_stale, cleanup_stale_entries,
  decide, count_alert, should_suppress,
}
use risk_sentinel.Dispatcher.{Outgoing, suppressed, tried, send_all, entry}

-- An alert with this key was sent to the channels at this time.
abbrev pub HasSent : Bytes → ℕ → List Outgoing → Type 0
HasSent key t [] = ⊥
HasSent key t (suppressed alert now_ms ∷ log) = HasSent key t log
HasSent key t (tried alert now_ms results ∷ log) =
    ((build_key alert ≡ key) × (now_ms ≡ t)) ⊎ HasSent key t log

HasSent-append :
    (key : Bytes) (t : ℕ) (log more : List Outgoing)
    → HasSent key t log
    → HasSent key t (log ++ more)
HasSent-append key t [] more h = absurd h
HasSent-append key t (suppressed alert now_ms ∷ log) more h = HasSent-append key t log more h
HasSent-append key t (tried alert now_ms results ∷ log) more (inl e) = inl e
HasSent-append key t (tried alert now_ms results ∷ log) more (inr h) =
    inr (HasSent-append key t log more h)

HasSent-last :
    (log : List Outgoing) (alert : Alert) (now_ms : ℕ) (results : List (Bytes × Bool))
    → HasSent (build_key alert) now_ms (log ++ tried alert now_ms results ∷ [])
HasSent-last [] alert now_ms results = inl (refl, refl)
HasSent-last (suppressed other then_ms ∷ log) alert now_ms results =
    HasSent-last log alert now_ms results
HasSent-last (tried other then_ms rs ∷ log) alert now_ms results =
    inr (HasSent-last log alert now_ms results)

-- Each entry of the deduplicator stands for an alert that was sent.
abbrev pub Stored : List Outgoing → List (Bytes × ℕ) → Type 0
Stored log fired = All (λ (e : Bytes × ℕ). HasSent e.0 e.1 log) fired

Stored-append :
    (log more : List Outgoing) (fired : List (Bytes × ℕ))
    → Stored log fired
    → Stored (log ++ more) fired
Stored-append log more [] h = tt
Stored-append log more ((key, t) ∷ fired) (h, hs) =
    (HasSent-append key t log more h, Stored-append log more fired hs)

pub Stored-find :
    (log : List Outgoing) (key : Bytes) (t : ℕ) (fired : List (Bytes × ℕ))
    → Stored log fired
    → find key fired ≡ some t
    → HasSent key t log
unfolding find
Stored-find log key t [] h e = absurd (none_some e)
  where
    none_some : none ≡ some t → ⊥
    none_some h = cc
Stored-find log key t ((j, v) ∷ fired) (h, hs) e = elim (Bool-cases (bytes_beq j key)) [
  | inl b ↦
      let same : some v ≡ some t =
        subst (λ c. (if c then some v else find key fired) ≡ some t) b e in
      sent ((bytes_beq_iff j key).0 b) (some_inj same)
  | inr b ↦
      Stored-find log key t fired hs
        (subst (λ c. (if c then some v else find key fired) ≡ some t) b e)
]
  where
    some_inj : some v ≡ some t → v ≡ t
    some_inj h = cc

    sent : j ≡ key → v ≡ t → HasSent key t log
    sent k u = subst (λ x. HasSent x t log) k (subst (λ x. HasSent j x log) u h)

Stored-assign :
    (log : List Outgoing) (key : Bytes) (t : ℕ) (fired : List (Bytes × ℕ))
    → HasSent key t log
    → Stored log fired
    → Stored log (assign key t fired)
unfolding assign
Stored-assign log key t [] s h = (s, tt)
Stored-assign log key t ((j, v) ∷ fired) s (h, hs) =
    let rest = Stored-assign log key t fired s hs in
    if-both (Stored log) (bytes_beq j key) _ _
      (λ b. (subst (λ x. HasSent x t log) (sym ((bytes_beq_iff j key).0 b)) s, hs)) (λ _. (h, rest))

Stored-erase :
    (log : List Outgoing) (limit now_ms : ℕ) (fired : List (Bytes × ℕ))
    → Stored log fired
    → Stored log (erase_stale limit now_ms fired).0
unfolding erase_stale
Stored-erase log limit now_ms [] h = tt
Stored-erase log limit now_ms ((key, t) ∷ fired) (h, hs) =
    let rest = Stored-erase log limit now_ms fired hs in
    if-both (λ (p : List (Bytes × ℕ) × ℕ). Stored log p.0) (is_stale limit now_ms t) _ _ (λ _. rest)
      (λ _. (h, rest))

Stored-count_alert :
    (log : List Outgoing) (d : AlertDeduplicator) (now_ms : ℕ)
    → Stored log d.last_fired_ms
    → Stored log (count_alert d now_ms).last_fired_ms
unfolding count_alert cleanup_stale_entries
Stored-count_alert log d now_ms h =
    if-both (λ (x : AlertDeduplicator). Stored log x.last_fired_ms) _ _ _
      (λ _. Stored-erase log d.max_configured_window_ms now_ms d.last_fired_ms h) (λ _. h)

-- The entry that a decision leaves for an alert that is sent.
assign-Stored :
    (log : List Outgoing) (alert : Alert) (now_ms : ℕ) (results : List (Bytes × Bool))
    (fired : List (Bytes × ℕ))
    → Stored log fired
    → Stored (log ++ tried alert now_ms results ∷ []) (assign (build_key alert) now_ms fired)
assign-Stored log alert now_ms results fired h =
    Stored-assign (log ++ tried alert now_ms results ∷ []) (build_key alert) now_ms fired
      (HasSent-last log alert now_ms results)
      (Stored-append log (tried alert now_ms results ∷ []) fired h)

decide-Stored :
    (log : List Outgoing) (last : Option ℕ) (alert : Alert) (window now_ms : ℕ)
    (returns : Bytes → Bool) (channels : List Bytes) (fired : List (Bytes × ℕ))
    → Stored log fired
    → let (kept, suppress) = decide last (build_key alert) window now_ms fired in
      Stored (log ++ entry suppress alert now_ms returns channels ∷ []) kept
unfolding decide entry
decide-Stored log none alert window now_ms returns channels fired h =
    assign-Stored log alert now_ms (send_all returns channels) fired h
decide-Stored log (some last) alert window now_ms returns channels fired h =
    if-both
      (λ (p : List (Bytes × ℕ) × Bool).
        Stored (log ++ entry p.1 alert now_ms returns channels ∷ []) p.0)
      (is_recent window now_ms last) _ _
      (λ _. Stored-append log (suppressed alert now_ms ∷ []) fired h)
      (λ _. assign-Stored log alert now_ms (send_all returns channels) fired h)

-- A call of the deduplicator, with the entry of the log that follows.
pub should_suppress-Stored :
    (log : List Outgoing) (d : AlertDeduplicator) (alert : Alert) (now_ms : ℕ)
    (returns : Bytes → Bool) (channels : List Bytes)
    → Stored log d.last_fired_ms
    → let (e, suppress) = should_suppress d alert now_ms in
      Stored (log ++ entry suppress alert now_ms returns channels ∷ []) e.last_fired_ms
unfolding should_suppress
should_suppress-Stored log d alert now_ms returns channels h =
    let last = find (build_key alert) d.last_fired_ms in
    let window = window_of d.cfg alert.rule_type in
    let (kept, suppress) = decide last (build_key alert) window now_ms d.last_fired_ms in
    Stored-count_alert (log ++ entry suppress alert now_ms returns channels ∷ [])
      (record d { last_fired_ms = kept }) now_ms
      (decide-Stored log last alert window now_ms returns channels d.last_fired_ms h)
