-- ===== src/Dedup/Cleanup.antt =====
-- About src/risk/alert_deduplicator.cpp: the entries that a clean-up keeps.
use risk_sentinel.Common.{
  ℕ, ◌+◌, ◌≤◌, false, some, List, [], ◌∷◌, Bytes, bytes_eq, length, arith, ◌≡◌, bytes_beq_iff,
}
use risk_sentinel.Common.Assoc.{find}
use risk_sentinel.Dedup.{
  AlertDeduplicator, erase_stale, is_stale, cleanup_stale_entries, tracked_keys_count,
}

pub erase-length :
    (limit now : ℕ) (m : List (Bytes × ℕ))
    → length (erase_stale limit now m).0 + (erase_stale limit now m).1 ≡ length m
unfolding erase_stale
erase-length limit now [] = omega arith
erase-length limit now ((k, t) ∷ m) = ground (arith, erase-length limit now m)

-- An entry that is not stale stays, and one that is found after the clean-up is one that was there.
pub find-erase_fresh :
    (limit now : ℕ) (m : List (Bytes × ℕ)) (key : Bytes) (t : ℕ)
    → find key m ≡ some t
    → is_stale limit now t ≡ false
    → find key (erase_stale limit now m).0 ≡ some t
unfolding find erase_stale
find-erase_fresh limit now [] key t f s = cc
find-erase_fresh limit now ((k, u) ∷ m) key t f s =
    ground (arith, find-erase_fresh limit now m key t, bytes_beq_iff k key)

-- A clean-up returns how many keys it forgot, and it forgets no key whose last time is at most the
-- longest window ago, or still to come.
pub cleanup_stale_entries_lem :
    (d : AlertDeduplicator) (now_ms : ℕ)
    → (tracked_keys_count (cleanup_stale_entries d now_ms).0 + (cleanup_stale_entries d now_ms).1
        ≡ tracked_keys_count d)
      × ((key : Bytes) (fired : ℕ)
          → find key d.last_fired_ms ≡ some fired
          → now_ms ≤ fired + d.max_configured_window_ms
          → find key (cleanup_stale_entries d now_ms).0.last_fired_ms ≡ some fired)
unfolding cleanup_stale_entries tracked_keys_count is_stale
cleanup_stale_entries_lem d now_ms = (
  erase-length d.max_configured_window_ms now_ms d.last_fired_ms,
  λ key fired f h.
      find-erase_fresh d.max_configured_window_ms now_ms d.last_fired_ms key fired f (ground arith),
)
