-- ===== src/Dedup.antt =====
-- src/risk/alert_deduplicator.cpp: `AlertDeduplicator`. Times are `uint64_t` milliseconds.
pub mod Key
pub mod Window
pub mod Repeats
pub mod Cleanup
mod Tests
use risk_sentinel.Common.{
  ℕ, ◌+◌, ◌-◌, ◌%◌, ◌^◌, max, Bool, true, false, Option, none, some, List, [], ◌∷◌, ◌++◌, Bytes,
  codes, if◌then◌else◌, ltb, leb, ◌||◌, bytes_eq, length,
}
use risk_sentinel.Common.Assoc.{find, assign}
use risk_sentinel.Common.Digits.{to_string}
use risk_sentinel.Signal.{Alert}

pub record DeduplicatorConfig : Type 0 where
  pub default_window_ms : ℕ
  pub per_rule_window_ms : List (Bytes × ℕ)
  pub cleanup_every_n_alerts : ℕ

pub record AlertDeduplicator : Type 0 where
  pub cfg : DeduplicatorConfig
  pub last_fired_ms : List (Bytes × ℕ)
  pub alerts_processed_since_cleanup : ℕ
  pub max_configured_window_ms : ℕ

-- `a.chain_id.has_value() ? std::to_string(*a.chain_id) : "-"`
unfoldable pub chain_part : Option ℕ → Bytes
chain_part none = codes "-"
chain_part (some chain_id) = to_string chain_id

-- `a.token_address.value_or("")`
unfoldable pub token_part : Option Bytes → Bytes
token_part none = []
token_part (some token_address) = token_address

abbrev pub bar : ℕ
bar = b'|'

-- "<customer_id>|<rule_type>|<chain_id>|<token_address>"
unfoldable pub build_key : Alert → Bytes
build_key a =
    to_string a.customer_id
    ++ (bar
        ∷ (a.rule_type ++ (bar ∷ (chain_part a.chain_id ++ (bar ∷ token_part a.token_address)))))

-- The loop of the constructor over the configured windows.
unfoldable pub longest : ℕ → List (Bytes × ℕ) → ℕ
longest so_far [] = so_far
longest so_far ((rule_type, window) ∷ windows) = longest (max so_far window) windows

unfoldable pub make : DeduplicatorConfig → AlertDeduplicator
make cfg = record {
  cfg = cfg;
  last_fired_ms = [];
  alerts_processed_since_cleanup = 0;
  max_configured_window_ms = longest cfg.default_window_ms cfg.per_rule_window_ms;
}

unfoldable pub window_or : Option ℕ → ℕ → ℕ
window_or none default_window_ms = default_window_ms
window_or (some window) default_window_ms = window

-- The window of an alert's rule, or the default.
unfoldable pub window_of : DeduplicatorConfig → Bytes → ℕ
window_of cfg rule_type = window_or (find rule_type cfg.per_rule_window_ms) cfg.default_window_ms

-- The predicate of `std::erase_if`; the difference is taken only if the clock did not go back.
unfoldable pub is_stale : ℕ → ℕ → ℕ → Bool
is_stale limit now_ms fired = if ltb now_ms fired then false else ltb limit (now_ms - fired)

-- `std::erase_if`: the entries that stay, and how many went.
unfoldable pub erase_stale : ℕ → ℕ → List (Bytes × ℕ) → List (Bytes × ℕ) × ℕ
erase_stale limit now_ms [] = ([], 0)
erase_stale limit now_ms ((key, fired) ∷ entries) =
    let (kept, removed) = erase_stale limit now_ms entries in
    if is_stale limit now_ms fired then (kept, removed + 1) else ((key, fired) ∷ kept, removed)

unfoldable pub cleanup_stale_entries : AlertDeduplicator → ℕ → AlertDeduplicator × ℕ
cleanup_stale_entries d now_ms =
    let (kept, removed) = erase_stale d.max_configured_window_ms now_ms d.last_fired_ms in
    (record d { last_fired_ms = kept }, removed)

-- `now_ms < map_it->second || now_ms - map_it->second < window`
unfoldable pub is_recent : ℕ → ℕ → ℕ → Bool
is_recent window now_ms fired = ltb now_ms fired || ltb (now_ms - fired) window

-- The lookup of the key: whether to suppress, and the map afterwards.
unfoldable pub decide : Option ℕ → Bytes → ℕ → ℕ → List (Bytes × ℕ) → List (Bytes × ℕ) × Bool
decide none key window now_ms fired = (assign key now_ms fired, false)
decide (some last) key window now_ms fired =
    if is_recent window now_ms last then (fired, true) else (assign key now_ms fired, false)

-- `++alerts_processed_since_cleanup_` in `size_t`, and a clean-up when enough have gone by.
unfoldable pub count_alert : AlertDeduplicator → ℕ → AlertDeduplicator
count_alert d now_ms =
    let n = (d.alerts_processed_since_cleanup + 1) % 2 ^ 64 in
    if leb d.cfg.cleanup_every_n_alerts n
    then record (cleanup_stale_entries d now_ms).0 { alerts_processed_since_cleanup = 0 }
    else record d { alerts_processed_since_cleanup = n }

unfoldable pub should_suppress : AlertDeduplicator → Alert → ℕ → AlertDeduplicator × Bool
should_suppress d alert now_ms =
    let key = build_key alert in
    let window = window_of d.cfg alert.rule_type in
    let (fired, suppress) = decide (find key d.last_fired_ms) key window now_ms d.last_fired_ms in
    (count_alert (record d { last_fired_ms = fired }) now_ms, suppress)

unfoldable pub tracked_keys_count : AlertDeduplicator → ℕ
tracked_keys_count d = length d.last_fired_ms
