-- ===== src/Dedup/Tests.antt =====
-- The deduplicator on concrete alerts.
use risk_sentinel.Common.{
  ℕ, ◌+◌, ◌<◌, ◌≤◌, ◌≡◌, refl, true, false, none, some, [], ◌∷◌, Bytes, codes, arith, bytes_eq,
  bytes_beq, nat_eq,
}
use risk_sentinel.Common.Assoc.{find, assign}
use risk_sentinel.Common.Digits.{to_string, put_digits}
use risk_sentinel.Signal.{Alert}
use risk_sentinel.Dedup.{
  AlertDeduplicator, DeduplicatorConfig, build_key, chain_part, token_part, make, longest,
  window_of, window_or, is_stale, erase_stale, cleanup_stale_entries, is_recent, decide,
  count_alert, should_suppress, tracked_keys_count,
}
use risk_sentinel.Dedup.Key.{IsKeyable, build_key-injective}
use risk_sentinel.Dedup.Window.{should_suppress-within, within}
use risk_sentinel.Dedup.Repeats.{run, no_repeat_within_window}
use risk_sentinel.Dedup.Cleanup.{cleanup_stale_entries_lem}

abbrev approval_alert : Alert
approval_alert = record {
  customer_id = 7;
  rule_type = codes "ap";
  message = codes "m";
  timestamp_ms = 5;
  internal_ingress_time_ms = 0;
  amount_decimal = none;
  token_address = some (codes "0xa");
  chain_id = some 1;
}

-- Another message under the same key, and another customer's alert.
abbrev repeated : Alert
repeated = record approval_alert { message = codes "n" }

abbrev other : Alert
other = record approval_alert { customer_id = 8; chain_id = none }

abbrev cfg : DeduplicatorConfig
cfg = record {
  default_window_ms = 100;
  per_rule_window_ms = (codes "ap", 300) ∷ [];
  cleanup_every_n_alerts = 2;
}

key_of_alert : build_key approval_alert ≡ codes "7|ap|1|0xa"
unfolding build_key chain_part token_part to_string put_digits
key_of_alert = refl

key_without_chain : build_key other ≡ codes "8|ap|-|0xa"
unfolding build_key chain_part token_part to_string put_digits
key_without_chain = refl

approval_alert-IsKeyable : IsKeyable approval_alert
approval_alert-IsKeyable = record {
  customer_fits = omega arith;
  rule_lacks_bar = (omega arith, (omega arith, tt));
  chain_fits = omega arith;
}

repeated-IsKeyable : IsKeyable repeated
repeated-IsKeyable = record {
  customer_fits = omega arith;
  rule_lacks_bar = (omega arith, (omega arith, tt));
  chain_fits = omega arith;
}

other-IsKeyable : IsKeyable other
other-IsKeyable = record {
  customer_fits = omega arith;
  rule_lacks_bar = (omega arith, (omega arith, tt));
  chain_fits = tt;
}

same_key : build_key repeated ≡ build_key approval_alert
unfolding build_key
same_key = refl

same_key_back : build_key approval_alert ≡ build_key repeated
unfolding build_key
same_key_back = refl

passes : (should_suppress (run (make cfg) ((other, 900) ∷ [])) approval_alert 1000).1 ≡ false
unfolding make longest should_suppress decide find assign build_key chain_part token_part to_string
    put_digits window_of window_or is_stale erase_stale cleanup_stale_entries is_recent count_alert
    bytes_beq
passes = refl

before : (n : ℕ) → n < 300 → 1000 + n < 1000 + window_of cfg (codes "ap")
unfolding window_of window_or find bytes_beq
before n h = omega (arith, h)

no_repeat_example :
    (should_suppress
      (run
        (should_suppress (run (make cfg) ((other, 900) ∷ [])) approval_alert 1000).0
        ((other, 1290) ∷ []))
      repeated
      1299).1
    ≡ true
no_repeat_example =
    no_repeat_within_window cfg ((other, 900) ∷ []) ((other, 1290) ∷ []) approval_alert repeated
      1000 1299 approval_alert-IsKeyable repeated-IsKeyable same_key
      ((other-IsKeyable, before 290 (omega arith)), tt) (before 299 (omega arith)) passes

should_suppress-within_example :
    (should_suppress (make cfg) approval_alert 1000).1
    ≡ within
        (find (build_key approval_alert) (make cfg).last_fired_ms)
        (window_of (make cfg).cfg (codes "ap"))
        1000
should_suppress-within_example = should_suppress-within (make cfg) approval_alert 1000

build_key-injective_example :
    (approval_alert.customer_id ≡ repeated.customer_id)
    × (approval_alert.rule_type ≡ repeated.rule_type)
    × (approval_alert.chain_id ≡ repeated.chain_id)
    × (token_part approval_alert.token_address ≡ token_part repeated.token_address)
build_key-injective_example =
    build_key-injective approval_alert repeated approval_alert-IsKeyable repeated-IsKeyable
      same_key_back

abbrev two_keys : AlertDeduplicator
two_keys = record {
  cfg = cfg;
  last_fired_ms = (codes "a", 100) ∷ (codes "b", 650) ∷ [];
  alerts_processed_since_cleanup = 0;
  max_configured_window_ms = 300;
}

forgets_one : (cleanup_stale_entries two_keys 900).0.last_fired_ms ≡ (codes "b", 650) ∷ []
unfolding cleanup_stale_entries erase_stale is_stale
forgets_one = refl

cleanup_example :
    (tracked_keys_count (cleanup_stale_entries two_keys 900).0
        + (cleanup_stale_entries two_keys 900).1
      ≡ tracked_keys_count two_keys)
    × ((key : Bytes) (fired : ℕ)
        → find key two_keys.last_fired_ms ≡ some fired
        → 900 ≤ fired + two_keys.max_configured_window_ms
        → find key (cleanup_stale_entries two_keys 900).0.last_fired_ms ≡ some fired)
cleanup_example = cleanup_stale_entries_lem two_keys 900
