-- ===== src/EventSource/Tests.antt =====
-- A chain of seven blocks, and an endpoint that refuses wide ranges.
use risk_sentinel.Common.{
  ℕ, ◌-◌, ◌≡◌, refl, false, if◌then◌else◌, ltb, [], ◌∷◌, codes, Outcome, ok, err, arith, map,
  bytes_beq,
}
use risk_sentinel.Signal.{Signal}
use risk_sentinel.Normalize.{RawLog, normalize, decode, parse_topics, evm_of, classify, meta_of}
use risk_sentinel.Hex.{
  parse_hex_uint64, nibbles, lacks_prefix, hex_nibble, shift_in, parse_hex_bytes, fill,
  validate_hex, all_nibbles, joined,
}
use risk_sentinel.EventSource.{
  EventSource, EventSourceConfig, Surroundings, make, poll_once, run, fetch, retry, to_block,
  first_range, capped, with_head, fetch_batch, deliver, push_all, push_one, advance, timestamp_or,
  stamp,
}
use risk_sentinel.EventSource.Fetch.{Ends, fetch-Ends}
use risk_sentinel.EventSource.Head.{IsBehind, poll_once-IsBehind}
use risk_sentinel.EventSource.Polls.{Polled, IsReady, AnswersBelow, poll_once-Polled}
use risk_sentinel.EventSource.Coverage.{Covered, run-Covered}

abbrev cfg : EventSourceConfig
cfg = record { start_block = 2; max_block_range = 4; min_block_range = 1; backtest_end_block = 0 }

-- A log without topics.
abbrev raw : RawLog
raw = record {
  address = codes "0x01";
  topics = [];
  hex_data = codes "0x";
  block_number = codes "0x2";
  transaction_hash = codes "0x";
  log_index = codes "0x0";
  transaction_index = codes "0x1";
  removed = false;
}

-- Ranges of more than two blocks are refused.
abbrev narrow : Surroundings
narrow = record {
  latest_block = ok 7;
  get_logs = λ from to. if ltb 1 (to - from) then err (codes "range") else ok (raw ∷ []);
  block_timestamp = λ block. ok block;
  system_now_ms = 0;
  steady_now_ms = λ n. n;
  uninitialized = λ n. [];
}

abbrev source : EventSource
source = record {
  cfg = cfg;
  chain_id = 1;
  next_block = 2;
  cold_start = false;
  cached_chain_head = 0;
  out = [];
}

made : make cfg 1 ≡ source
unfolding make
made = refl

two_blocks : fetch 5 cfg narrow 2 4 ≡ ok (3, raw ∷ [])
unfolding fetch retry to_block
two_blocks = refl

stamped :
    map (λ (s : Signal). s.meta.internal_ingress_time_ms) (poll_once source narrow).0.out ≡ 0 ∷ []
unfolding poll_once with_head capped fetch_batch first_range fetch retry to_block deliver push_all
    push_one advance timestamp_or normalize decode parse_hex_uint64 nibbles lacks_prefix hex_nibble
    shift_in parse_hex_bytes fill validate_hex all_nibbles parse_topics evm_of classify meta_of
    stamp bytes_beq joined
stamped = refl

next_after_poll : (poll_once source narrow).0.next_block ≡ 4
unfolding poll_once with_head capped fetch_batch first_range fetch retry to_block deliver push_all
    push_one advance timestamp_or normalize decode parse_hex_uint64 nibbles lacks_prefix hex_nibble
    shift_in parse_hex_bytes fill validate_hex all_nibbles parse_topics evm_of classify meta_of
    stamp bytes_beq joined
next_after_poll = refl

ready : IsReady cfg 0
ready = (omega arith, omega arith, omega arith)

answers : AnswersBelow narrow
answers head e = omega (arith, seven e)
  where
    seven : ◌≡◌ {A = Outcome ℕ} (ok 7) (ok head) → head ≡ 7
    seven h = cc

fetch-Ends_example : Ends cfg narrow 2 4 (fetch 5 cfg narrow 2 4)
fetch-Ends_example = fetch-Ends 5 cfg narrow 2 4 (omega arith)

poll_once-Polled_example : Polled source narrow (poll_once source narrow).0
poll_once-Polled_example = poll_once-Polled source narrow ready refl answers

run-Covered_example : Covered (narrow ∷ narrow ∷ []) source (run source (narrow ∷ narrow ∷ []))
run-Covered_example = run-Covered source (narrow ∷ narrow ∷ []) ready refl (answers, (answers, tt))

poll_once-IsBehind_example : IsBehind source (poll_once source narrow).0
poll_once-IsBehind_example = poll_once-IsBehind source narrow refl (omega arith) answers
