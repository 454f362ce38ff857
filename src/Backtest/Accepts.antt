-- ===== src/Backtest/Accepts.antt =====
-- About src/backtest/backtest_config.cpp: items that are accepted.
use risk_sentinel.Common.{
  ℕ, ◌/◌, ◌%◌, ◌<◌, ◌≤◌, ◌≡◌, ◌↔◌, refl, subst, true, List, [], ◌∷◌, Bytes, AreBytes, codes, length,
  replicate, IsArray, arith, ok,
}
use risk_sentinel.Common.Int.{pos}
use risk_sentinel.Common.Lower.{lower}
use risk_sentinel.Hex.{hex_pairs, all_nibbles, validate_hex, parse_hex_bytes, lacks_prefix}
use risk_sentinel.Hex.Quantity.{hex_nibble-hex_digit, parse_hex_bytes-hex_pairs, length-hex_pairs}
use risk_sentinel.Rules.{address_to_hex}
use risk_sentinel.Backtest.Yaml.{Yaml}
use risk_sentinel.Backtest.Fields.{
  validate_hex_address, hex_checked, warn_unknown_keys, require_uint, require_int, require_string,
}
use risk_sentinel.Backtest.Config.{read_address}
use risk_sentinel.Backtest.Feeds.{read_oracle}
use risk_sentinel.Backtest.Checked.{validate_hex_address-Names}

all_nibbles-hex_pairs : (bs : Bytes) → AreBytes bs → all_nibbles (hex_pairs bs) ≡ ok tt
unfolding all_nibbles hex_pairs
all_nibbles-hex_pairs [] h = refl
all_nibbles-hex_pairs (b ∷ bs) h =
    rw
      (
        hex_nibble-hex_digit (b / 16) (omega (arith, h.0)),
        hex_nibble-hex_digit (b % 16) (omega arith),
      )
      (all_nibbles-hex_pairs bs h.1)

validate_hex-address_to_hex : (a : Bytes) → AreBytes a → validate_hex (address_to_hex a) ≡ ok tt
unfolding validate_hex address_to_hex lacks_prefix
validate_hex-address_to_hex a h = ground (arith, length-hex_pairs a, all_nibbles-hex_pairs a h)

validate_hex_address-printed :
    (a context : Bytes) → IsArray 20 a → validate_hex_address (address_to_hex a) context ≡ ok tt
unfolding validate_hex_address hex_checked address_to_hex lacks_prefix
validate_hex_address-printed a context h =
    let valid = validate_hex-address_to_hex a h.0 in
    let len : length (hex_pairs a) ≡ 40 = omega (arith, length-hex_pairs a, h.1) in
    rw (len, valid) refl

-- A text passes the check of addresses, once in lower case, exactly when it is how twenty bytes are
-- printed; they are what it is then read as.
pub validate_hex_address-printable :
    (text context : Bytes)
    → (validate_hex_address (lower text) context ≡ ok tt)
      ↔ ((a : Bytes) × IsArray 20 a × (address_to_hex a ≡ lower text))
validate_hex_address-printable text context = (
  λ h.
      let (a, (array, _, printed)) = validate_hex_address-Names text context h in
      (a, array, printed),
  λ (a, array, printed).
      subst (λ t. validate_hex_address t context ≡ ok tt) printed
        (validate_hex_address-printed a context array),
)

pub parsed_printed :
    (a : Bytes) → IsArray 20 a → parse_hex_bytes (address_to_hex a) (replicate 20 0) ≡ ok a
unfolding address_to_hex
parsed_printed a h = parse_hex_bytes-hex_pairs a (replicate 20 0) h.0 h.1

module _ {Node : Type 0} ⦃yaml : Yaml Node⦄ where
  read_address-printed :
      (item : Node) (field ctx text a : Bytes)
      → require_string item field ctx ≡ ok text
      → IsArray 20 a
      → lower text ≡ address_to_hex a
      → read_address item field ctx ≡ ok (address_to_hex a)
  unfolding read_address
  read_address-printed item field ctx text a read array e =
      rw (read, e, validate_hex_address-printed a ctx array) refl

  -- An oracle item whose fields can be read, with the text of an address in any case, a threshold from
  -- 1 to 100000 and at most 255 decimals, is accepted, and its configuration has just these values.
  pub read_oracle-accepts :
      (ctx : Bytes) (item : Node) (unknown : List Bytes) (customer_id chain_id : ℕ)
      (text a label : Bytes) (bps dec : ℕ)
      → warn_unknown_keys item (
          codes "customer_id"
          ∷ codes "chain_id"
          ∷ codes "aggregator_address"
          ∷ codes "feed_label"
          ∷ codes "spike_threshold_bps"
          ∷ codes "decimals"
          ∷ [])
        ≡ ok unknown
      → require_uint item (codes "customer_id") ctx ≡ ok customer_id
      → require_uint item (codes "chain_id") ctx ≡ ok chain_id
      → require_string item (codes "aggregator_address") ctx ≡ ok text
      → IsArray 20 a
      → lower text ≡ address_to_hex a
      → require_string item (codes "feed_label") ctx ≡ ok label
      → require_int item (codes "spike_threshold_bps") ctx ≡ ok (pos bps)
      → require_int item (codes "decimals") ctx ≡ ok (pos dec)
      → 0 < bps
      → bps ≤ 100000
      → dec ≤ 255
      → read_oracle ctx item
        ≡ ok (record {
          customer_id = customer_id;
          chain_id = chain_id;
          aggregator_address = a;
          feed_label = label;
          spike_threshold_bps = bps;
          decimals = dec;
          enabled = true;
        })
  unfolding read_oracle
  read_oracle-accepts ctx item unknown customer_id chain_id text a label bps dec w r1 r2 r3 array e
        r4 r5 r6 low high small =
      rw
        (
          w,
          r1,
          r2,
          read_address-printed item (codes "aggregator_address") ctx text a r3 array e,
          parsed_printed a array,
          r4,
          r5,
          r6,
        )
        (ground arith)
