-- ===== src/Normalize/Arrays.antt =====
-- What `parse_hex_bytes` leaves in an array, and the fields of a decoded log.
use risk_sentinel.Common.{
  ℕ, zero, suc, ◌-◌, ◌/◌, ◌%◌, ◌^◌, ◌<◌, ◌≤◌, ◌≡◌, refl, ap, subst, false, ◌||◌, ltb, ◌==◌, not,
  List, [], ◌∷◌, Bytes, codes, length, drop, replicate, AreBytes, IsArray, All, arith, ok, bind-ok,
  throw_if-ok, ok-injective, if◌then◌else◌,
}
use risk_sentinel.Hex.{
  hex_nibble, joined, fill, parse_hex_bytes, lacks_prefix, validate_hex, parse_hex_uint64,
}
use risk_sentinel.Normalize.{RawLog, parse_topics, decode, evm_of, uint32_max}
use risk_sentinel.Signal.{EvmLogEvent}

joined-byte : (hi lo : ℕ) → joined hi lo < 256
unfolding joined
joined-byte hi lo = omega arith

fill-IsArray : (s out r : Bytes) (n : ℕ) → IsArray n out → fill s out ≡ ok r → IsArray n r
unfolding fill
fill-IsArray s [] r n h e = subst (IsArray n) (ok-injective _ _ e) h
fill-IsArray [] (b ∷ out) r n h e = subst (IsArray n) (ok-injective _ _ e) h
fill-IsArray (c ∷ []) (b ∷ out) r n h e = subst (IsArray n) (ok-injective _ _ e) h
fill-IsArray (c ∷ d ∷ s) (b ∷ out) r n h e =
    let (hi, _, e₁) = bind-ok (hex_nibble c) _ r e in
    let (lo, _, e₂) = bind-ok (hex_nibble d) _ r e₁ in
    let (rest, p, e₃) = bind-ok (fill s out) _ r e₂ in
    let (bytes, len) = fill-IsArray s out rest (length out) (h.0.1, refl) p in
    subst (IsArray n) (ok-injective _ _ e₃) ((joined-byte hi lo, bytes), omega (arith, len, h.1))

-- An array is still one after `parse_hex_bytes` has read into it.
pub parse_hex_bytes-IsArray :
    (hex out r : Bytes) (n : ℕ) → IsArray n out → parse_hex_bytes hex out ≡ ok r → IsArray n r
unfolding parse_hex_bytes
parse_hex_bytes-IsArray hex out r n h e =
    let (_, e₁) =
      throw_if-ok (ltb (length hex) 2 || lacks_prefix hex) (codes "invalid hex bytes") _ r e in
    let (_, e₂) =
      throw_if-ok (not ((length hex - 2) % 2 == 0)) (codes "hex string has odd length") _ r e₁ in
    fill-IsArray (drop 2 hex) out r n h e₂

zeros-AreBytes : (n : ℕ) → AreBytes (replicate n 0)
zeros-AreBytes zero = tt
zeros-AreBytes (suc n) = (omega arith, zeros-AreBytes n)

length-zeros : (n : ℕ) → length {A = ℕ} (replicate n 0) ≡ n
length-zeros zero = refl
length-zeros (suc n) = omega (arith, length-zeros n)

pub zeros-IsArray : (n : ℕ) → IsArray n (replicate n 0)
zeros-IsArray n = (zeros-AreBytes n, length-zeros n)

-- A list of `n` arrays of 32 bytes.
abbrev pub AreTopics : ℕ → List Bytes → Type 0
AreTopics n topics = All (IsArray 32) topics × (length topics ≡ n)

parse_topics-AreTopics :
    (n : ℕ) (raw topics : List Bytes) → parse_topics n raw ≡ ok topics → AreTopics n topics
unfolding parse_topics
parse_topics-AreTopics zero raw topics e = subst (AreTopics 0) (ok-injective _ _ e) (tt, refl)
parse_topics-AreTopics (suc n) [] topics e =
    let (rest, p, e₁) = bind-ok (parse_topics n []) _ topics e in
    let (all, len) = parse_topics-AreTopics n [] rest p in
    subst (AreTopics (suc n)) (ok-injective _ _ e₁) ((zeros-IsArray 32, all), ap suc len)
parse_topics-AreTopics (suc n) (hex ∷ raw) topics e =
    let (first, q, e₁) = bind-ok (parse_hex_bytes hex (replicate 32 0)) _ topics e in
    let (rest, p, e₂) = bind-ok (parse_topics n raw) _ topics e₁ in
    let (all, len) = parse_topics-AreTopics n raw rest p in
    subst (AreTopics (suc n)) (ok-injective _ _ e₂) (
      (parse_hex_bytes-IsArray hex (replicate 32 0) first 32 (zeros-IsArray 32) q, all),
      ap suc len,
    )

-- The fields of a log are within the types of the source.
pub record IsLog (evm : EvmLogEvent) : Type 0 where
  pub address_array : IsArray 20 evm.address
  pub topic_arrays : AreTopics 4 evm.topics
  pub topic_bound : evm.topic_count ≤ 4
  pub data_array : IsArray 256 evm.data_bytes
  pub data_bound : evm.data_size ≤ 256
  pub tx_index_fits : evm.tx_index < 2 ^ 32
  pub log_index_fits : evm.log_index < 2 ^ 32

size_bound : (n : ℕ) → (if ltb 256 n then 256 else n) ≤ 256
size_bound n = ground arith

or_fits : (a b : ℕ) → (ltb uint32_max a || ltb uint32_max b) ≡ false → (a < 2 ^ 32) × (b < 2 ^ 32)
or_fits a b h = (ground arith, ground arith)

pub decode-IsLog :
    (raw : RawLog) (chain_id : ℕ) (evm : EvmLogEvent) → decode raw chain_id ≡ ok evm → IsLog evm
unfolding decode evm_of
decode-IsLog raw chain_id evm e =
    let (txi, _, e₁) = bind-ok (parse_hex_uint64 raw.transaction_index) _ evm e in
    let (lgi, _, e₂) = bind-ok (parse_hex_uint64 raw.log_index) _ evm e₁ in
    let (fits, e₃) =
      throw_if-ok (ltb uint32_max txi || ltb uint32_max lgi)
        (codes "tx_index/log_index out of range") _ evm e₂ in
    let (address, a, e₄) = bind-ok (parse_hex_bytes raw.address (replicate 20 0)) _ evm e₃ in
    let (topics, t, e₅) = bind-ok (parse_topics 4 raw.topics) _ evm e₄ in
    let (_, _, e₆) = bind-ok (validate_hex raw.hex_data) _ evm e₅ in
    let (data_bytes, d, e₇) = bind-ok (parse_hex_bytes raw.hex_data (replicate 256 0)) _ evm e₆ in
    subst IsLog (ok-injective _ _ e₇) (record {
      address_array =
          parse_hex_bytes-IsArray raw.address (replicate 20 0) address 20 (zeros-IsArray 20) a;
      topic_arrays = parse_topics-AreTopics 4 raw.topics topics t;
      topic_bound = omega arith;
      data_array =
          parse_hex_bytes-IsArray raw.hex_data (replicate 256 0) data_bytes 256 (zeros-IsArray 256)
            d;
      data_bound = size_bound ((length raw.hex_data - 2) / 2);
      tx_index_fits = (or_fits txi lgi fits).0;
      log_index_fits = (or_fits txi lgi fits).1;
    })
