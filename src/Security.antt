-- ===== src/Security.antt =====
-- src/security/crypto.cpp: AES-256-GCM, HMAC and the master key, over the calls of OpenSSL.
pub mod Keys
pub mod Seal
use risk_sentinel.Common.{
  ℕ, ◌+◌, ◌-◌, ◌*◌, Bool, true, false, not, ◌&&◌, Option, none, some, List, [], ◌∷◌, ◌++◌, Bytes,
  codes, length, take, drop, ltb, leb, ◌==◌, if◌then◌else◌, Outcome, ok, err, ◌>>=◌, ◌>>◌, throw_if,
  ◌≡◌,
}
use risk_sentinel.Common.Digits.{to_string}
use risk_sentinel.Hex.{hex_pairs, joined}

-- What the calls of one encryption, decryption or authentication return: whether each step succeeds,
-- and the bytes that it writes.
pub record Openssl : Type 0 where
  pub cipher_ctx : Bool
  pub init_cipher : Bool
  pub set_ivlen : Bool
  pub init_key : Bool
  pub set_tag : Bool
  -- `EVP_EncryptUpdate`, `EVP_EncryptFinal_ex` and the tag, of a key, a nonce and a plaintext
  pub encrypt_update : Bytes → Bytes → Bytes → Option Bytes
  pub encrypt_final : Bytes → Bytes → Bytes → Option Bytes
  pub get_tag : Bytes → Bytes → Bytes → Option Bytes
  -- `EVP_DecryptUpdate` and `EVP_DecryptFinal_ex`, which also takes the tag
  pub decrypt_update : Bytes → Bytes → Bytes → Option Bytes
  pub decrypt_final : Bytes → Bytes → Bytes → Bytes → Option Bytes
  pub mac_fetch : Bool
  pub mac_ctx : Bool
  pub mac_init : Bool
  pub mac_update : Bool
  -- `EVP_MAC_final`: the digest of a key and a message
  pub mac_final : Bytes → Bytes → Option Bytes

unfoldable pub bytes_to_hex : Bytes → Bytes
bytes_to_hex bytes = hex_pairs bytes

-- A step that returns nothing throws.
unfoldable pub or_throw : Option Bytes → Bytes → Outcome Bytes
or_throw none e = err e
or_throw (some bytes) e = ok bytes

-- `if (len > 0) { ... }`: no data, no call.
unfoldable pub update_if : Bytes → Option Bytes → Bytes → Outcome Bytes
unfolding or_throw
update_if [] written e = ok []
update_if (b ∷ bytes) written e = or_throw written e

abbrev pub tag_len : ℕ
tag_len = 16

module _ (ssl : Openssl) where
  unfoldable pub aes_gcm_decrypt : Bytes → Bytes → Bytes → Outcome Bytes
  unfolding or_throw update_if
  aes_gcm_decrypt master_key nonce ciphertext = do
    throw_if (not (length master_key == 32)) (codes "aes_gcm_decrypt: master_key must be 32 bytes")
    throw_if (not (length nonce == 12)) (codes "aes_gcm_decrypt: nonce must be 12 bytes")
    throw_if (ltb (length ciphertext) tag_len)
        (codes "aes_gcm_decrypt: ciphertext too short (< 16 bytes)")
    throw_if (not ssl.cipher_ctx) (codes "aes_gcm_decrypt: EVP_CIPHER_CTX_new failed")
    throw_if (not ssl.init_cipher) (codes "aes_gcm_decrypt: EVP_DecryptInit_ex (cipher) failed")
    throw_if (not ssl.set_ivlen) (codes "aes_gcm_decrypt: setting IV length failed")
    throw_if (not ssl.init_key) (codes "aes_gcm_decrypt: EVP_DecryptInit_ex (key/iv) failed")
    let enc_len = length ciphertext - tag_len
    let encrypted = take enc_len ciphertext
    out ←
        update_if encrypted (ssl.decrypt_update master_key nonce encrypted)
          (codes "aes_gcm_decrypt: EVP_DecryptUpdate failed")
    throw_if (not ssl.set_tag) (codes "aes_gcm_decrypt: setting GCM tag failed")
    last ←
        or_throw (ssl.decrypt_final master_key nonce encrypted (drop enc_len ciphertext))
          (codes "aes_gcm_decrypt: authentication tag verification failed")
    ok (out ++ last)

  unfoldable pub aes_gcm_encrypt : Bytes → Bytes → Bytes → Outcome Bytes
  unfolding or_throw update_if
  aes_gcm_encrypt master_key nonce plaintext = do
    throw_if (not (length master_key == 32)) (codes "aes_gcm_encrypt: master_key must be 32 bytes")
    throw_if (not (length nonce == 12)) (codes "aes_gcm_encrypt: nonce must be 12 bytes")
    throw_if (not ssl.cipher_ctx) (codes "aes_gcm_encrypt: EVP_CIPHER_CTX_new failed")
    throw_if (not ssl.init_cipher) (codes "aes_gcm_encrypt: EVP_EncryptInit_ex (cipher) failed")
    throw_if (not ssl.set_ivlen) (codes "aes_gcm_encrypt: setting IV length failed")
    throw_if (not ssl.init_key) (codes "aes_gcm_encrypt: EVP_EncryptInit_ex (key/iv) failed")
    out ←
        update_if plaintext (ssl.encrypt_update master_key nonce plaintext)
          (codes "aes_gcm_encrypt: EVP_EncryptUpdate failed")
    last ←
        or_throw (ssl.encrypt_final master_key nonce plaintext)
          (codes "aes_gcm_encrypt: EVP_EncryptFinal_ex failed")
    tag ←
        or_throw (ssl.get_tag master_key nonce plaintext)
          (codes "aes_gcm_encrypt: getting GCM tag failed")
    ok ((out ++ last) ++ tag)

  unfoldable pub hmac_sha256_hex : Bytes → Bytes → Outcome Bytes
  unfolding or_throw bytes_to_hex
  hmac_sha256_hex key message = do
    throw_if (not ssl.mac_fetch) (codes "hmac_sha256_hex: EVP_MAC_fetch failed")
    throw_if (not ssl.mac_ctx) (codes "hmac_sha256_hex: EVP_MAC_CTX_new failed")
    throw_if (not ssl.mac_init) (codes "hmac_sha256_hex: EVP_MAC_init failed")
    throw_if (not ssl.mac_update) (codes "hmac_sha256_hex: EVP_MAC_update failed")
    digest ← or_throw (ssl.mac_final key message) (codes "hmac_sha256_hex: EVP_MAC_final failed")
    ok (bytes_to_hex digest)

-- The lambda `nibble` of `parse_master_key_hex`
unfoldable pub key_nibble : ℕ → Outcome ℕ
key_nibble c =
    if leb b'0' c && leb c b'9'
    then ok (c - b'0')
    else if leb b'a' c && leb c b'f'
    then ok (c - b'a' + 10)
    else if leb b'A' c && leb c b'F'
    then ok (c - b'A' + 10)
    else err (codes "parse_master_key_hex: invalid hex character '" ++ (c ∷ codes "'"))

-- Two digits for each byte.
unfoldable pub key_bytes : Bytes → Outcome Bytes
unfolding key_nibble joined
key_bytes (c ∷ d ∷ hex) = do
  hi ← key_nibble c
  lo ← key_nibble d
  rest ← key_bytes hex
  ok (joined hi lo ∷ rest)
key_bytes _ = ok []

unfoldable pub parse_master_key_hex : Bytes → Outcome Bytes
unfolding key_bytes
parse_master_key_hex hex = do
  throw_if (not (length hex == 64)) (
      codes "parse_master_key_hex: must be exactly 64 hex characters, got "
      ++ to_string (length hex))
  key_bytes hex
