-- ===== src/App/Webhooks.antt =====
-- src/app/app.cpp: `load_webhook_channels_`. What the database returns is an argument: `none` is NULL,
-- and a conversion of a column may throw.
use risk_sentinel.Common.{
  ℕ, ◌+◌, ◌-◌, not, ◌&&◌, ◌||◌, Option, none, some, List, [], ◌∷◌, ◌++◌, Bytes, codes, length, take,
  drop, ltb, leb, if◌then◌else◌, bytes_beq, nat_eq, Outcome, ok, err, ◌>>=◌, ◌>>◌, throw_if,
}
use risk_sentinel.Common.Assoc.{find, assign}
use risk_sentinel.Hex.{joined}
use risk_sentinel.Rules.{bucket}
use risk_sentinel.Security.{Openssl, aes_gcm_decrypt, parse_master_key_hex}

pub record WebhookEndpoint : Type 0 where
  pub url : Bytes
  pub hmac_secret : Bytes

abbrev pub Webhooks : Type 0
Webhooks = List (ℕ × List WebhookEndpoint)

-- The lambda `nibble` of `parse_pg_bytea`
unfoldable pub pg_nibble : ℕ → Outcome ℕ
pg_nibble c =
    if leb b'0' c && leb c b'9'
    then ok (c - b'0')
    else if leb b'a' c && leb c b'f'
    then ok (c - b'a' + 10)
    else if leb b'A' c && leb c b'F'
    then ok (c - b'A' + 10)
    else err (codes "invalid hex nibble in BYTEA: '" ++ (c ∷ codes "'"))

-- The loop over pairs of digits; a digit that is left over at the end is not looked at.
unfoldable pub pg_bytes : Bytes → Outcome Bytes
unfolding pg_nibble joined
pg_bytes (c ∷ d ∷ s) = do
  hi ← pg_nibble c
  lo ← pg_nibble d
  rest ← pg_bytes s
  ok (joined hi lo ∷ rest)
pg_bytes _ = ok []

-- `s[0] != '\\' || s[1] != 'x'`
unfoldable pub parse_pg_bytea : Bytes → Outcome Bytes
unfolding pg_bytes
parse_pg_bytea s = do
  throw_if (ltb (length s) 2 || not (bytes_beq (take 2 s) (92 ∷ b'x' ∷ [])))
      (codes "unexpected BYTEA format (expected " ++ (92 ∷ codes "x prefix)"))
  pg_bytes (drop 2 s)

-- One row of `customer_webhook_channels`.
pub record WebhookRow : Type 0 where
  pub customer_id : Outcome ℕ
  pub url : Outcome Bytes
  pub hmac_secret_encrypted : Option Bytes
  pub hmac_secret_nonce : Option Bytes

unfoldable pub decrypted : Openssl → Bytes → Bytes → Bytes → Outcome Bytes
unfolding parse_pg_bytea aes_gcm_decrypt
decrypted ssl master_key enc_raw nonce_raw = do
  enc_bytes ← parse_pg_bytea enc_raw
  nonce_bytes ← parse_pg_bytea nonce_raw
  aes_gcm_decrypt ssl master_key nonce_bytes enc_bytes

-- An endpoint without both columns is not signed.
unfoldable pub secret_of : Openssl → Bytes → Option Bytes → Option Bytes → Outcome Bytes
unfolding decrypted
secret_of ssl master_key (some enc_raw) (some nonce_raw) =
    decrypted ssl master_key enc_raw nonce_raw
secret_of ssl master_key _ _ = ok []

-- `customer_webhooks_[customer_id].push_back(...)`
unfoldable pub push_endpoint : ℕ → WebhookEndpoint → Webhooks → Webhooks
push_endpoint id endpoint webhooks = assign id (bucket (find id webhooks) ++ endpoint ∷ []) webhooks

-- A secret that cannot be decrypted skips its row.
unfoldable pub add_if : ℕ → Bytes → Outcome Bytes → Webhooks → Webhooks
unfolding push_endpoint
add_if id url (err e) webhooks = webhooks
add_if id url (ok secret) webhooks =
    push_endpoint id (record { url = url; hmac_secret = secret }) webhooks

-- The loop over the rows: a column that cannot be converted ends it, with the endpoints before it.
unfoldable pub load_rows : Openssl → Bytes → List WebhookRow → Webhooks → Webhooks
unfolding add_if secret_of
load_rows ssl master_key [] webhooks = webhooks
load_rows ssl master_key (row ∷ rows) webhooks =
    let columns : Outcome (ℕ × Bytes) = row.customer_id >>= λ id. row.url >>= λ url. ok (id, url) in
    elim columns [
      | err e ↦ webhooks
      | ok (id, url) ↦ load_rows ssl master_key rows (
          add_if id url (secret_of ssl master_key row.hmac_secret_encrypted row.hmac_secret_nonce)
            webhooks)
    ]

unfoldable pub rows_or_none : Outcome (List WebhookRow) → List WebhookRow
rows_or_none (ok rows) = rows
rows_or_none (err e) = []

-- A key that is malformed disables the channel.
unfoldable pub with_key : Openssl → Outcome Bytes → Outcome (List WebhookRow) → Webhooks → Webhooks
unfolding load_rows rows_or_none
with_key ssl (err e) query webhooks = webhooks
with_key ssl (ok master_key) query webhooks = load_rows ssl master_key (rows_or_none query) webhooks

unfoldable pub load_webhook_channels :
    Openssl → Option Bytes → Outcome (List WebhookRow) → Webhooks → Webhooks
unfolding with_key parse_master_key_hex
load_webhook_channels ssl none query webhooks = webhooks
load_webhook_channels ssl (some []) query webhooks = webhooks
load_webhook_channels ssl (some (c ∷ text)) query webhooks =
    with_key ssl (parse_master_key_hex (c ∷ text)) query webhooks
