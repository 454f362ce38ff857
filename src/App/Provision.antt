-- ===== src/App/Provision.antt =====
-- About src/admin/encrypt_secret.cpp and src/app/app.cpp: a secret from the command to its webhook.
use risk_sentinel.Common.{
  ℕ, suc, ◌==◌, ◌/◌, ◌%◌, ◌<◌, ◌≡◌, refl, sym, ap, ◌∙◌, subst, true, false, Option, none, some,
  List, [], ◌∷◌, Bytes, AreBytes, length, arith, Outcome, ok, err, ltb, bytes_beq,
}
use risk_sentinel.Hex.{hex_digit, hex_pairs}
use risk_sentinel.Hex.Quantity.{joined_lem}
use risk_sentinel.Security.{Openssl, bytes_to_hex, aes_gcm_encrypt, parse_master_key_hex}
use risk_sentinel.Security.Seal.{IsGcm, aes_gcm_decrypt-encrypt, aes_gcm_encrypt-AreBytes}
use risk_sentinel.Admin.{
  Exit, go, exit, ◌>>=◌, Provisioned, parse_args, check_args, key_of_env, or_exit, random_or,
  secret_or, encrypt_secret_command,
}
use risk_sentinel.App.Webhooks.{
  Webhooks, WebhookRow, pg_nibble, pg_bytes, parse_pg_bytea, decrypted, secret_of, push_endpoint,
  add_if, load_rows, rows_or_none, with_key, load_webhook_channels,
}

pg_nibble-hex_digit : (d : ℕ) → d < 16 → pg_nibble (hex_digit d) ≡ ok d
unfolding pg_nibble hex_digit
pg_nibble-hex_digit d h = ground arith

pg_bytes-hex_pairs : (bs : Bytes) → AreBytes bs → pg_bytes (hex_pairs bs) ≡ ok bs
unfolding pg_bytes hex_pairs
pg_bytes-hex_pairs [] h = refl
pg_bytes-hex_pairs (b ∷ bs) h = rw (
  pg_nibble-hex_digit (b / 16) (omega (arith, h.0)),
  pg_nibble-hex_digit (b % 16) (omega arith),
  pg_bytes-hex_pairs bs h.1,
  joined_lem b h.0,
)

-- The text in which PostgreSQL returns a BYTEA whose hex digits were inserted.
abbrev pub bytea : Bytes → Bytes
bytea hex = 92 ∷ b'x' ∷ hex

long : (hex : Bytes) → ltb (length (bytea hex)) 2 ≡ false
long hex = ground arith

parse_pg_bytea-bytea : (bs : Bytes) → AreBytes bs → parse_pg_bytea (bytea (bytes_to_hex bs)) ≡ ok bs
unfolding parse_pg_bytea bytes_to_hex bytes_beq
parse_pg_bytea-bytea bs h = rw (long (hex_pairs bs)) (pg_bytes-hex_pairs bs h)

-- The row that the command prints, as the database returns it if it stores the number and the URL
-- unchanged.
abbrev pub row_of : Provisioned → WebhookRow
row_of prov = record {
  customer_id = ok prov.customer_id;
  url = ok prov.url;
  hmac_secret_encrypted = some (bytea prov.ciphertext_hex);
  hmac_secret_nonce = some (bytea prov.nonce_hex);
}

exit-bind {ℓ κ} :
    {A : Type ℓ} {B : Type κ} (m : Exit A) (f : A → Exit B) (b : B)
    → (m >>= f) ≡ go b
    → (a : A) × (m ≡ go a) × (f a ≡ go b)
exit-bind (go a) f b h = (a, refl, h)
exit-bind (exit code) f b h = cc

go_value {ℓ} : {A : Type ℓ} → A → Exit A → A
go_value a (go b) = b
go_value a (exit code) = a

go-injective {ℓ} : {A : Type ℓ} (a b : A) → go a ≡ go b → a ≡ b
unfolding go_value
go-injective a b h = ap (go_value a) h

or_exit-ok {ℓ} : {A : Type ℓ} (o : Outcome A) (code : ℕ) (a : A) → or_exit o code ≡ go a → o ≡ ok a
unfolding or_exit
or_exit-ok (ok b) code a h = ap ok (go-injective b a h)
or_exit-ok (err e) code a h = cc

-- The parts of a run of the command that returned a row.
record Run (ssl : Openssl) (env : Option Bytes) (nonce : Bytes) (prov : Provisioned) : Type 0 where
  text : Bytes
  key : Bytes
  ciphertext : Bytes
  is_text : key_of_env env ≡ go text
  is_key : parse_master_key_hex text ≡ ok key
  encrypted : aes_gcm_encrypt ssl key nonce prov.secret ≡ ok ciphertext
  printed : prov.ciphertext_hex ≡ bytes_to_hex ciphertext
  printed_nonce : prov.nonce_hex ≡ bytes_to_hex nonce

encrypt_secret_command-Run :
    (ssl : Openssl) (env random : Option Bytes) (nonce : Bytes) (argv : List Bytes)
    (prov : Provisioned)
    → encrypt_secret_command ssl env random (some nonce) argv ≡ go prov
    → Run ssl env nonce prov
unfolding encrypt_secret_command random_or
encrypt_secret_command-Run ssl env random nonce argv prov h =
    let (parsed, _, h1) = exit-bind (parse_args argv _) _ prov h in
    let (args, _, h2) = exit-bind (check_args parsed) _ prov h1 in
    let (text, is_text, h3) = exit-bind (key_of_env env) _ prov h2 in
    let (key, is_key, h4) = exit-bind (or_exit (parse_master_key_hex text) 2) _ prov h3 in
    let (secret, _, h5) = exit-bind (secret_or args.secret_plaintext random) _ prov h4 in
    let (ct, is_ct, h6) = exit-bind (or_exit (aes_gcm_encrypt ssl key nonce secret) 3) _ prov h5 in
    let eq = go-injective _ prov h6 in
    record {
      text = text;
      key = key;
      ciphertext = ct;
      is_text = is_text;
      is_key = or_exit-ok _ 2 key is_key;
      encrypted =
          subst (λ (s : Bytes). aes_gcm_encrypt ssl key nonce s ≡ ok ct)
            (ap (λ (p : Provisioned). p.secret) eq) (or_exit-ok _ 3 ct is_ct);
      printed = sym (ap (λ (p : Provisioned). p.ciphertext_hex) eq);
      printed_nonce = sym (ap (λ (p : Provisioned). p.nonce_hex) eq);
    }

-- The variable is set and not empty.
set_key :
    (env : Option Bytes) (text : Bytes)
    → key_of_env env ≡ go text
    → (c : ℕ) × (rest : Bytes) × (env ≡ some (c ∷ rest)) × (text ≡ c ∷ rest)
unfolding key_of_env
set_key none text h = cc
set_key (some []) text h = cc
set_key (some (c ∷ rest)) text h =
    let positive : suc (length rest) == 0 ≡ false = ground arith in
    let kept : key_of_env (some (c ∷ rest)) ≡ go (c ∷ rest) = rw positive refl in
    (c, rest, refl, sym (go-injective (c ∷ rest) text (sym kept ∙ h)))

module _ (ssl : Openssl) (gcm : IsGcm ssl) (set_tag : ssl.set_tag ≡ true) where
  decrypted-provisioned :
      (key nonce ct secret : Bytes)
      → AreBytes nonce
      → AreBytes secret
      → aes_gcm_encrypt ssl key nonce secret ≡ ok ct
      → decrypted ssl key (bytea (bytes_to_hex ct)) (bytea (bytes_to_hex nonce)) ≡ ok secret
  unfolding decrypted
  decrypted-provisioned key nonce ct secret bytes plain e =
      rw
        (
          parse_pg_bytea-bytea ct (aes_gcm_encrypt-AreBytes ssl gcm key nonce secret ct plain e),
          parse_pg_bytea-bytea nonce bytes,
        )
        (aes_gcm_decrypt-encrypt ssl gcm key nonce secret ct set_tag e)

  -- A row that `encrypt_secret_command` prints gives `load_webhook_channels_`, with the same
  -- environment variable, the customer's endpoint with the URL and the secret that the command shows,
  -- and the rows behind it are loaded as well. The calls of OpenSSL are assumed to do as documented
  -- and the tag to be set; the nonce and the secret consist of bytes.
  pub load-provisioned :
      (env random : Option Bytes) (nonce : Bytes) (argv : List Bytes) (prov : Provisioned)
      (rows : List WebhookRow) (webhooks : Webhooks)
      → AreBytes nonce
      → AreBytes prov.secret
      → encrypt_secret_command ssl env random (some nonce) argv ≡ go prov
      → load_webhook_channels ssl env (ok (row_of prov ∷ rows)) webhooks
        ≡ load_webhook_channels ssl env (ok rows) (
            push_endpoint prov.customer_id
              (record { url = prov.url; hmac_secret = prov.secret })
              webhooks)
  unfolding load_webhook_channels with_key load_rows rows_or_none add_if secret_of
  load-provisioned env random nonce argv prov rows webhooks bytes plain h =
      let run = encrypt_secret_command-Run ssl env random nonce argv prov h in
      let (c, rest, set, is_text) = set_key env run.text run.is_text in
      let key : parse_master_key_hex (c ∷ rest) ≡ ok run.key =
        subst (λ (t : Bytes). parse_master_key_hex t ≡ ok run.key) is_text run.is_key in
      let opened : decrypted ssl run.key (bytea prov.ciphertext_hex) (bytea prov.nonce_hex)
          ≡ ok prov.secret =
        rw (run.printed, run.printed_nonce)
          (decrypted-provisioned run.key nonce run.ciphertext prov.secret bytes plain
            run.encrypted) in
      rw (set, key, opened) refl
