-- ===== src/Admin.antt =====
-- src/admin/encrypt_secret.cpp: `encrypt_secret_command`. Its messages are left out; what it prints for
-- the database is its result.
use risk_sentinel.Common.{
  ℕ, Bool, true, false, not, ◌||◌, Option, none, some, List, [], ◌∷◌, Bytes, codes, length, ◌==◌,
  if◌then◌else◌, bytes_beq, Outcome, ok, err,
}
use risk_sentinel.Common.Stoull.{stoull}
use risk_sentinel.Security.{Openssl, aes_gcm_encrypt, bytes_to_hex, parse_master_key_hex}

-- A command that goes on, or returns its exit code.
pub data Exit {ℓ} (A : Type ℓ) : Type ℓ where
  go : A → Exit A
  exit : ℕ → Exit A

infixl 5 ◌>>=◌
abbrev pub ◌>>=◌ {ℓ κ} : {A : Type ℓ} {B : Type κ} → Exit A → (A → Exit B) → Exit B
go a >>= f = f a
exit code >>= f = exit code

pub record Args : Type 0 where
  pub customer_id : ℕ
  pub has_customer_id : Bool
  pub url : Bytes
  pub secret_plaintext : Bytes

-- `try { customer_id = std::stoull(argv[++i]); ... } catch (...) { return 1; }`
unfoldable pub with_customer : Outcome ℕ → Args → Exit Args
with_customer (ok id) args = go (record args { customer_id = id; has_customer_id = true })
with_customer (err e) args = exit 1

-- An option with its value.
unfoldable pub set_option : Bytes → Bytes → Args → Exit Args
unfolding with_customer stoull bytes_beq
set_option arg value args =
    if bytes_beq arg (codes "--customer-id")
    then with_customer (stoull 10 value) args
    else if bytes_beq arg (codes "--url")
    then go (record args { url = value })
    else if bytes_beq arg (codes "--secret")
    then go (record args { secret_plaintext = value })
    else exit 1

-- The arguments behind the command: an option without a value is unknown.
unfoldable pub parse_args : List Bytes → Args → Exit Args
unfolding set_option
parse_args [] args = go args
parse_args (arg ∷ []) args = exit 1
parse_args (arg ∷ value ∷ rest) args = set_option arg value args >>= parse_args rest

unfoldable pub check_args : Args → Exit Args
check_args args = if not args.has_customer_id || length args.url == 0 then exit 1 else go args

-- `std::getenv`: `none` if the variable is not set.
unfoldable pub key_of_env : Option Bytes → Exit Bytes
key_of_env none = exit 2
key_of_env (some text) = if length text == 0 then exit 2 else go text

unfoldable pub or_exit {ℓ} : {A : Type ℓ} → Outcome A → ℕ → Exit A
or_exit (ok a) code = go a
or_exit (err e) code = exit code

-- `RAND_bytes`: `none` if it fails.
unfoldable pub random_or : Option Bytes → Exit Bytes
random_or none = exit 3
random_or (some bytes) = go bytes

-- The secret that was given, or 32 random bytes in hex.
unfoldable pub secret_or : Bytes → Option Bytes → Exit Bytes
unfolding random_or bytes_to_hex
secret_or [] random = random_or random >>= λ bytes. go (bytes_to_hex bytes)
secret_or (c ∷ secret) random = go (c ∷ secret)

-- What is printed: the row for the database, and the secret for the customer.
pub record Provisioned : Type 0 where
  pub customer_id : ℕ
  pub url : Bytes
  pub secret : Bytes
  pub ciphertext_hex : Bytes
  pub nonce_hex : Bytes

unfoldable pub encrypt_secret_command :
    Openssl → Option Bytes → Option Bytes → Option Bytes → List Bytes → Exit Provisioned
unfolding parse_args check_args key_of_env or_exit parse_master_key_hex secret_or random_or
    aes_gcm_encrypt bytes_to_hex
encrypt_secret_command ssl env random random_nonce argv = do
  parsed ←
      parse_args argv
        (record { customer_id = 0; has_customer_id = false; url = []; secret_plaintext = [] })
  args ← check_args parsed
  text ← key_of_env env
  master_key ← or_exit (parse_master_key_hex text) 2
  secret ← secret_or args.secret_plaintext random
  nonce ← random_or random_nonce
  ciphertext ← or_exit (aes_gcm_encrypt ssl master_key nonce secret) 3
  go (record {
    customer_id = args.customer_id;
    url = args.url;
    secret = secret;
    ciphertext_hex = bytes_to_hex ciphertext;
    nonce_hex = bytes_to_hex nonce;
  })
