-- ===== src/App/Tests.antt =====
-- A toy cipher that leaves the text as it is: from the command to the webhook.
use risk_sentinel.Common.{
  ◌≡◌, refl, sym, ap, subst, true, Option, none, some, List, [], ◌∷◌, Bytes, AreBytes, codes,
  length, replicate, IsArray-all_of, ◌++◌, ok,
}
use risk_sentinel.Security.{Openssl, bytes_to_hex}
use risk_sentinel.Security.Seal.{IsGcm}
use risk_sentinel.Admin.{go, Provisioned, encrypt_secret_command}
use risk_sentinel.App.Webhooks.{load_webhook_channels, push_endpoint}
use risk_sentinel.App.Provision.{row_of, load-provisioned}

abbrev zeros : Bytes
zeros = replicate 16 0

abbrev toy : Openssl
toy = record {
  cipher_ctx = true;
  init_cipher = true;
  set_ivlen = true;
  init_key = true;
  set_tag = true;
  encrypt_update = λ k n p. some p;
  encrypt_final = λ k n p. some [];
  get_tag = λ k n p. some zeros;
  decrypt_update = λ k n c. some c;
  decrypt_final = λ k n c t. some [];
  mac_fetch = true;
  mac_ctx = true;
  mac_init = true;
  mac_update = true;
  mac_final = λ k m. some (replicate 32 0);
}

some_value : Bytes → Option Bytes → Bytes
some_value b none = b
some_value b (some a) = a

some-injective : (a b : Bytes) → some a ≡ some b → a ≡ b
unfolding some_value
some-injective a b h = ap (some_value a) h

toy-IsGcm : IsGcm toy
toy-IsGcm = record {
  final_empty = λ k n p f h. sym (some-injective [] f h);
  keeps_length = λ k n p c h. ap length (sym (some-injective p c h));
  tag_length = λ k n p t h. ap length (sym (some-injective zeros t h));
  body_bytes = λ k n p c b h. subst AreBytes (some-injective p c h) b;
  tag_bytes =
      λ k n p t h. subst AreBytes (some-injective zeros t h) (IsArray-all_of 16 zeros refl refl).0;
  decrypts = λ k n p c h. ap some (sym (some-injective p c h));
  accepts = λ k n p c t h e. refl;
  accepts_empty = λ k n t h. refl;
}

abbrev nonce : Bytes
nonce = replicate 12 5

abbrev key_text : Bytes
key_text = codes "000102030405060708090a0b0c0d0e0f101112131415161718191A1B1C1D1E1F"

abbrev argv : List Bytes
argv =
    codes "--customer-id"
    ∷ codes "42"
    ∷ codes "--url"
    ∷ codes "https://a"
    ∷ codes "--secret"
    ∷ codes "key"
    ∷ []

abbrev prov : Provisioned
prov = record {
  customer_id = 42;
  url = codes "https://a";
  secret = codes "key";
  ciphertext_hex = bytes_to_hex (codes "key" ++ zeros);
  nonce_hex = bytes_to_hex nonce;
}

provisions : encrypt_secret_command toy (some key_text) none (some nonce) argv ≡ go prov
unfolding encrypt_secret_command
provisions = refl

load-provisioned_example :
    load_webhook_channels toy (some key_text) (ok (row_of prov ∷ [])) []
    ≡ load_webhook_channels toy
        (some key_text)
        (ok [])
        (push_endpoint 42 (record { url = codes "https://a"; hmac_secret = codes "key" }) [])
load-provisioned_example =
    load-provisioned toy toy-IsGcm refl (some key_text) none nonce argv prov [] []
      (IsArray-all_of 12 nonce refl refl).0 (IsArray-all_of 3 (codes "key") refl refl).0 provisions
