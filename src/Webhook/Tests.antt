-- ===== src/Webhook/Tests.antt =====
-- A toy JSON library that writes the values of an object one after the other, and a toy HMAC.
use risk_sentinel.Common.{
  ℕ, ◌≡◌, refl, Bool, true, false, not, none, some, List, [], ◌∷◌, ◌++◌, Bytes, codes, nat_eq, ok,
  err, ◌==◌,
}
use risk_sentinel.Common.Assoc.{find}
use risk_sentinel.Common.Digits.{to_string, put_digits}
use risk_sentinel.Signal.{Alert}
use risk_sentinel.Rules.{bucket}
use risk_sentinel.Security.{Openssl, hmac_sha256_hex}
use risk_sentinel.App.Webhooks.{Webhooks}
use risk_sentinel.Rpc.{JsonValue}
use risk_sentinel.Webhook.{send}
use risk_sentinel.Webhook.Signed.{Delivered, alert_value, send-Delivered}

unfoldable values : List (Bytes × Bytes) → Bytes
values [] = []
values ((k, v) ∷ ms) = v ++ (b',' ∷ values ms)

abbrev toy_json : JsonValue Bytes
toy_json = record {
  contains = λ v k. false;
  at = λ v k. err [];
  is_null = λ v. false;
  is_array = λ v. false;
  items = λ v. [];
  get_string = λ v. ok v;
  get_bool = λ v. err [];
  text = λ s. s;
  flag = λ b. [];
  number = to_string;
  array = λ xs. [];
  object = values;
  dump = λ v. v;
  parse = λ s. ok s;
}

abbrev toy : Openssl
toy = record {
  cipher_ctx = true;
  init_cipher = true;
  set_ivlen = true;
  init_key = true;
  set_tag = true;
  encrypt_update = λ k n p. some p;
  encrypt_final = λ k n p. some [];
  get_tag = λ k n p. some [];
  decrypt_update = λ k n c. some c;
  decrypt_final = λ k n c t. some [];
  mac_fetch = true;
  mac_ctx = true;
  mac_init = true;
  mac_update = true;
  mac_final = λ k m. some (k ++ m);
}

abbrev webhooks : Webhooks
webhooks =
    (5, record { url = codes "https://other"; hmac_secret = [] } ∷ [])
    ∷ (
      7,
      record { url = codes "https://a"; hmac_secret = codes "key" }
          ∷ record { url = codes "https://b"; hmac_secret = [] }
          ∷ record { url = codes "https://c"; hmac_secret = [] }
          ∷ [],
    )
    ∷ []

abbrev alert : Alert
alert = record {
  customer_id = 7;
  rule_type = codes "approval";
  message = codes "m";
  timestamp_ms = 5;
  internal_ingress_time_ms = 0;
  amount_decimal = none;
  token_address = none;
  chain_id = some 1;
}

abbrev handles : ℕ → Bool
handles i = not (i == 1)

returns : (send toy_json toy handles 1000 webhooks alert).1 ≡ ok tt
unfolding send find bucket hmac_sha256_hex values to_string put_digits
returns = refl

send-Delivered_example :
    Delivered toy
      (to_string 1000)
      (toy_json.dump (alert_value toy_json alert))
      handles
      0
      (bucket (find 7 webhooks))
      (send toy_json toy handles 1000 webhooks alert).0
send-Delivered_example = send-Delivered toy_json toy handles 1000 webhooks alert returns
