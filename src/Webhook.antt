-- ===== src/Webhook.antt =====
-- src/risk/webhook_alert_channel.cpp: `WebhookAlertChannel::send`. The JSON library, the calls of OpenSSL,
-- the clock and what curl has a handle for are arguments; what is posted is the result.
pub mod Signed
mod Tests
use risk_sentinel.Common.{
  ℕ, ◌+◌, Bool, true, false, Option, none, some, List, [], ◌∷◌, ◌++◌, Bytes, codes, if◌then◌else◌,
  nat_eq, Outcome, ok, err, ◌>>=◌,
}
use risk_sentinel.Common.Assoc.{find}
use risk_sentinel.Common.Digits.{to_string}
use risk_sentinel.Signal.{Alert}
use risk_sentinel.Rules.{bucket}
use risk_sentinel.Security.{Openssl, hmac_sha256_hex}
use risk_sentinel.App.Webhooks.{Webhooks, WebhookEndpoint}
use risk_sentinel.Rpc.{JsonValue}

-- One POST request: the URL, the body and the headers.
pub record Post : Type 0 where
  pub url : Bytes
  pub body : Bytes
  pub headers : List Bytes

-- `if (...has_value()) payload[key] = *...;`
unfoldable pub member_if {ℓ} :
    {A : Type ℓ} {J : Type 0} → Bytes → (A → J) → Option A → List (Bytes × J)
member_if key convert none = []
member_if key convert (some a) = (key, convert a) ∷ []

unfoldable pub payload : {J : Type 0} → ⦃json : JsonValue J⦄ → Alert → J
unfolding member_if
payload ⦃json⦄ alert = json.object (
    (codes "customer_id", json.number alert.customer_id)
    ∷ (codes "rule_type", json.text alert.rule_type)
    ∷ (codes "message", json.text alert.message)
    ∷ (codes "timestamp_ms", json.number alert.timestamp_ms)
    ∷ (member_if (codes "chain_id") json.number alert.chain_id
        ++ (member_if (codes "token_address") json.text alert.token_address
            ++ member_if (codes "amount_decimal") json.text alert.amount_decimal)))

-- The header with the signature of the time and the body, none for an endpoint without a secret.
unfoldable pub signature_of : Openssl → Bytes → Bytes → Bytes → Outcome (List Bytes)
unfolding hmac_sha256_hex
signature_of ssl [] timestamp_ms_str body = ok []
signature_of ssl (c ∷ secret) timestamp_ms_str body = do
  digest ← hmac_sha256_hex ssl (c ∷ secret) (timestamp_ms_str ++ (b'.' ∷ body))
  ok ((codes "X-Risk-Sentinel-Signature: sha256=" ++ digest) ∷ [])

unfoldable pub post_to : Bytes → Bytes → Bytes → List Bytes → Post
post_to url timestamp_ms_str body signature = record {
  url = url;
  body = body;
  headers =
      codes "Content-Type: application/json"
      ∷ (codes "X-Risk-Sentinel-Timestamp: " ++ timestamp_ms_str)
      ∷ signature;
}

-- One endpoint before the rest of the loop: without a handle it is left out, and a signature that throws
-- leaves the loop.
unfoldable pub post_next :
    Bool
    → Bytes
    → Bytes
    → Bytes
    → Outcome (List Bytes)
    → List Post × Outcome (Unit {0})
    → List Post × Outcome (Unit {0})
unfolding post_to
post_next handle url timestamp_ms_str body (err e) rest = ([], err e)
post_next handle url timestamp_ms_str body (ok signature) (posts, end) =
    ((if handle then post_to url timestamp_ms_str body signature ∷ posts else posts), end)

-- The loop over the endpoints from the index `i` on. Whether a request succeeds is only logged.
unfoldable pub post_each :
    Openssl → (ℕ → Bool) → Bytes → Bytes → ℕ → List WebhookEndpoint → List Post × Outcome (Unit {0})
unfolding signature_of post_next
post_each ssl handles timestamp_ms_str body i [] = ([], ok tt)
post_each ssl handles timestamp_ms_str body i (endpoint ∷ endpoints) =
    post_next (handles i) endpoint.url timestamp_ms_str body
      (signature_of ssl endpoint.hmac_secret timestamp_ms_str body)
      (post_each ssl handles timestamp_ms_str body (i + 1) endpoints)

-- A customer without endpoints has an empty bucket; `now_ms` is the system clock.
unfoldable pub send :
    {J : Type 0}
    → (json : JsonValue J) → Openssl
    → (ℕ → Bool)
    → ℕ
    → Webhooks
    → Alert
    → List Post × Outcome (Unit {0})
unfolding payload post_each
send json ssl handles now_ms customer_webhooks alert =
    post_each ssl handles (to_string now_ms) (json.dump (payload ⦃json = json⦄ alert)) 0
      (bucket (find alert.customer_id customer_webhooks))
