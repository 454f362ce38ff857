-- ===== src/Webhook/Signed.antt =====
-- About src/risk/webhook_alert_channel.cpp: who gets an alert, and how it is signed.
use risk_sentinel.Common.{
  ℕ, ◌+◌, ◌≡◌, refl, sym, ◌∙◌, ◌⊎◌, inl, inr, Bool, true, false, Option, none, some, ap, subst,
  List, [], ◌∷◌, ◌++◌, Bytes, codes, nat_eq, Outcome, ok, err, bind-ok, ok-injective,
}
use risk_sentinel.Common.Assoc.{find}
use risk_sentinel.Common.Digits.{to_string}
use risk_sentinel.Signal.{Alert}
use risk_sentinel.Rules.{bucket}
use risk_sentinel.Security.{Openssl, hmac_sha256_hex}
use risk_sentinel.App.Webhooks.{Webhooks, WebhookEndpoint}
use risk_sentinel.Rpc.{JsonValue}
use risk_sentinel.Webhook.{
  Post, member_if, payload, signature_of, post_to, post_next, post_each, send,
}

module _ (ssl : Openssl) (time body : Bytes) where
  -- The headers that the receiver checks: the signature is what it computes itself of the secret, the
  -- time in the header and the body, and is left out for an endpoint without a secret.
  abbrev pub IsSigned : Bytes → List Bytes → Type 0
  IsSigned secret signature =
      ((secret ≡ []) × (signature ≡ []))
      ⊎ ((digest : Bytes) × (hmac_sha256_hex ssl secret (time ++ (b'.' ∷ body)) ≡ ok digest)
          × (signature ≡ (codes "X-Risk-Sentinel-Signature: sha256=" ++ digest) ∷ []))

  signature_of-IsSigned :
      (secret : Bytes) (signature : List Bytes)
      → signature_of ssl secret time body ≡ ok signature
      → IsSigned secret signature
  unfolding signature_of
  signature_of-IsSigned [] signature h = inl (refl, sym (ok-injective [] signature h))
  signature_of-IsSigned (c ∷ secret) signature h =
      let (digest, e, last) =
        bind-ok (hmac_sha256_hex ssl (c ∷ secret) (time ++ (b'.' ∷ body)))
          (λ (digest : Bytes). ok ((codes "X-Risk-Sentinel-Signature: sha256=" ++ digest) ∷ []))
          signature h in
      inr (digest, e, sym (ok-injective _ signature last))

  -- The posts are those to the endpoints with a handle, in order.
  abbrev pub Delivered : (ℕ → Bool) → ℕ → List WebhookEndpoint → List Post → Type 0
  Delivered handles i [] posts = posts ≡ []
  Delivered handles i (endpoint ∷ endpoints) posts =
      ((handles i ≡ true)
        × (signature : List Bytes) × (rest : List Post) × IsSigned endpoint.hmac_secret signature
        × (posts
            ≡ record {
              url = endpoint.url;
              body = body;
              headers =
                  codes "Content-Type: application/json"
                  ∷ (codes "X-Risk-Sentinel-Timestamp: " ++ time)
                  ∷ signature;
            }
              ∷ rest)
        × Delivered handles (i + 1) endpoints rest)
      ⊎ ((handles i ≡ false) × Delivered handles (i + 1) endpoints posts)

  post_next-Delivered :
      (handles : ℕ → Bool) (i : ℕ) (endpoint : WebhookEndpoint) (endpoints : List WebhookEndpoint)
      (o : Outcome (List Bytes)) (rest : List Post × Outcome (Unit {0})) (handle : Bool)
      → handles i ≡ handle
      → signature_of ssl endpoint.hmac_secret time body ≡ o
      → (rest.1 ≡ ok tt → Delivered handles (i + 1) endpoints rest.0)
      → (post_next handle endpoint.url time body o rest).1 ≡ ok tt
      → Delivered handles i
          (endpoint ∷ endpoints)
          (post_next handle endpoint.url time body o rest).0
  unfolding post_next post_to
  post_next-Delivered handles i endpoint endpoints (err e) rest handle eh es ih h = cc
  post_next-Delivered handles i endpoint endpoints (ok signature) (posts, end) true eh es ih h =
      inl
        (eh, signature, posts, signature_of-IsSigned endpoint.hmac_secret signature es, refl, ih h)
  post_next-Delivered handles i endpoint endpoints (ok signature) (posts, end) false eh es ih h =
      inr (eh, ih h)

  post_each-Delivered :
      (handles : ℕ → Bool) (i : ℕ) (endpoints : List WebhookEndpoint)
      → (post_each ssl handles time body i endpoints).1 ≡ ok tt
      → Delivered handles i endpoints (post_each ssl handles time body i endpoints).0
  unfolding post_each
  post_each-Delivered handles i [] h = refl
  post_each-Delivered handles i (endpoint ∷ endpoints) h =
      post_next-Delivered handles i endpoint endpoints _ _ (handles i) refl refl
        (post_each-Delivered handles (i + 1) endpoints) h

-- A member that is left out if there is no value.
abbrev pub optional_member {ℓ} :
    {A : Type ℓ} {J : Type 0} → Bytes → (A → J) → Option A → List (Bytes × J)
optional_member key convert none = []
optional_member key convert (some a) = (key, convert a) ∷ []

-- The alert in JSON, with all that it says.
abbrev pub alert_value : {J : Type 0} → JsonValue J → Alert → J
alert_value json alert = json.object (
    (codes "customer_id", json.number alert.customer_id)
    ∷ (codes "rule_type", json.text alert.rule_type)
    ∷ (codes "message", json.text alert.message)
    ∷ (codes "timestamp_ms", json.number alert.timestamp_ms)
    ∷ (optional_member (codes "chain_id") json.number alert.chain_id
        ++ (optional_member (codes "token_address") json.text alert.token_address
            ++ optional_member (codes "amount_decimal") json.text alert.amount_decimal)))

member_if_lem {ℓ} :
    {A : Type ℓ} {J : Type 0} (key : Bytes) (convert : A → J) (o : Option A)
    → member_if key convert o ≡ optional_member key convert o
unfolding member_if
member_if_lem key convert none = refl
member_if_lem key convert (some a) = refl

payload-alert_value :
    {J : Type 0} (json : JsonValue J) (alert : Alert)
    → payload ⦃json = json⦄ alert ≡ alert_value json alert
unfolding payload
payload-alert_value {J} json alert =
    let build : List (Bytes × J) → List (Bytes × J) → List (Bytes × J) → J = λ chain token amount.
      json.object (
        (codes "customer_id", json.number alert.customer_id)
        ∷ (codes "rule_type", json.text alert.rule_type)
        ∷ (codes "message", json.text alert.message)
        ∷ (codes "timestamp_ms", json.number alert.timestamp_ms)
        ∷ (chain ++ (token ++ amount))) in
    let token = member_if (codes "token_address") json.text alert.token_address in
    let amount = member_if (codes "amount_decimal") json.text alert.amount_decimal in
    let chain' = optional_member (codes "chain_id") json.number alert.chain_id in
    let token' = optional_member (codes "token_address") json.text alert.token_address in
    ap (λ l. build l token amount) (member_if_lem (codes "chain_id") json.number alert.chain_id)
    ∙ (ap (λ l. build chain' l amount)
          (member_if_lem (codes "token_address") json.text alert.token_address)
        ∙ ap (build chain' token')
            (member_if_lem (codes "amount_decimal") json.text alert.amount_decimal))

-- If `send` of the webhook channel returns, exactly the endpoints of the alert's customer for which
-- there was a curl handle got one post each, in order. Each post has the alert in JSON as its body, with
-- every member that it has, and the time in a header, and for an endpoint with a secret the signature is the HMAC of that time and
-- that body under this secret.
pub send-Delivered :
    {J : Type 0} (json : JsonValue J) (ssl : Openssl) (handles : ℕ → Bool) (now_ms : ℕ)
    (customer_webhooks : Webhooks) (alert : Alert)
    → (send json ssl handles now_ms customer_webhooks alert).1 ≡ ok tt
    → Delivered ssl
        (to_string now_ms)
        (json.dump (alert_value json alert))
        handles
        0
        (bucket (find alert.customer_id customer_webhooks))
        (send json ssl handles now_ms customer_webhooks alert).0
unfolding send
send-Delivered json ssl handles now_ms customer_webhooks alert h =
    subst
      (λ body.
        Delivered ssl (to_string now_ms) body handles 0
          (bucket (find alert.customer_id customer_webhooks))
          (send json ssl handles now_ms customer_webhooks alert).0)
      (ap json.dump (payload-alert_value json alert)) (post_each-Delivered ssl _ _ handles 0 _ h)
