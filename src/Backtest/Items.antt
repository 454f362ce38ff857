-- ===== src/Backtest/Items.antt =====
-- About src/backtest/backtest_config.cpp: what an approval item of the file says, member by member.
use risk_sentinel.Common.{
  ℕ, ◌≡◌, refl, sym, ◌∙◌, ap, ◌⊎◌, inl, inr, Bool, true, false, Option, none, some, List, [], ◌∷◌,
  Bytes, codes, replicate, Outcome, ok, err, ◌>>=◌, bind-ok, ok-injective,
}
use risk_sentinel.Common.Ensures.{Ensures, Ensures-ok, Ensures-bind}
use risk_sentinel.Common.Lower.{lower}
use risk_sentinel.Hex.{parse_hex_bytes}
use risk_sentinel.Hex.Value.{be_value}
use risk_sentinel.Common.Digits.{decimal_value}
use risk_sentinel.Hex.Decimal.{decimal_to_be_256_sound}
use risk_sentinel.Rules.{address_to_hex}
use risk_sentinel.Rules.Approval.{ApprovalRuleConfig}
use risk_sentinel.Backtest.Yaml.{Yaml}
use risk_sentinel.Backtest.Fields.{
  converted, present, required, require_string, require_uint, warn_unknown_keys,
  validate_hex_address,
}
use risk_sentinel.Backtest.Config.{read_address, read_threshold, optional}
use risk_sentinel.Backtest.Feeds.{read_approval}
use risk_sentinel.Backtest.Checked.{parsed-Names}

converted-ok {ℓ} :
    {A : Type ℓ} (r : Outcome A) (field ctx type : Bytes) (a : A)
    → converted r field ctx type ≡ ok a
    → r ≡ ok a
unfolding converted
converted-ok (ok b) field ctx type a h = h
converted-ok (err e) field ctx type a h = cc

module _ {Node : Type 0} ⦃yaml : Yaml Node⦄ where
  -- The item has this member, and its value converts to `a`.
  abbrev pub Says {ℓ} : {A : Type ℓ} → Node → Bytes → (Node → Outcome A) → A → Type ℓ
  Says item field convert a =
      (value : Node) × (yaml.subscript item field ≡ ok (some value)) × (convert value ≡ ok a)

  -- A configuration says what an item says: the customer and the chain, the token whose printed address
  -- is the text in lower case, the number that the digits of the threshold spell, and whether infinite
  -- approvals alert, which they do not if the item is silent.
  pub record IsItem (item : Node) (c : ApprovalRuleConfig) : Type 0 where
    pub customer : Says item (codes "customer_id") yaml.as_uint64 c.customer_id
    pub chain : Says item (codes "chain_id") yaml.as_uint64 c.chain_id
    pub token :
        (text : Bytes) × Says item (codes "token_address") yaml.as_string text
        × (lower text ≡ address_to_hex c.token_address)
    pub threshold :
        (digits : Bytes) × Says item (codes "threshold_decimal") yaml.as_string digits
        × (be_value c.threshold_be ≡ decimal_value 0 digits)
    pub infinite :
        ((yaml.subscript item (codes "alert_on_infinite") ≡ ok none)
          × (c.alert_on_infinite ≡ false))
        ⊎ Says item (codes "alert_on_infinite") yaml.as_bool c.alert_on_infinite
    pub live : c.enabled ≡ true

  -- One configuration for each item, in order.
  abbrev pub AreItems : List Node → List ApprovalRuleConfig → Type 0
  AreItems [] [] = Unit {0}
  AreItems (item ∷ items) (c ∷ cs) = IsItem item c × AreItems items cs
  AreItems _ _ = ⊥

  present-some :
      (o : Option Node) (field ctx : Bytes) (value : Node)
      → present o field ctx ≡ ok value
      → o ≡ some value
  unfolding present
  present-some none field ctx value h = cc
  present-some (some v) field ctx value h = ap some (ok-injective v value h)

  required-Says :
      (item : Node) (field ctx : Bytes) (value : Node)
      → required item field ctx ≡ ok value
      → yaml.subscript item field ≡ ok (some value)
  unfolding required
  required-Says item field ctx value h =
      let (o, e, p) =
        bind-ok (yaml.subscript item field) (λ (o : Option Node). present o field ctx) value h in
      e ∙ ap ok (present-some o field ctx value p)

  converted-Says {ℓ} :
      {A : Type ℓ} (convert : Node → Outcome A) (item : Node) (field ctx type : Bytes) (a : A)
      → (required item field ctx >>= λ v. converted (convert v) field ctx type) ≡ ok a
      → Says item field convert a
  converted-Says convert item field ctx type a h =
      let (value, e, c) =
        bind-ok (required item field ctx) (λ (v : Node). converted (convert v) field ctx type) a
          h in
      (value, required-Says item field ctx value e, converted-ok (convert value) field ctx type a c)

  require_uint-Says :
      (item : Node) (field ctx : Bytes) (n : ℕ)
      → require_uint item field ctx ≡ ok n
      → Says item field yaml.as_uint64 n
  unfolding require_uint
  require_uint-Says item field ctx n h = converted-Says yaml.as_uint64 item field ctx _ n h

  require_string-Says :
      (item : Node) (field ctx : Bytes) (s : Bytes)
      → require_string item field ctx ≡ ok s
      → Says item field yaml.as_string s
  unfolding require_string
  require_string-Says item field ctx s h = converted-Says yaml.as_string item field ctx _ s h

  address-Says :
      (item : Node) (field ctx : Bytes)
      → Ensures
          (λ a. (text : Bytes) × Says item field yaml.as_string text × (lower text ≡ a))
          (read_address item field ctx)
  unfolding read_address
  address-Says item field ctx = Ensures-bind (require_string item field ctx) _ λ text e.
      Ensures-bind (validate_hex_address (lower text) ctx) _
        λ _ _. Ensures-ok _ (text, require_string-Says item field ctx text e, refl)

  threshold-Says :
      (item : Node) (field ctx : Bytes)
      → Ensures
          (λ t.
            (digits : Bytes) × Says item field yaml.as_string digits
            × (be_value t ≡ decimal_value 0 digits))
          (read_threshold item field ctx)
  unfolding read_threshold
  threshold-Says item field ctx = Ensures-bind (require_string item field ctx) _ λ digits e.
      record {
        at = λ t h. (
          digits,
          require_string-Says item field ctx digits e,
          (decimal_to_be_256_sound digits t h).1,
        );
      }

  optional-Says :
      (item : Node) (o : Option Node) (b : Bool)
      → yaml.subscript item (codes "alert_on_infinite") ≡ ok o
      → optional yaml.as_bool false o ≡ ok b
      → ((yaml.subscript item (codes "alert_on_infinite") ≡ ok none) × (b ≡ false))
        ⊎ Says item (codes "alert_on_infinite") yaml.as_bool b
  unfolding optional
  optional-Says item none b e h = inl (e, sym (ok-injective false b h))
  optional-Says item (some value) b e h = inr (value, e, h)

  pub read_approval-IsItem :
      (ctx : Bytes) (item : Node) → Ensures (λ c. IsItem item c.1) (read_approval ctx item)
  unfolding read_approval
  read_approval-IsItem ctx item = Ensures-bind (warn_unknown_keys item _) _ λ _ _.
      Ensures-bind (require_uint item (codes "customer_id") ctx) _ λ id e1.
        Ensures-bind (require_uint item (codes "chain_id") ctx) _ λ chain e2.
          Ensures-bind (read_address item (codes "token_address") ctx) _ λ token e3.
            Ensures-bind (parse_hex_bytes token (replicate 20 0)) _ λ bytes e4.
              Ensures-bind (read_threshold item (codes "threshold_decimal") ctx) _ λ t e5.
                Ensures-bind (yaml.subscript item (codes "alert_on_infinite")) _ λ o e6.
                  Ensures-bind (optional yaml.as_bool false o) _ λ b e7.
                    let (text, says, lowered) =
                      (address-Says item (codes "token_address") ctx).at token e3 in
                    let names = parsed-Names item (codes "token_address") ctx token bytes e3 e4 in
                    Ensures-ok _ (record {
                      customer = require_uint-Says item (codes "customer_id") ctx id e1;
                      chain = require_uint-Says item (codes "chain_id") ctx chain e2;
                      token = (text, says, lowered ∙ sym names.2);
                      threshold = (threshold-Says item (codes "threshold_decimal") ctx).at t e5;
                      infinite = optional-Says item o b e6 e7;
                      live = refl;
                    })
