-- ===== src/Backtest/Buckets.antt =====
-- About src/backtest/backtest_config.cpp: the items of a section, in order, and where the rule on
-- approvals finds them.
use risk_sentinel.Common.{
  ℕ, ◌+◌, ◌≡◌, refl, sym, ◌∙◌, ap, subst, Bool, true, false, not, ◌&&◌, some, List, [], ◌∷◌, ◌++◌,
  map, append_assoc, append-nil, Bytes, codes, replicate, take, IsArray, All, if-both, filter_by,
  if◌then◌else◌, ◌==◌, bytes_beq, bytes_beq_iff, Bool-cases, inl, inr, Outcome, ok, ◌>>=◌, bind-ok,
  ok-injective,
}
use risk_sentinel.Common.Ensures.{Ensures}
use risk_sentinel.Common.Assoc.{find, find-assign}
use risk_sentinel.Hex.{parse_hex_bytes}
use risk_sentinel.Signal.{
  Signal, SignalType, Alert, EvmLogEvent, ChainKey, key_eq, key_beq, key_beq_iff, evm_log,
}
use risk_sentinel.Rules.{bucket, address_to_hex, unusable}
use risk_sentinel.Rules.Approval
use risk_sentinel.Rules.Approval.{
  ApprovalRuleConfig, key_of, is_alert, alert_for, evaluate-is_alert,
}
use risk_sentinel.Backtest.Yaml.{Yaml}
use risk_sentinel.Backtest.Config.{
  BacktestConfig, push_back, item_context, each_item, parse_section,
}
use risk_sentinel.Backtest.Feeds.{read_approval, add_approval, parse_approval}
use risk_sentinel.Backtest.Accepts.{parsed_printed}
use risk_sentinel.Backtest.Items.{AreItems, read_approval-IsItem}
use risk_sentinel.Backtest.Valid.{ApprovalOk, read_approval-Ensures}

-- What the items say, one after the other.
abbrev pub read_all {ℓ} :
    {Node : Type 0} {C : Type ℓ}
    → Bytes
    → (Bytes → Node → Outcome C)
    → ℕ
    → List Node
    → Outcome (List C)
read_all section read idx [] = ok []
read_all section read idx (item ∷ items) = do
  c ← read (item_context section idx) item
  cs ← read_all section read (idx + 1) items
  ok (c ∷ cs)

abbrev pub add_all {ℓ} :
    {C : Type ℓ} → (C → BacktestConfig → BacktestConfig) → List C → BacktestConfig → BacktestConfig
add_all add [] cfg = cfg
add_all add (c ∷ cs) cfg = add_all add cs (add c cfg)

module _ {ℓ} {Node : Type 0} ⦃yaml : Yaml Node⦄ {C : Type ℓ} (section : Bytes)
    (read : Bytes → Node → Outcome C) (add : C → BacktestConfig → BacktestConfig) where
  each_item-read_all :
      (idx : ℕ) (items : List Node) (cfg : BacktestConfig) (cs : List C)
      → read_all section read idx items ≡ ok cs
      → each_item section read add idx items cfg ≡ ok (add_all add cs cfg)
  unfolding each_item
  each_item-read_all idx [] cfg cs h =
      ap (λ (l : List C). ok (add_all add l cfg)) (ok-injective [] cs h)
  each_item-read_all idx (item ∷ items) cfg cs h =
      let (c, e, h1) =
        bind-ok (read (item_context section idx) item)
          (λ (c : C). do cs' ← read_all section read (idx + 1) items; ok (c ∷ cs')) cs h in
      let (rest, er, h2) =
        bind-ok (read_all section read (idx + 1) items) (λ (cs' : List C). ok (c ∷ cs')) cs h1 in
      rw e (
        each_item-read_all (idx + 1) items (add c cfg) rest er
        ∙ ap (λ (l : List C). ok (add_all add l cfg)) (ok-injective (c ∷ rest) cs h2))

  read_all-All :
      (P : C → Type 0) (reads : (ctx : Bytes) (item : Node) → Ensures P (read ctx item)) (idx : ℕ)
      (items : List Node) (cs : List C)
      → read_all section read idx items ≡ ok cs
      → All P cs
  read_all-All P reads idx [] cs h = subst (All P) (ok-injective [] cs h) tt
  read_all-All P reads idx (item ∷ items) cs h =
      let ctx = item_context section idx in
      let (c, e, h1) =
        bind-ok (read ctx item)
          (λ (c : C). do cs' ← read_all section read (idx + 1) items; ok (c ∷ cs')) cs h in
      let (rest, er, h2) =
        bind-ok (read_all section read (idx + 1) items) (λ (cs' : List C). ok (c ∷ cs')) cs h1 in
      subst (All P) (ok-injective (c ∷ rest) cs h2)
        ((reads ctx item).at c e, read_all-All P reads (idx + 1) items rest er)

bucket-push_back {ℓ} :
    {C : Type ℓ} (k key : ChainKey) (c : C) (m : List (ChainKey × List C))
    → bucket (find k (push_back key c m))
      ≡ bucket (find k m) ++ (if key_beq key k then c ∷ [] else [])
unfolding push_back
bucket-push_back k key c m = elim (Bool-cases (key_beq key k)) [
  | inl e ↦
      rw (find-assign key k (bucket (find key m) ++ c ∷ []) m, e)
        (ap (λ j. bucket (find j m) ++ c ∷ []) ((key_beq_iff key k).0 e))
  | inr e ↦
      rw (find-assign key k (bucket (find key m) ++ c ∷ []) m, e)
        (sym (append-nil (bucket (find k m))))
]

address_to_hex-injective :
    (a b : Bytes) → IsArray 20 a → IsArray 20 b → address_to_hex a ≡ address_to_hex b → a ≡ b
address_to_hex-injective a b ha hb e = ok-injective a b (
    sym (parsed_printed a ha)
    ∙ (ap (λ (t : Bytes). parse_hex_bytes t (replicate 20 0)) e ∙ parsed_printed b hb))

same_truth : (x y : Bool) → (x ≡ true → y ≡ true) → (y ≡ true → x ≡ true) → x ≡ y
same_truth true y f g = sym (f refl)
same_truth false true f g = g refl
same_truth false false f g = refl

-- Two texts of twenty bytes are equal when the bytes are.
printed_beq :
    (a b : Bytes)
    → IsArray 20 a
    → IsArray 20 b
    → bytes_beq (address_to_hex a) (address_to_hex b) ≡ bytes_beq a b
printed_beq a b ha hb =
    same_truth _ _
      (λ h. (bytes_beq_iff a b).1 (
        address_to_hex-injective a b ha hb
          ((bytes_beq_iff (address_to_hex a) (address_to_hex b)).0 h)))
      (λ h.
        (bytes_beq_iff (address_to_hex a) (address_to_hex b)).1
          (ap address_to_hex ((bytes_beq_iff a b).0 h)))

-- The item asks for this token on this chain.
abbrev pub asks_for : EvmLogEvent → ApprovalRuleConfig → Bool
asks_for evm c = c.chain_id == evm.chain_id && bytes_beq c.token_address evm.address

abbrev pub OkItem : Bytes × ApprovalRuleConfig → Type 0
OkItem c = ApprovalOk (record { chain_id = c.1.chain_id; address = c.0 }) c.1

key_asks :
    (c : Bytes × ApprovalRuleConfig) (evm : EvmLogEvent)
    → OkItem c
    → IsArray 20 evm.address
    → key_beq (record { chain_id = c.1.chain_id; address = c.0 }) (key_of evm) ≡ asks_for evm c.1
unfolding key_beq key_of
key_asks c evm (_, key, array, _, _) h =
    rw (ap (λ (k : ChainKey). k.address) key, printed_beq c.1.token_address evm.address array h)
      refl

if-append :
    (b : Bool) (c : ApprovalRuleConfig) (xs ys : List ApprovalRuleConfig)
    → (xs ++ (if b then c ∷ [] else [])) ++ ys ≡ xs ++ (if b then c ∷ ys else ys)
if-append true c xs ys = append_assoc xs (c ∷ []) ys
if-append false c xs ys = ap (λ (l : List ApprovalRuleConfig). l ++ ys) (append-nil xs)

-- The configurations that the items add to a bucket are those that ask for its token, in order.
add_all-bucket :
    (cs : List (Bytes × ApprovalRuleConfig)) (cfg : BacktestConfig) (evm : EvmLogEvent)
    → All OkItem cs
    → IsArray 20 evm.address
    → bucket (find (key_of evm) (add_all add_approval cs cfg).approval_rules_by_contract)
      ≡ bucket (find (key_of evm) cfg.approval_rules_by_contract)
        ++ filter_by (asks_for evm) (map (λ (c : Bytes × ApprovalRuleConfig). c.1) cs)
unfolding add_approval
add_all-bucket [] cfg evm h a = sym (append-nil _)
add_all-bucket (c ∷ cs) cfg evm h a =
    add_all-bucket cs (add_approval c cfg) evm h.1 a
    ∙ rw
        (
          bucket-push_back (key_of evm) (record { chain_id = c.1.chain_id; address = c.0 }) c.1
              cfg.approval_rules_by_contract,
          key_asks c evm h.0 a,
        )
        (if-append (asks_for evm c.1) c.1
          (bucket (find (key_of evm) cfg.approval_rules_by_contract))
          (filter_by (asks_for evm) (map (λ (c : Bytes × ApprovalRuleConfig). c.1) cs)))

thresholds :
    (evm : EvmLogEvent) (cs : List (Bytes × ApprovalRuleConfig))
    → All OkItem cs
    → All
        (λ c. IsArray 32 c.threshold_be)
        (filter_by (asks_for evm) (map (λ (c : Bytes × ApprovalRuleConfig). c.1) cs))
thresholds evm [] h = tt
thresholds evm (c ∷ cs) h =
    if-both (All (λ (c : ApprovalRuleConfig). IsArray 32 c.threshold_be)) (asks_for evm c.1) _ _
      (λ _. (h.0.3, thresholds evm cs h.1)) (λ _. thresholds evm cs h.1)

filter_by-filter_by :
    (p q : ApprovalRuleConfig → Bool) (cs : List ApprovalRuleConfig)
    → filter_by p (filter_by q cs) ≡ filter_by (λ c. q c && p c) cs
filter_by-filter_by p q [] = refl
filter_by-filter_by p q (c ∷ cs) = elim (Bool-cases (q c)) [
  | inl e ↦
      rw e (
        ap (λ (l : List ApprovalRuleConfig). if p c then c ∷ l else l) (filter_by-filter_by p q cs))
  | inr e ↦ rw e (filter_by-filter_by p q cs)
]

module _ {Node : Type 0} ⦃yaml : Yaml Node⦄ where
  read_all-AreItems :
      (section : Bytes) (idx : ℕ) (items : List Node) (cs : List (Bytes × ApprovalRuleConfig))
      → read_all section read_approval idx items ≡ ok cs
      → AreItems items (map (λ (c : Bytes × ApprovalRuleConfig). c.1) cs)
  read_all-AreItems section idx [] cs h =
      subst (λ l. AreItems {Node = Node} [] (map (λ (c : Bytes × ApprovalRuleConfig). c.1) l))
        (ok-injective [] cs h) tt
  read_all-AreItems section idx (item ∷ items) cs h =
      let ctx = item_context section idx in
      let (c, e, h1) =
        bind-ok (read_approval ctx item)
          (λ (c : Bytes × ApprovalRuleConfig). do
            cs' ← read_all section read_approval (idx + 1) items
            ok (c ∷ cs'))
          cs h in
      let (rest, er, h2) =
        bind-ok (read_all section read_approval (idx + 1) items)
          (λ (cs' : List (Bytes × ApprovalRuleConfig)). ok (c ∷ cs')) cs h1 in
      subst (λ l. AreItems (item ∷ items) (map (λ (c : Bytes × ApprovalRuleConfig). c.1) l))
        (ok-injective (c ∷ rest) cs h2)
        ((read_approval-IsItem ctx item).at c e, read_all-AreItems section (idx + 1) items rest er)

  -- From the file to the alerts: a sequence of approval items that can all be read is accepted, with one
  -- configuration for each item, which says what the item's members say: its customer, its chain, its
  -- token, the number that its threshold spells, and whether it asks for infinite approvals, which it
  -- does not if the member is absent. An approval log with a token of twenty bytes and a word of data
  -- then raises, in the order of the items, one alert for each of these configurations that asks for its
  -- token on its chain and whose threshold is below the approved amount, or that asks for infinite
  -- approvals when the amount is 2 ^ 256 - 1, and no other, and none if the log is unusable; provided
  -- that no approval rule was there before.
  pub approval_items-alerts :
      (node : Node) (cfg : BacktestConfig) (cs : List (Bytes × ApprovalRuleConfig))
      (signal : Signal) (evm : EvmLogEvent) (out : List Alert)
      → yaml.is_null node ≡ false
      → yaml.is_sequence node ≡ true
      → read_all (codes "rules.approval") read_approval 0 (yaml.items node) ≡ ok cs
      → cfg.approval_rules_by_contract ≡ []
      → signal.type ≡ SignalType.approval
      → signal.payload ≡ evm_log evm
      → IsArray 20 evm.address
      → IsArray 32 (take 32 evm.data_bytes)
      → AreItems (yaml.items node) (map (λ (c : Bytes × ApprovalRuleConfig). c.1) cs)
        × (parse_approval (some node) cfg ≡ ok (add_all add_approval cs cfg))
        × (Approval.evaluate (add_all add_approval cs cfg).approval_rules_by_contract signal out
            ≡ out
              ++ map (alert_for signal.meta.timestamp_ms evm) (
                  filter_by
                    (λ c. asks_for evm c && (not (unusable evm) && is_alert evm c))
                    (map (λ (c : Bytes × ApprovalRuleConfig). c.1) cs)))
  unfolding parse_approval parse_section find
  approval_items-alerts node cfg cs signal evm out live sequence read fresh t p a d =
      let all_ok =
        read_all-All (codes "rules.approval") read_approval add_approval OkItem
          read_approval-Ensures 0 (yaml.items node) cs read in
      let configs = map (λ (c : Bytes × ApprovalRuleConfig). c.1) cs in
      let same : bucket (find (key_of evm) (add_all add_approval cs cfg).approval_rules_by_contract)
          ≡ filter_by (asks_for evm) configs =
        add_all-bucket cs cfg evm all_ok a
        ∙ ap
            (λ (m : Approval.ConfigMap).
              bucket (find (key_of evm) m) ++ filter_by (asks_for evm) configs)
            fresh in
      (
        read_all-AreItems (codes "rules.approval") 0 (yaml.items node) cs read,
        rw (live, sequence)
            (each_item-read_all (codes "rules.approval") read_approval add_approval 0
              (yaml.items node) cfg cs read),
        evaluate-is_alert (add_all add_approval cs cfg).approval_rules_by_contract signal evm out t
              p d
              (subst (All (λ (c : ApprovalRuleConfig). IsArray 32 c.threshold_be)) (sym same)
                (thresholds evm cs all_ok))
            ∙ ap
                (λ (l : List ApprovalRuleConfig).
                  out ++ map (alert_for signal.meta.timestamp_ms evm) l)
                (ap (filter_by (λ c. not (unusable evm) && is_alert evm c)) same
                  ∙ filter_by-filter_by (λ c. not (unusable evm) && is_alert evm c) (asks_for evm)
                      configs),
      )
