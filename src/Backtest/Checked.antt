-- ===== src/Backtest/Checked.antt =====
-- About src/backtest/backtest_config.cpp: what the checks of single fields leave.
use risk_sentinel.Common.{
  ℕ, ◌+◌, ◌≡◌, refl, sym, ◌∙◌, subst, not, Option, none, some, List, [], ◌∷◌, ◌++◌, Bytes, length,
  replicate, All, IsArray, All-append, if-both, arith, inl, inr, Bool-cases, Outcome, ok, err, ◌>>◌,
  bind-ok, ok-injective,
}
use risk_sentinel.Common.Ensures.{Ensures, Ensures-ok, Ensures-err, Ensures-bind}
use risk_sentinel.Common.Assoc.{find, assign}
use risk_sentinel.Common.Lower.{lower, lower-NotUpper}
use risk_sentinel.Hex.{parse_hex_bytes, validate_hex, decimal_to_be_256}
use risk_sentinel.Hex.Address.{validate_hex_lower}
use risk_sentinel.Hex.Decimal.{decimal_to_be_256_sound}
use risk_sentinel.Signal.{ChainKey, key_eq, key_beq, key_beq_iff}
use risk_sentinel.Rules.{bucket, address_to_hex}
use risk_sentinel.Backtest.Yaml.{Yaml}
use risk_sentinel.Backtest.Fields.{validate_hex_address, hex_checked, require_string}
use risk_sentinel.Backtest.Config.{
  BacktestConfig, push_back, item_context, each_item, parse_section, read_address, read_threshold,
}

-- The bytes whose lowercase text an address is.
abbrev pub Names : Bytes → Bytes → Type 0
Names text a =
    IsArray 20 a × (parse_hex_bytes text (replicate 20 0) ≡ ok a) × (address_to_hex a ≡ text)

checked_hex :
    (r : Outcome (Unit {0})) (addr context : Bytes) → hex_checked r addr context ≡ ok tt → r ≡ ok tt
unfolding hex_checked
checked_hex (ok t) addr context h = refl
checked_hex (err e) addr context h = cc

validate_hex_address_lem :
    (s context : Bytes)
    → validate_hex_address s context ≡ ok tt
    → (length s ≡ 42) × (validate_hex s ≡ ok tt)
unfolding validate_hex_address
validate_hex_address_lem s context h = ground (arith, checked_hex (validate_hex s) s context)

-- A lowercase text that the check accepts is what twenty bytes print as.
pub validate_hex_address-Names :
    (text context : Bytes)
    → validate_hex_address (lower text) context ≡ ok tt
    → (a : Bytes) × Names (lower text) a
unfolding address_to_hex
validate_hex_address-Names text context h =
    let (len, valid) = validate_hex_address_lem (lower text) context h in
    let (a, array, parsed, printed) =
      validate_hex_lower (lower text) (replicate 20 0) valid (lower-NotUpper text) len in
    (a, (array, parsed, printed))

pub threshold-IsArray :
    (text threshold : Bytes) → decimal_to_be_256 text ≡ ok threshold → IsArray 32 threshold
threshold-IsArray text threshold h =
    let (digits, value, len, bytes) = decimal_to_be_256_sound text threshold h in (bytes, len)

module _ {Node : Type 0} ⦃yaml : Yaml Node⦄ where
  pub read_address-Names :
      (item : Node) (field ctx token : Bytes)
      → read_address item field ctx ≡ ok token
      → (a : Bytes) × Names token a
  unfolding read_address
  read_address-Names item field ctx token h =
      let (text, _, h1) =
        bind-ok (require_string item field ctx)
          (λ (t : Bytes). do validate_hex_address (lower t) ctx; ok (lower t)) token h in
      let (u, valid, h2) =
        bind-ok (validate_hex_address (lower text) ctx) (λ (_ : Unit {0}). ok (lower text)) token
          h1 in
      subst (λ t. (a : Bytes) × Names t a) (ok-injective (lower text) token h2)
        (validate_hex_address-Names text ctx valid)

  -- The bytes that a checked address is read into are the ones that print as it.
  pub parsed-Names :
      (item : Node) (field ctx token bytes : Bytes)
      → read_address item field ctx ≡ ok token
      → parse_hex_bytes token (replicate 20 0) ≡ ok bytes
      → Names token bytes
  parsed-Names item field ctx token bytes h p =
      let (a, (array, parsed, printed)) = read_address-Names item field ctx token h in
      let same : a ≡ bytes = ok-injective a bytes (sym parsed ∙ p) in
      subst (Names token) same (array, parsed, printed)

  pub read_threshold-IsArray :
      (item : Node) (field ctx threshold : Bytes)
      → read_threshold item field ctx ≡ ok threshold
      → IsArray 32 threshold
  unfolding read_threshold
  read_threshold-IsArray item field ctx threshold h =
      let (text, _, h1) = bind-ok (require_string item field ctx) decimal_to_be_256 threshold h in
      threshold-IsArray text threshold h1

module _ {ℓ} {Node : Type 0} ⦃yaml : Yaml Node⦄ {C : Type ℓ} (section : Bytes)
    (read : Bytes → Node → Outcome C) (add : C → BacktestConfig → BacktestConfig) (Q : C → Type 0)
    (I : BacktestConfig → Type 0) (reads : (ctx : Bytes) (item : Node) → Ensures Q (read ctx item))
    (adds : (c : C) (cfg : BacktestConfig) → Q c → I cfg → I (add c cfg)) where
  each_item-Ensures :
      (idx : ℕ) (items : List Node) (cfg : BacktestConfig)
      → I cfg
      → Ensures I (each_item section read add idx items cfg)
  unfolding each_item
  each_item-Ensures idx [] cfg i = Ensures-ok cfg i
  each_item-Ensures idx (item ∷ items) cfg i =
      let ctx = item_context section idx in
      Ensures-bind (read ctx item) _ λ c e.
        each_item-Ensures (idx + 1) items (add c cfg) (adds c cfg ((reads ctx item).at c e) i)

  -- What adding a configuration that was read keeps, its section keeps.
  pub parse_section-Ensures :
      (node : Option Node) (cfg : BacktestConfig)
      → I cfg
      → Ensures I (parse_section section read add node cfg)
  unfolding parse_section
  parse_section-Ensures none cfg i = Ensures-ok cfg i
  parse_section-Ensures (some node) cfg i =
      if-both (Ensures I) (yaml.is_null node) _ _ (λ _. Ensures-ok cfg i)
        (λ _.
          if-both (Ensures I) (not (yaml.is_sequence node)) _ _ (λ _. Ensures-err _)
            (λ _. each_item-Ensures 0 (yaml.items node) cfg i))

-- A property of the entries of a map of buckets.
abbrev pub AllIn {ℓ} : {C : Type ℓ} → (ChainKey → C → Type 0) → List (ChainKey × List C) → Type 0
AllIn P [] = Unit {0}
AllIn P ((key, vec) ∷ map) = All (P key) vec × AllIn P map

module _ {ℓ} {C : Type ℓ} (P : ChainKey → C → Type 0) where
  pub AllIn-bucket :
      (key : ChainKey) (map : List (ChainKey × List C))
      → AllIn P map
      → All (P key) (bucket (find key map))
  unfolding find
  AllIn-bucket key [] h = tt
  AllIn-bucket key ((j, vec) ∷ map) h = elim (Bool-cases (key_beq j key)) [
    | inl e ↦ rw e (subst (λ k. All (P k) vec) ((key_beq_iff j key).0 e) h.0)
    | inr e ↦ rw e (AllIn-bucket key map h.1)
  ]

  AllIn-assign :
      (key : ChainKey) (vec : List C) (map : List (ChainKey × List C))
      → AllIn P map
      → All (P key) vec
      → AllIn P (assign key vec map)
  unfolding assign
  AllIn-assign key vec [] h p = (p, tt)
  AllIn-assign key vec ((j, old) ∷ map) h p = elim (Bool-cases (key_beq j key)) [
    | inl e ↦ rw e (subst (λ k. All (P k) vec) (sym ((key_beq_iff j key).0 e)) p, h.1)
    | inr e ↦ rw e (h.0, AllIn-assign key vec map h.1 p)
  ]

  pub AllIn-push_back :
      (key : ChainKey) (c : C) (map : List (ChainKey × List C))
      → AllIn P map
      → P key c
      → AllIn P (push_back key c map)
  unfolding push_back
  AllIn-push_back key c map h p =
      AllIn-assign key (bucket (find key map) ++ c ∷ []) map h
        (All-append (P key) (bucket (find key map)) (c ∷ []) (AllIn-bucket key map h) (p, tt))
