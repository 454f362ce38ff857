-- ===== src/Dedup/Key.antt =====
-- About src/risk/alert_deduplicator.cpp: the keys of alerts.
use risk_sentinel.Common.{
  ℕ, ◌^◌, ◌<◌, Option, none, some, codes, All, Lacks, arith, ◌≡◌, refl, ap, sym, subst,
}
use risk_sentinel.Common.Digits.{
  to_string, IsDigit, to_string-digits, to_string-injective, digits-Lacks,
}
use risk_sentinel.Common.Splits.{split_first}
use risk_sentinel.Signal.{Alert}
use risk_sentinel.Dedup.{build_key, chain_part, token_part, bar}

not_a_digit : IsDigit bar → ⊥
not_a_digit h = omega (arith, h)

abbrev pub FitsChain : Option ℕ → Type 0
FitsChain none = Unit
FitsChain (some chain_id) = chain_id < 2 ^ 64

chain_part-Lacks : (o : Option ℕ) → Lacks bar (chain_part o)
unfolding chain_part
chain_part-Lacks none = omega arith
chain_part-Lacks (some chain_id) =
    digits-Lacks bar not_a_digit (to_string chain_id) (to_string-digits chain_id)

dash_no_digit : (n : ℕ) → codes "-" ≡ to_string n → ⊥
dash_no_digit n e = absurd (omega (arith, (subst (All IsDigit) (sym e) (to_string-digits n)).0))

chain_part-injective :
    (o p : Option ℕ) → FitsChain o → FitsChain p → chain_part o ≡ chain_part p → o ≡ p
unfolding chain_part
chain_part-injective none none h h' e = refl
chain_part-injective none (some d) h h' e = absurd (dash_no_digit d e)
chain_part-injective (some c) none h h' e = absurd (dash_no_digit c (sym e))
chain_part-injective (some c) (some d) h h' e = ap some (to_string-injective c d h h' e)

-- An alert as the program makes it: `uint64_t` identifiers, and no bar in the rule's name.
pub record IsKeyable (a : Alert) : Type 0 where
  pub customer_fits : a.customer_id < 2 ^ 64
  pub rule_lacks_bar : Lacks bar a.rule_type
  pub chain_fits : FitsChain a.chain_id

-- Two alerts with one key, with identifiers of 64 bits and rule names without a bar, agree in
-- customer, rule, chain and token address, an absent address counting as the empty one; the token
-- address may hold any byte.
pub build_key-injective :
    (a b : Alert)
    → IsKeyable a
    → IsKeyable b
    → build_key a ≡ build_key b
    → (a.customer_id ≡ b.customer_id)
      × (a.rule_type ≡ b.rule_type)
      × (a.chain_id ≡ b.chain_id)
      × (token_part a.token_address ≡ token_part b.token_address)
unfolding build_key
build_key-injective a b ha hb e =
    let (customer, e₁) =
      split_first bar (to_string a.customer_id) (to_string b.customer_id) _ _
        (digits-Lacks bar not_a_digit _ (to_string-digits a.customer_id))
        (digits-Lacks bar not_a_digit _ (to_string-digits b.customer_id)) e in
    let (rule, e₂) =
      split_first bar a.rule_type b.rule_type _ _ ha.rule_lacks_bar hb.rule_lacks_bar e₁ in
    let (chain, token) =
      split_first bar (chain_part a.chain_id) (chain_part b.chain_id) _ _
        (chain_part-Lacks a.chain_id) (chain_part-Lacks b.chain_id) e₂ in
    (
      to_string-injective a.customer_id b.customer_id ha.customer_fits hb.customer_fits customer,
      rule,
      chain_part-injective a.chain_id b.chain_id ha.chain_fits hb.chain_fits chain,
      token,
    )
