-- ===== src/Formatter/Lines.antt =====
-- About src/risk/alert_formatter.cpp: the first and the last line of a text.
use risk_sentinel.Common.{
  ℕ, ◌^◌, ◌<◌, ◌≡◌, refl, ap, sym, ◌∙◌, Option, List, [], ◌∷◌, ◌++◌, Bytes, codes, Lacks,
  append_assoc, arith,
}
use risk_sentinel.Signal.{Alert, ChainKey}
use risk_sentinel.Common.Digits.{
  to_string, IsDigit, to_string-digits, to_string-injective, digits-Lacks,
}
use risk_sentinel.Common.Splits.{split_first, split_last}
use risk_sentinel.Formatter.{format_telegram, kind_lines, line, newline, name_or, lookup_customer}

abbrev space : ℕ
space = b' '

not_a_digit : IsDigit space → ⊥
not_a_digit h = omega (arith, h)

-- The name under which a text shows the customer.
abbrev pub shown_customer : Alert → Option (List (ℕ × Bytes)) → Bytes
shown_customer alert customers =
    name_or (lookup_customer customers alert.customer_id) (to_string alert.customer_id)

grouped :
    (a b c d e f z : Bytes)
    → a ++ (b ++ (c ++ (d ++ (e ++ (f ++ z))))) ≡ (a ++ (b ++ (c ++ (d ++ (e ++ f))))) ++ z
grouped a b c d e f z = sym (
    rw
      (
        append_assoc a (b ++ (c ++ (d ++ (e ++ f)))) z,
        append_assoc b (c ++ (d ++ (e ++ f))) z,
        append_assoc c (d ++ (e ++ f)) z,
        append_assoc d (e ++ f) z,
        append_assoc e f z,
      )
      refl)

last_word : (x ts : Bytes) → x ++ (codes "Time: " ++ ts) ≡ (x ++ codes "Time:") ++ (space ∷ ts)
last_word x ts = sym (append_assoc x (codes "Time:") (space ∷ ts))

telegram-last :
    (alert : Alert) (customers : Option (List (ℕ × Bytes)))
    (tokens : Option (List (ChainKey × Bytes)))
    → (before : Bytes) × (format_telegram alert customers tokens
        ≡ before ++ (space ∷ to_string alert.timestamp_ms))
unfolding format_telegram
telegram-last alert customers tokens =
    let a = codes "[Risk Sentinel Alert]" in
    let c = line (codes "Customer: ") (shown_customer alert customers) in
    let (d, f) = kind_lines tokens alert in
    let e = line (codes "Message: ") alert.message in
    let x = a ++ (newline ++ (c ++ (d ++ (e ++ f)))) in
    (
      x ++ codes "Time:",
      grouped a newline c d e f (codes "Time: " ++ to_string alert.timestamp_ms)
          ∙ last_word x (to_string alert.timestamp_ms),
    )

telegram-first :
    (alert : Alert) (customers : Option (List (ℕ × Bytes)))
    (tokens : Option (List (ChainKey × Bytes)))
    → (after : Bytes) × (format_telegram alert customers tokens
        ≡ codes "[Risk Sentinel Alert]"
          ++ (newline ++ (codes "Customer: " ++ (shown_customer alert customers ++ (10 ∷ after)))))
unfolding format_telegram line
telegram-first alert customers tokens =
    let c = shown_customer alert customers in
    (
      (kind_lines tokens alert).0
          ++ (line (codes "Message: ") alert.message
              ++ ((kind_lines tokens alert).1 ++ (codes "Time: " ++ to_string alert.timestamp_ms))),
      ap (λ t. codes "[Risk Sentinel Alert]" ++ (newline ++ (codes "Customer: " ++ t)))
          (append_assoc c newline _),
    )

behind : (p x y : Bytes) → p ++ x ≡ p ++ y → x ≡ y
behind [] x y h = h
behind (c ∷ p) x y h = behind p x y (cc)

-- Two alerts with one Telegram text show the same customer and have the same time, whatever their
-- rules are, provided that the customers' names have no line break and the times have 64 bits.
pub format_telegram-tells :
    (a b : Alert) (customers : Option (List (ℕ × Bytes)))
    (tokens : Option (List (ChainKey × Bytes)))
    → Lacks 10 (shown_customer a customers)
    → Lacks 10 (shown_customer b customers)
    → a.timestamp_ms < 2 ^ 64
    → b.timestamp_ms < 2 ^ 64
    → format_telegram a customers tokens ≡ format_telegram b customers tokens
    → (shown_customer a customers ≡ shown_customer b customers) × (a.timestamp_ms ≡ b.timestamp_ms)
format_telegram-tells a b customers tokens ha hb ta tb e =
    let (ra, ea) = telegram-first a customers tokens in
    let (rb, eb) = telegram-first b customers tokens in
    let (la, fa) = telegram-last a customers tokens in
    let (lb, fb) = telegram-last b customers tokens in
    (
      (split_first 10 (shown_customer a customers) (shown_customer b customers) ra rb ha hb
          (behind_label _ _ (sym ea ∙ (e ∙ eb)))).0,
      to_string-injective a.timestamp_ms b.timestamp_ms ta tb (
          split_last space la lb (to_string a.timestamp_ms) (to_string b.timestamp_ms)
            (digits-Lacks space not_a_digit _ (to_string-digits a.timestamp_ms))
            (digits-Lacks space not_a_digit _ (to_string-digits b.timestamp_ms))
            (sym fa ∙ (e ∙ fb))),
    )
  where
    behind_label :
        (x y : Bytes)
        → codes "[Risk Sentinel Alert]" ++ (newline ++ (codes "Customer: " ++ x))
          ≡ codes "[Risk Sentinel Alert]" ++ (newline ++ (codes "Customer: " ++ y))
        → x ≡ y
    behind_label x y h =
        behind (codes "Customer: ") x y
          (behind newline _ _ (behind (codes "[Risk Sentinel Alert]") _ _ h))
