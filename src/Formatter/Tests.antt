-- ===== src/Formatter/Tests.antt =====
-- The texts of an oracle alert and of a paused contract.
use risk_sentinel.Common.{
  ℕ, ◌≡◌, refl, Option, some, none, List, [], ◌∷◌, Bytes, codes, Lacks, arith, bytes_beq, nat_eq,
}
use risk_sentinel.Common.Assoc.{find}
use risk_sentinel.Common.Digits.{to_string, put_digits}
use risk_sentinel.Signal.{Alert}
use risk_sentinel.Formatter.{
  format_telegram, format_console, kind_lines, line, lookup_customer, name_or,
}
use risk_sentinel.Formatter.Lines.{shown_customer, format_telegram-tells}

abbrev paused : Alert
paused = record {
  customer_id = 7;
  rule_type = codes "governance";
  message = codes "paused";
  timestamp_ms = 5;
  internal_ingress_time_ms = 0;
  amount_decimal = none;
  token_address = some (codes "0xa");
  chain_id = some 1;
}

abbrev customers : Option (List (ℕ × Bytes))
customers = some ((7, codes "Me") ∷ [])

text_of_paused :
    format_telegram paused customers none
    ≡ codes "[Risk Sentinel Alert]\nCustomer: Me\nType: Governance\nMessage: paused\nTime: 5"
unfolding format_telegram kind_lines line lookup_customer name_or to_string put_digits find
    bytes_beq
text_of_paused = refl

console_of_paused :
    format_console paused ≡ codes "[AlertDispatcher] Executing Webhook for: paused [Time: 5]\n"
unfolding format_console bytes_beq to_string put_digits
console_of_paused = refl

me-Lacks : Lacks 10 (shown_customer paused customers)
unfolding lookup_customer name_or find
me-Lacks = (omega arith, (omega arith, tt))

-- The same event on another chain has the same text.
abbrev elsewhere : Alert
elsewhere = record paused { chain_id = some 2 }

same_text : format_telegram paused customers none ≡ format_telegram elsewhere customers none
unfolding format_telegram kind_lines bytes_beq
same_text = refl

format_telegram-tells_example :
    (shown_customer paused customers ≡ shown_customer elsewhere customers)
    × (paused.timestamp_ms ≡ elsewhere.timestamp_ms)
format_telegram-tells_example =
    format_telegram-tells paused elsewhere customers none me-Lacks me-Lacks (omega arith)
      (omega arith) same_text
