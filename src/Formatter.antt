-- ===== src/Formatter.antt =====
-- src/risk/alert_formatter.cpp: the texts for Telegram and for the console.
pub mod Lines
mod Tests
use risk_sentinel.Common.{
  ℕ, Bool, true, false, not, ◌&&◌, Option, none, some, List, [], ◌∷◌, ◌++◌, Bytes, codes,
  if◌then◌else◌, bytes_beq, nat_eq,
}
use risk_sentinel.Common.Assoc.{find}
use risk_sentinel.Common.Digits.{to_string}
use risk_sentinel.Signal.{Alert, ChainKey, key_eq}

abbrev pub newline : Bytes
newline = 10 ∷ []

-- A label, a value and the end of the line.
unfoldable pub line : Bytes → Bytes → Bytes
line label value = label ++ (value ++ newline)

-- The pointer to a map may be null; `contains` and then `at`.
unfoldable pub lookup_customer : Option (List (ℕ × Bytes)) → ℕ → Option Bytes
lookup_customer none id = none
lookup_customer (some customers) id = find id customers

unfoldable pub lookup_token : Option (List (ChainKey × Bytes)) → ChainKey → Option Bytes
lookup_token none key = none
lookup_token (some tokens) key = find key tokens

unfoldable pub name_or : Option Bytes → Bytes → Bytes
name_or none default = default
name_or (some name) default = name

-- `if (opt && !opt->empty())` before a line of the value.
unfoldable pub line_if : Bytes → Option Bytes → Bytes
unfolding line
line_if label none = []
line_if label (some []) = []
line_if label (some (c ∷ s)) = line label (c ∷ s)

unfoldable pub chain_line : Option ℕ → Bytes
unfolding line
chain_line none = []
chain_line (some chain_id) = line (codes "Chain ID: ") (to_string chain_id)

-- `token_map->at(key) + " (" + address + ")"`, or the address for a token without a symbol.
unfoldable pub with_symbol : Option Bytes → Bytes → Bytes
with_symbol none address = address
with_symbol (some symbol) address = symbol ++ (codes " (" ++ (address ++ codes ")"))

unfoldable pub symbol_or_contract : Option (List (ChainKey × Bytes)) → Option ℕ → Bytes → Bytes
unfolding with_symbol lookup_token
symbol_or_contract tokens none address = address
symbol_or_contract tokens (some chain_id) address =
    with_symbol (lookup_token tokens (record { chain_id = chain_id; address = address })) address

unfoldable pub token_line : Option (List (ChainKey × Bytes)) → Option ℕ → Option Bytes → Bytes
unfolding line symbol_or_contract
token_line tokens chain_id none = []
token_line tokens chain_id (some []) = []
token_line tokens chain_id (some (c ∷ s)) =
    line (codes "Token: ") (symbol_or_contract tokens chain_id (c ∷ s))

-- The lines of the approval, mint and burn, and bridge alerts.
unfoldable pub token_lines : Option (List (ChainKey × Bytes)) → Alert → Bytes
unfolding chain_line line_if token_line
token_lines tokens alert =
    chain_line alert.chain_id
    ++ (line_if (codes "Amount: ") alert.amount_decimal
        ++ token_line tokens alert.chain_id alert.token_address)

unfoldable pub oracle_lines : Alert → Bytes
unfolding chain_line line_if
oracle_lines alert =
    chain_line alert.chain_id
    ++ (line_if (codes "Current value: ") alert.amount_decimal
        ++ line_if (codes "Aggregator: ") alert.token_address)

-- The symbol alone, in the texts of other rules.
unfoldable pub symbol_only : Option (List (ChainKey × Bytes)) → Option ℕ → Option Bytes → Bytes
unfolding lookup_token name_or
symbol_only tokens chain_id none = []
symbol_only tokens chain_id (some []) = []
symbol_only tokens none (some (c ∷ s)) = c ∷ s
symbol_only tokens (some chain_id) (some (c ∷ s)) =
    name_or (lookup_token tokens (record { chain_id = chain_id; address = c ∷ s })) (c ∷ s)

unfoldable pub other_lines : Option (List (ChainKey × Bytes)) → Alert → Option Bytes → Bytes
unfolding line symbol_only
other_lines tokens alert none = []
other_lines tokens alert (some []) = []
other_lines tokens alert (some (c ∷ s)) =
    line (codes "Amount: ") (c ∷ s)
    ++ line (codes "Token: ") (symbol_only tokens alert.chain_id alert.token_address)

-- The chain of tests on the rule's name: the line of the type, and the lines behind the message.
unfoldable pub kind_lines : Option (List (ChainKey × Bytes)) → Alert → Bytes × Bytes
unfolding line token_lines oracle_lines other_lines
kind_lines tokens alert =
    if bytes_beq alert.rule_type (codes "governance")
    then (line (codes "Type: ") (codes "Governance"), [])
    else if bytes_beq alert.rule_type (codes "approval")
    then (line (codes "Type: ") (codes "Approval"), token_lines tokens alert)
    else if bytes_beq alert.rule_type (codes "mint_burn")
    then (line (codes "Type: ") (codes "Mint/Burn"), token_lines tokens alert)
    else if bytes_beq alert.rule_type (codes "bridge_transfer")
    then (line (codes "Type: ") (codes "Bridge Transfer"), token_lines tokens alert)
    else if bytes_beq alert.rule_type (codes "oracle_update")
    then (line (codes "Type: ") (codes "Oracle Update"), oracle_lines alert)
    else ([], other_lines tokens alert alert.amount_decimal)

unfoldable pub format_telegram :
    Alert → Option (List (ℕ × Bytes)) → Option (List (ChainKey × Bytes)) → Bytes
unfolding line lookup_customer name_or kind_lines
format_telegram alert customers tokens =
    let customer =
      name_or (lookup_customer customers alert.customer_id) (to_string alert.customer_id) in
    let (type_line, rest) = kind_lines tokens alert in
    codes "[Risk Sentinel Alert]"
    ++ (newline
        ++ (line (codes "Customer: ") customer
            ++ (type_line
                ++ (line (codes "Message: ") alert.message
                    ++ (rest ++ (codes "Time: " ++ to_string alert.timestamp_ms))))))

unfoldable pub bracket_if : Bytes → Option Bytes → Bytes
bracket_if label none = []
bracket_if label (some []) = []
bracket_if label (some (c ∷ s)) = codes " [" ++ (label ++ ((c ∷ s) ++ codes "]"))

unfoldable pub format_console : Alert → Bytes
unfolding bracket_if
format_console alert =
    codes "[AlertDispatcher] Executing Webhook for: "
    ++ (alert.message
        ++ (codes " [Time: "
            ++ (to_string alert.timestamp_ms
                ++ (codes "]"
                    ++ ((if not (bytes_beq alert.rule_type (codes "governance"))
                          then bracket_if (codes "Amount: ") alert.amount_decimal
                            ++ bracket_if (codes "Token: ") alert.token_address
                          else [])
                        ++ newline)))))
