-- ===== src/Backtest/Nodes.antt =====
-- Values that a YAML library could return, for the tests.
use risk_sentinel.Common.{
  ℕ, ◌^◌, ◌<◌, ◌≡◌, Bool, true, false, Option, none, some, List, [], ◌∷◌, Bytes, codes, ltb,
  if◌then◌else◌, bytes_beq, Outcome, ok, err, arith,
}
use risk_sentinel.Common.Int.{ℤ, pos}
use risk_sentinel.Backtest.Yaml.{Yaml}

mutual
  pub data Value : Type 0 where
    null : Value
    num : ℕ → Value
    text : Bytes → Value
    flag : Bool → Value
    seq : Elements → Value
    mapping : Members → Value

  pub data Elements : Type 0 where
    nil : Elements
    cons : Value → Elements → Elements

  pub data Members : Type 0 where
    end : Members
    member : Bytes → Value → Members → Members

unfoldable pub elements : Elements → List Value
elements nil = []
elements (cons v rest) = v ∷ elements rest

unfoldable pub names : Members → List Value
names end = []
names (member name v rest) = text name ∷ names rest

unfoldable pub member_at : Bytes → Members → Option Value
member_at field end = none
member_at field (member name v rest) = if bytes_beq name field then some v else member_at field rest

unfoldable pub value_at : Value → Bytes → Outcome (Option Value)
unfolding member_at
value_at (mapping members) field = ok (member_at field members)
value_at null field = ok none
value_at (seq xs) field = ok none
value_at _ field = err (codes "operator[] call on a scalar")

unfoldable pub word_of : Value → Outcome ℕ
word_of (num n) = if ltb n (2 ^ 64) then ok n else err (codes "bad conversion")
word_of _ = err (codes "bad conversion")

pub word_of-fits : (v : Value) (n : ℕ) → word_of v ≡ ok n → n < 2 ^ 64
unfolding word_of
word_of-fits null n h = cc
word_of-fits (num m) n h = ground arith
word_of-fits (text s) n h = cc
word_of-fits (flag b) n h = cc
word_of-fits (seq xs) n h = cc
word_of-fits (mapping m) n h = cc

unfoldable pub is_null_value : Value → Bool
is_null_value null = true
is_null_value _ = false

unfoldable pub is_seq : Value → Bool
is_seq (seq xs) = true
is_seq _ = false

unfoldable pub is_mapping : Value → Bool
is_mapping (mapping m) = true
is_mapping _ = false

unfoldable pub keys_of : Value → List Value
unfolding names
keys_of (mapping m) = names m
keys_of _ = []

unfoldable pub items_of : Value → List Value
unfolding elements
items_of (seq xs) = elements xs
items_of _ = []

unfoldable pub text_of : Value → Outcome Bytes
text_of (text s) = ok s
text_of _ = err (codes "bad conversion")

unfoldable pub int_of : Value → Outcome ℤ
int_of (num n) = ok (pos n)
int_of _ = err (codes "bad conversion")

unfoldable pub bool_of : Value → Outcome Bool
bool_of (flag b) = ok b
bool_of _ = err (codes "bad conversion")

instance abbrev pub value_yaml : Yaml Value
value_yaml = record {
  is_null = is_null_value;
  is_sequence = is_seq;
  is_map = is_mapping;
  subscript = value_at;
  keys = keys_of;
  items = items_of;
  as_string = text_of;
  as_uint64 = word_of;
  as_int = int_of;
  as_bool = bool_of;
  as_uint64-fits = word_of-fits;
}
