-- ===== src/Backtest/Fields.antt =====
-- src/backtest/backtest_config.cpp: the helpers that read and check one field.
use risk_sentinel.Common.{
  ℕ, Bool, false, not, ◌||◌, Option, none, some, List, [], ◌∷◌, ◌++◌, Bytes, codes, length, ◌==◌,
  if◌then◌else◌, bytes_beq, Outcome, ok, err, ◌>>=◌, ◌>>◌, throw_if,
}
use risk_sentinel.Common.Int.{ℤ}
use risk_sentinel.Hex.{lacks_prefix, validate_hex}
use risk_sentinel.Backtest.Yaml.{Yaml}

-- `std::unordered_set<std::string>` of the known keys
unfoldable pub is_known : List Bytes → Bytes → Bool
is_known [] key = false
is_known (k ∷ known) key = bytes_beq k key || is_known known key

-- The text of a missing field's exception.
unfoldable pub missing : Bytes → Bytes → Bytes
missing field context =
    codes "backtest config: missing required field '" ++ (field ++ (codes "' in " ++ context))

-- `catch (const std::exception &e)` around a conversion
unfoldable pub converted {ℓ} : {A : Type ℓ} → Outcome A → Bytes → Bytes → Bytes → Outcome A
converted (ok a) field context type = ok a
converted (err what) field context type = err (
    codes "backtest config: field '"
    ++ (field
        ++ (codes "' in " ++ (context ++ (codes " is not " ++ (type ++ (codes ": " ++ what)))))))

-- `catch (const std::exception &e)` around `validate_hex`
unfoldable pub hex_checked : Outcome (Unit {0}) → Bytes → Bytes → Outcome (Unit {0})
hex_checked (ok _) addr context = ok tt
hex_checked (err what) addr context = err (
    codes "backtest config: invalid hex characters in '"
    ++ (addr ++ (codes "' in " ++ (context ++ (codes ": " ++ what)))))

unfoldable pub validate_hex_address : Bytes → Bytes → Outcome (Unit {0})
unfolding hex_checked
validate_hex_address addr context = do
  throw_if (not (length addr == 42) || lacks_prefix addr) (
      codes "backtest config: invalid hex address '"
      ++ (addr ++ (codes "' (expected 0x + 40 hex chars) in " ++ context)))
  hex_checked (validate_hex addr) addr context

module _ {Node : Type 0} ⦃yaml : Yaml Node⦄ where
  -- The keys of a map that are unknown, which are logged.
  unfoldable pub unknown_keys : List Node → List Bytes → Outcome (List Bytes)
  unfolding is_known
  unknown_keys [] known = ok []
  unknown_keys (node ∷ nodes) known = do
    key ← yaml.as_string node
    rest ← unknown_keys nodes known
    ok (if is_known known key then rest else key ∷ rest)

  unfoldable pub warn_unknown_keys : Node → List Bytes → Outcome (List Bytes)
  unfolding unknown_keys
  warn_unknown_keys node known =
      if yaml.is_map node then unknown_keys (yaml.keys node) known else ok []

  -- `if (!node[field]) throw ...`
  unfoldable pub present : Option Node → Bytes → Bytes → Outcome Node
  unfolding missing
  present none field context = err (missing field context)
  present (some value) field context = ok value

  unfoldable pub required : Node → Bytes → Bytes → Outcome Node
  unfolding present
  required node field context = do value ← yaml.subscript node field; present value field context

  unfoldable pub require_string : Node → Bytes → Bytes → Outcome Bytes
  unfolding required converted
  require_string node field context = do
    value ← required node field context
    converted (yaml.as_string value) field context (codes "a string")

  unfoldable pub require_uint : Node → Bytes → Bytes → Outcome ℕ
  unfolding required converted
  require_uint node field context = do
    value ← required node field context
    converted (yaml.as_uint64 value) field context (codes "an unsigned integer")

  unfoldable pub require_int : Node → Bytes → Bytes → Outcome ℤ
  unfolding required converted
  require_int node field context = do
    value ← required node field context
    converted (yaml.as_int value) field context (codes "an integer")
