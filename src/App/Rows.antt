-- ===== src/App/Rows.antt =====
-- The database of src/app/app.cpp: the rows of a query, and the loop over them in each `load_..._`
-- function. The library pqxx and the JSON library are interfaces.
use risk_sentinel.Common.{
  ℕ, ◌≡◌, refl, Bool, true, false, Option, none, some, List, [], ◌∷◌, Bytes, Outcome, ok, err,
}
use risk_sentinel.Common.Int.{ℤ}

-- `row["name"].as<T>()`, which throws on NULL and on a text that is no such value.
pub record PqxxRow (R : Type 0) : Type 0 where
  pub as_uint64 : R → Bytes → Outcome ℕ
  pub as_int : R → Bytes → Outcome ℤ
  pub as_string : R → Bytes → Outcome Bytes
  pub as_bool : R → Bytes → Outcome Bool

-- `json::parse` and `json.value(key, default)`, which throws on a value of another type.
pub record Json (J : Type 0) : Type 0 where
  pub parse : Bytes → Outcome J
  pub value_uint64 : J → Bytes → ℕ → Outcome ℕ
  pub value_string : J → Bytes → Bytes → Outcome Bytes

module _ {ℓ κ} {R : Type 0} {C : Type ℓ} {S : Type κ} (read : R → Outcome C) (add : C → S → S) where
  -- `for (const auto &row : res)` inside the `try` of a function: a row that throws ends the loop, and
  -- what the rows before it have added stays. The second result says whether the loop came to its end.
  unfoldable pub each_row : List R → S → S × Bool
  each_row [] s = (s, true)
  each_row (row ∷ rows) s = elim (read row) [ err e ↦ (s, false) | ok c ↦ each_row rows (add c s) ]

  -- The query may throw as well.
  unfoldable pub load : Outcome (List R) → S → S × Bool
  unfolding each_row
  load (err e) s = (s, false)
  load (ok rows) s = each_row rows s

  pub each_row-ok :
      (row : R) (rows : List R) (s : S) (c : C)
      → read row ≡ ok c
      → each_row (row ∷ rows) s ≡ each_row rows (add c s)
  unfolding each_row
  each_row-ok row rows s c h = rw (each_row, h) refl

-- `continue`: a row that is read and left out.
unfoldable pub add_some {ℓ κ} : {C : Type ℓ} {S : Type κ} → (C → S → S) → Option C → S → S
add_some add none s = s
add_some add (some c) s = add c s

-- `try { ... } catch (...) { warn; }` around one row
unfoldable pub skipped {ℓ} : {C : Type ℓ} → Outcome C → Option C
skipped (ok c) = some c
skipped (err e) = none
