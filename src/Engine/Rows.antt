-- ===== src/Engine/Rows.antt =====
-- internal/engine/insert.go and update.go: the values of a new row, from the statement's expressions
-- to the row that is encoded.
pub mod Stored
use eleone_sql.Common.{
  ℕ, zero, suc, Bool, true, false, ◌&&◌, List, [], ◌∷◌, ◌==◌, length, get_elem?, map, Option, none,
  some, Result, ok, err, ◌>>=◌,
}
use eleone_sql.Bytes.{Bytes}
use eleone_sql.Catalog.Value.{Value, null_value}
use eleone_sql.Catalog.TableDef.{ColumnDef, TableDef, column_index}
use eleone_sql.Engine.{
  FloatOps, EngineError, column_does_not_exist, may_not_be_null, index_out_of_range,
  expected_values, Tuple,
}
use eleone_sql.Engine.Expr.{Expr, evaluate, coerce}

-- `values[i] = v`; the result is `none` where Go panics.
unfoldable pub set_elem : List Value → ℕ → Value → Option (List Value)
set_elem [] i v = none
set_elem (x ∷ xs) zero v = some (v ∷ xs)
set_elem (x ∷ xs) (suc i) v =
    let rest = set_elem xs i v in elim rest [ none ↦ none | some ys ↦ some (x ∷ ys) ]

-- The columns that an INSERT names, or all of them.
unfoldable pub target_columns : TableDef → List Bytes → List Bytes
target_columns td [] = map (λ c. c.name) td.columns
target_columns td (c ∷ cs) = c ∷ cs

unfoldable pub positions : TableDef → List Bytes → Result EngineError (List ℕ)
positions td [] = ok []
positions td (name ∷ names) =
    let rest = positions td names in
    elim (column_index td name) [
      | none ↦ err (column_does_not_exist name)
      | some i ↦ rest >>= λ is. ok (i ∷ is)
    ]

-- The check for NOT NULL after the values are made.
unfoldable pub check_not_null : List ColumnDef → List Value → Result EngineError (Unit {0})
check_not_null [] vs = ok tt
check_not_null (c ∷ cs) [] = err index_out_of_range
check_not_null (c ∷ cs) (v ∷ vs) =
    let rest = check_not_null cs vs in
    elim (c.not_null && v.null) [ true ↦ err (may_not_be_null c.name) | false ↦ rest ]

-- An assignment past the end is Go's panic.
abbrev pub in_range : Option (List Value) → Result EngineError (List Value)
in_range none = err index_out_of_range
in_range (some vs) = ok vs

module _ (F : FloatOps) where
  -- `values[p] = coerce(v)` for the column at `p`.
  unfoldable pub coerce_at :
      Option ColumnDef → ℕ → Value → List Value → Result EngineError (List Value)
  coerce_at none p v values = err index_out_of_range
  coerce_at (some col) p v values = coerce F v col.type >>= λ cv. in_range (set_elem values p cv)

  unfoldable pub assign_value :
      Tuple → List ColumnDef → ℕ → Expr → List Value → Result EngineError (List Value)
  unfolding coerce_at
  assign_value tp columns p e values =
      evaluate F tp e >>= λ v. coerce_at (get_elem? columns p) p v values

  -- The loop over the expressions, with the positions of their columns.
  unfoldable pub assign_values :
      Tuple → List ColumnDef → List ℕ → List Expr → List Value → Result EngineError (List Value)
  assign_values tp columns (p ∷ ps) (e ∷ es) values = do
    vs ← assign_value tp columns p e values
    assign_values tp columns ps es vs
  assign_values tp columns ps es values = ok values

  -- One row of an INSERT: no tuple is in scope of its expressions.
  unfoldable pub insert_values : TableDef → List ℕ → List Expr → Result EngineError (List Value)
  unfolding assign_values check_not_null
  insert_values td ps es = elim (length es == length ps) [
    | false ↦ err (expected_values (length ps) (length es))
    | true ↦ do
      values ← assign_values [] td.columns ps es (map (λ c. null_value c.type) td.columns)
      _ ← check_not_null td.columns values
      ok values
  ]

  -- One row of an UPDATE: the assignments are evaluated over the old row.
  unfoldable pub updated_values :
      TableDef → Tuple → List ℕ → List Expr → List Value → Result EngineError (List Value)
  unfolding assign_values check_not_null
  updated_values td tp ps es old = do
    values ← assign_values tp td.columns ps es old
    _ ← check_not_null td.columns values
    ok values
