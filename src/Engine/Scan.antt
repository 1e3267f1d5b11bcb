-- ===== src/Engine/Scan.antt =====
-- internal/engine/scan.go: the rows of a table, by a full scan or by a seek in an index.
pub mod Stored
use eleone_sql.Common.{
  ℕ, Bool, true, false, not, ◌&&◌, List, [], ◌∷◌, ◌++◌, ◌==◌, if◌then◌else◌, length, get_elem?,
  Option, none, some, Result, ok, err, ◌>>=◌,
}
use eleone_sql.Bytes.{Bytes, bytes_eq, has_prefix}
use eleone_sql.Catalog.Value.{SqlType, Value, sort_key}
use eleone_sql.Catalog.Row.{RowError, decode_row}
use eleone_sql.Catalog.TableDef.{ColumnDef, IndexDef, TableDef, column_index, column_types}
use eleone_sql.Txn.Targets.{table_target, index_target}
use eleone_sql.Engine.{FloatOps, EngineError, bad_row, index_out_of_range}
use eleone_sql.Engine.Expr.{
  Expr, Literal, BinaryOp, literal_expr, column_ref, binary_expr, op_eq, literal_value, coerce,
}

-- What a scan asks of the transaction: `Cursor` at a start key, with the entries that `Next` gives
-- until the end, and `Get`.
pub record Reader : Type 0 where
  pub cursor : Bytes → Bytes → Result EngineError (List (Bytes × Bytes))
  pub get : Bytes → Bytes → Result EngineError Bytes

-- A row with its key.
abbrev pub KeyedRow : Type 0
KeyedRow = Bytes × List Value

unfoldable pub decoded : Result RowError (List Value) → Result EngineError (List Value)
decoded (ok vs) = ok vs
decoded (err e) = err (bad_row e)

-- The loop of `fetchAllRows`.
unfoldable pub decode_entries :
    List SqlType → List (Bytes × Bytes) → Result EngineError (List KeyedRow)
unfolding decoded
decode_entries types [] = ok []
decode_entries types ((k, v) ∷ es) = do
  vals ← decoded (decode_row v types)
  rest ← decode_entries types es
  ok ((k, vals) ∷ rest)

unfoldable pub fetch_all_rows : Reader → TableDef → Result EngineError (List KeyedRow)
unfolding decode_entries
fetch_all_rows r td = do
  entries ← r.cursor (table_target td.name) []
  decode_entries (column_types td) entries

unfoldable pub literal_of : Expr → Option Literal
literal_of (literal_expr l) = some l
literal_of _ = none

unfoldable pub match_column_literal : Expr → Expr → Bytes → Option (Bytes × Literal)
unfolding literal_of
match_column_literal (column_ref table name) b alias =
    elim (not (length table == 0) && not (bytes_eq table alias)) [
      | true ↦ none
      | false ↦ elim (literal_of b) [ none ↦ none | some l ↦ some (name, l) ]
    ]
match_column_literal _ b alias = none

-- The first match of the two orders of the operands.
unfoldable pub column_and_literal : Expr → Bytes → Option (Bytes × Literal)
unfolding match_column_literal
column_and_literal (binary_expr op_eq l r) alias = elim (match_column_literal l r alias) [
  | some m ↦ some m
  | none ↦ match_column_literal r l alias
]
column_and_literal _ alias = none

-- The prefix of the entries that have the sort key as a prefix, up to the first that has not.
unfoldable pub take_entries : Bytes → List (Bytes × Bytes) → List Bytes
take_entries prefix [] = []
take_entries prefix ((k, row_key) ∷ es) =
    let rest = take_entries prefix es in if has_prefix k prefix then row_key ∷ rest else []

unfoldable pub index_equality_lookup :
    Reader → TableDef → IndexDef → Value → Result EngineError (List Bytes)
unfolding take_entries
index_equality_lookup r td ix v = do
  entries ← r.cursor (index_target td.name ix.name) (sort_key v)
  ok (take_entries (sort_key v) entries)

-- The rows of the keys; a key without a row is passed over.
unfoldable pub fetch_keys : Reader → TableDef → List Bytes → Result EngineError (List KeyedRow)
unfolding decoded
fetch_keys r td [] = ok []
fetch_keys r td (k ∷ ks) =
    let rest = fetch_keys r td ks in
    elim (r.get (table_target td.name) k) [
      | err e ↦ rest
      | ok raw ↦ decoded (decode_row raw (column_types td)) >>= λ vals.
          rest >>= λ rows. ok ((k, vals) ∷ rows)
    ]

module _ (F : FloatOps) where
  -- The literal as a value of the column's type, if it is one. A missing column is Go's panic.
  unfoldable pub index_value : TableDef → Bytes → Literal → Result EngineError (Option Value)
  index_value td col l = elim (literal_value l) [
    | err e ↦ ok none
    | ok v ↦ elim (column_index td col) [
      | none ↦ err index_out_of_range
      | some i ↦ elim (get_elem? td.columns i) [
        | none ↦ err index_out_of_range
        | some c ↦ elim (coerce F v c.type) [ err e ↦ ok none | ok cv ↦ ok (some cv) ]
      ]
    ]
  ]

  -- The first index on the column decides.
  unfoldable pub first_index :
      TableDef → Bytes → Literal → List IndexDef → Result EngineError (Option (IndexDef × Value))
  unfolding index_value
  first_index td col l [] = ok none
  first_index td col l (ix ∷ ixs) =
      let rest = first_index td col l ixs in
      if bytes_eq ix.column col
      then (index_value td col l >>= λ o. ok (elim o [ none ↦ none | some v ↦ some (ix, v) ]))
      else rest

  unfoldable pub find_equality_index :
      TableDef → Expr → Bytes → Result EngineError (Option (IndexDef × Value))
  unfolding first_index
  find_equality_index td e alias = elim (column_and_literal e alias) [
    | none ↦ ok none
    | some (col, l) ↦ first_index td col l td.indexes
  ]

  -- `none` is a missing WHERE.
  unfoldable pub load_rows :
      Reader → TableDef → Option Expr → Bytes → Result EngineError (List KeyedRow)
  unfolding fetch_all_rows index_equality_lookup fetch_keys
  load_rows r td none alias = fetch_all_rows r td
  load_rows r td (some e) alias = find_equality_index td e alias >>= λ o. elim o [
    | none ↦ fetch_all_rows r td
    | some (ix, v) ↦ index_equality_lookup r td ix v >>= λ ks. fetch_keys r td ks
  ]
