-- ===== src/Engine/Writes/Statements.antt =====
-- internal/engine/delete.go, insert.go and update.go: execDelete, execInsert and execUpdate; and
-- execSelect of select.go on a store.
use eleone_sql.Common.{
  ℕ, suc, ◌+◌, ◌%◌, ◌^◌, Bool, true, false, List, [], ◌∷◌, map, Option, none, some, Ordering,
  Result, ok, err,
}
use eleone_sql.Bytes.{Bytes}
use eleone_sql.Encoding.{encode_uint64}
use eleone_sql.Catalog.Value.{Value, compare_values, truthy}
use eleone_sql.Catalog.Row.{encode_row}
use eleone_sql.Catalog.TableDef.{IndexDef, TableDef}
use eleone_sql.Txn.Targets.{table_target}
use eleone_sql.Sql.{codes}
use eleone_sql.Sql.Schema.{Assignment}
use eleone_sql.Engine.{FloatOps, EngineError, Tuple}
use eleone_sql.Engine.Expr.{Expr, evaluate}
use eleone_sql.Engine.Rows.{target_columns, positions, insert_values, updated_values}
use eleone_sql.Engine.Scan.{KeyedRow, load_rows}
use eleone_sql.Engine.Select.{SelectStmt, one_binding, exec_select}
use eleone_sql.Engine.Writes.{
  Database, Answer, store_reader, Effect, return, of_result, ◌>>=◌, ◌>>◌, value_at, written, Work,
  put_cell, delete_cell, save_row_number, read, table_named, delete_entries, insert_entries,
  move_entry,
}

module _ (D : Database) (F : FloatOps) where
  unfoldable pub row_matches : Option Expr → Tuple → Result EngineError Bool
  row_matches none tp = ok true
  row_matches (some e) tp = elim (evaluate F tp e) [ err x ↦ err x | ok v ↦ ok (truthy v) ]

  unfoldable pub update_entries :
      TableDef → Bytes → List Value → List Value → List IndexDef → Effect (Work D) (Unit {0})
  unfolding value_at move_entry
  update_entries td key old new [] = return tt
  update_entries td key old new (ix ∷ ixs) = do
    old_v ← of_result (value_at td ix.column old)
    new_v ← of_result (value_at td ix.column new)
    elim (compare_values F.of_int old_v new_v) [
      | Ordering.eq ↦ return tt
      | _ ↦ move_entry D td ix key old_v new_v
    ]
    update_entries td key old new ixs

  unfoldable pub delete_rows : TableDef → Bytes → Option Expr → List KeyedRow → Effect (Work D) ℕ
  unfolding row_matches delete_entries delete_cell one_binding
  delete_rows td table cond [] = return 0
  delete_rows td table cond ((key, row) ∷ rows) = do
    matches ← of_result (row_matches cond (one_binding table td row ∷ []))
    elim matches [
      | false ↦ delete_rows td table cond rows
      | true ↦ do
        delete_entries D td key row td.indexes
        delete_cell D (table_target td.name) key
        n ← delete_rows td table cond rows
        return (suc n)
    ]

  unfoldable pub exec_delete : Bytes → Option Expr → Effect (Work D) Answer
  unfolding table_named store_reader delete_rows
  exec_delete table cond = do
    td ← read D (table_named D table)
    rows ← read D (λ s. load_rows F (store_reader D s) td cond table)
    n ← delete_rows td table cond rows
    return (written (codes "DELETE") n)

  -- `next` is the table's NextRow, which is saved for every row.
  unfoldable pub insert_rows : TableDef → List ℕ → ℕ → List (List Expr) → Effect (Work D) ℕ
  unfolding insert_values save_row_number insert_entries put_cell encode_uint64 encode_row
  insert_rows td ps next [] = return 0
  insert_rows td ps next (es ∷ rows) = do
    values ← of_result (insert_values F td ps es)
    save_row_number D td.name ((next + 1) % 2 ^ 64)
    insert_entries D td (encode_uint64 next) values td.indexes
    put_cell D (table_target td.name) (encode_uint64 next) (encode_row values)
    n ← insert_rows td ps ((next + 1) % 2 ^ 64) rows
    return (suc n)

  unfoldable pub exec_insert : Bytes → List Bytes → List (List Expr) → Effect (Work D) Answer
  unfolding table_named positions target_columns insert_rows
  exec_insert table columns rows = do
    td ← read D (table_named D table)
    ps ← of_result (positions td (target_columns td columns))
    n ← insert_rows td ps td.next_row rows
    return (written (codes "INSERT") n)

  unfoldable pub update_rows :
      TableDef → Bytes → Option Expr → List ℕ → List Expr → List KeyedRow → Effect (Work D) ℕ
  unfolding row_matches updated_values update_entries put_cell encode_row one_binding
  update_rows td table cond ps es [] = return 0
  update_rows td table cond ps es ((key, row) ∷ rows) = do
    matches ← of_result (row_matches cond (one_binding table td row ∷ []))
    elim matches [
      | false ↦ update_rows td table cond ps es rows
      | true ↦ do
        values ← of_result (updated_values F td (one_binding table td row ∷ []) ps es row)
        update_entries td key row values td.indexes
        put_cell D (table_target td.name) key (encode_row values)
        n ← update_rows td table cond ps es rows
        return (suc n)
    ]

  unfoldable pub exec_update : Bytes → List Assignment → Option Expr → Effect (Work D) Answer
  unfolding table_named store_reader positions update_rows
  exec_update table assigns cond = do
    td ← read D (table_named D table)
    rows ← read D (λ s. load_rows F (store_reader D s) td cond table)
    ps ← of_result (positions td (map (λ a. a.column) assigns))
    n ← update_rows td table cond ps (map (λ a. a.value) assigns) rows
    return (written (codes "UPDATE") n)

  unfoldable pub exec_query : SelectStmt → Effect (Work D) Answer
  unfolding store_reader exec_select
  exec_query sel (st, t) =
      let s = st.trees in
      elim (exec_select F (store_reader D s) (λ table. D.tables table s) sel) [
        | err e ↦ (err e, (st, t))
        | ok r ↦ (
          ok (record { columns = r.columns; rows = r.rows; rows_affected = 0; message = [] }),
          (st, t),
        )
      ]
