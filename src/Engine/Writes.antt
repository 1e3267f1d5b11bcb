-- ===== src/Engine/Writes.antt =====
-- internal/engine/delete.go, insert.go and update.go: the statements that write, run against an open
-- transaction. An effect takes the store and the transaction and leaves them changed, also where it
-- ends with an error.
pub mod Statements
pub mod Running
pub mod Unique
use eleone_sql.Common.{
  ℕ, suc, ◌+◌, ◌%◌, ◌^◌, Bool, true, false, not, ◌&&◌, List, [], ◌∷◌, get_elem?, map, if◌then◌else◌,
  Option, none, some, Ordering, Result, ok, err,
}
use eleone_sql.Bytes.{Bytes}
use eleone_sql.Encoding.{encode_uint64}
use eleone_sql.Catalog.Value.{Value, sort_key, compare_values, truthy}
use eleone_sql.Catalog.Row.{encode_row}
use eleone_sql.Catalog.TableDef.{IndexDef, TableDef, column_index}
use eleone_sql.Txn.{Store, Txn, txn_put, txn_delete, tree_get}
use eleone_sql.Txn.Interface.{Trees, TreeError}
use eleone_sql.Txn.Targets.{table_target, index_target}
use eleone_sql.Sql.{codes}
use eleone_sql.Sql.Schema.{Assignment}
use eleone_sql.Engine.{
  FloatOps, EngineError, duplicate_value, index_out_of_range, table_does_not_exist, tree_failed,
  Tuple,
}
use eleone_sql.Engine.Expr.{Expr, evaluate}
use eleone_sql.Engine.Index.{index_key, is_entry_of}
use eleone_sql.Engine.Rows.{target_columns, positions, insert_values, updated_values}
use eleone_sql.Engine.Scan.{Reader, KeyedRow, load_rows}
use eleone_sql.Engine.Select.{SelectStmt, one_binding, exec_select}

-- What the statements ask of the storage besides the calls of a transaction: the catalog's `Table`,
-- `Cursor` with the entries that `Next` gives, and `SaveTable` of a definition whose NextRow changed.
pub record Database : Type 1 where
  pub trees : Trees
  pub tables : Bytes → trees.State → Option TableDef
  pub cursor : Bytes → Bytes → trees.State → Result TreeError (List (Bytes × Bytes))
  pub save_next_row : Bytes → ℕ → trees.State → Result TreeError (Unit {0}) × trees.State

-- `Result` of engine.go.
pub record Answer : Type 0 where
  pub columns : List Bytes
  pub rows : List (List Value)
  pub rows_affected : ℕ
  pub message : Bytes

unfoldable pub engine_result {ℓ} : {A : Type ℓ} → Result TreeError A → Result EngineError A
engine_result (ok a) = ok a
engine_result (err e) = err (tree_failed e)

unfoldable pub store_reader : (D : Database) → D.trees.State → Reader
unfolding engine_result tree_get
store_reader D s = record {
  cursor = λ target start. engine_result (D.cursor target start s);
  get = λ target key. engine_result (tree_get D.trees target key s);
}

-- `S` is the store with the transaction.
abbrev pub Effect : Type 0 → Type 0 → Type 0
Effect S A = S → Result EngineError A × S

module _ {S A : Type 0} where
  abbrev pub return : A → Effect S A
  return a s = (ok a, s)

  abbrev pub of_result : Result EngineError A → Effect S A
  of_result r s = (r, s)

module _ {S A B : Type 0} where
  abbrev pub continue : Result EngineError A × S → (A → Effect S B) → Result EngineError B × S
  continue (err e, s) f = (err e, s)
  continue (ok a, s) f = f a s

  infixl 1 ◌>>=◌ ◌>>◌
  abbrev pub ◌>>=◌ : Effect S A → (A → Effect S B) → Effect S B
  (p >>= f) s = continue (p s) f

  abbrev pub ◌>>◌ : Effect S A → Effect S B → Effect S B
  (p >> q) s = continue (p s) (λ _. q)

-- `rows[i][td.ColumnIndex(column)]`: a missing column is Go's panic.
unfoldable pub value_at : TableDef → Bytes → List Value → Result EngineError Value
value_at td column vs = elim (column_index td column) [
  | none ↦ err index_out_of_range
  | some i ↦ elim (get_elem? vs i) [ none ↦ err index_out_of_range | some v ↦ ok v ]
]

abbrev pub written : Bytes → ℕ → Answer
written message n = record { columns = []; rows = []; rows_affected = n; message = message }

module _ (D : Database) where
  abbrev pub Work : Type 0
  Work = Store D.trees × Txn

  unfoldable pub put_cell : Bytes → Bytes → Bytes → Effect Work (Unit {0})
  unfolding engine_result
  put_cell target key val (st, t) =
      let o = txn_put D.trees target key val st t in (engine_result o.0, (o.1, o.2))

  unfoldable pub delete_cell : Bytes → Bytes → Effect Work (Unit {0})
  unfolding engine_result
  delete_cell target key (st, t) =
      let o = txn_delete D.trees target key st t in (engine_result o.0, (o.1, o.2))

  unfoldable pub save_row_number : Bytes → ℕ → Effect Work (Unit {0})
  unfolding engine_result
  save_row_number table n (st, t) =
      let o = D.save_next_row table n st.trees in
      (engine_result o.0, (record st { trees = o.1 }, t))

  abbrev pub read : {A : Type 0} → (D.trees.State → Result EngineError A) → Effect Work A
  read f (st, t) = (f st.trees, (st, t))

  unfoldable pub table_named : Bytes → D.trees.State → Result EngineError TableDef
  table_named table s = elim (D.tables table s) [
    | none ↦ err (table_does_not_exist table)
    | some td ↦ ok td
  ]

  -- Only the first entry at the value's sort key is looked at.
  unfoldable pub check_unique :
      TableDef → IndexDef → Value → D.trees.State → Result EngineError (Unit {0})
  unfolding engine_result is_entry_of
  check_unique td ix v s =
      elim (engine_result (D.cursor (index_target td.name ix.name) (sort_key v) s)) [
        | err e ↦ err e
        | ok [] ↦ ok tt
        | ok ((k, row_key) ∷ es) ↦ if is_entry_of v k then err duplicate_value else ok tt
      ]

  unfoldable pub check_if_unique : TableDef → IndexDef → Value → Effect Work (Unit {0})
  unfolding check_unique
  check_if_unique td ix v = elim (ix.unique && not v.null) [
    | true ↦ read (check_unique td ix v)
    | false ↦ return tt
  ]

  -- The loops over the indexes of a table: those of DELETE, of INSERT and of UPDATE.
  unfoldable pub delete_entries :
      TableDef → Bytes → List Value → List IndexDef → Effect Work (Unit {0})
  unfolding value_at delete_cell index_key
  delete_entries td key row [] = return tt
  delete_entries td key row (ix ∷ ixs) = do
    v ← of_result (value_at td ix.column row)
    delete_cell (index_target td.name ix.name) (index_key v key)
    delete_entries td key row ixs

  unfoldable pub insert_entries :
      TableDef → Bytes → List Value → List IndexDef → Effect Work (Unit {0})
  unfolding value_at check_if_unique put_cell index_key
  insert_entries td key row [] = return tt
  insert_entries td key row (ix ∷ ixs) = do
    v ← of_result (value_at td ix.column row)
    check_if_unique td ix v
    put_cell (index_target td.name ix.name) (index_key v key) key
    insert_entries td key row ixs

  -- The entry of a value moves from the old key to the new one.
  unfoldable pub move_entry : TableDef → IndexDef → Bytes → Value → Value → Effect Work (Unit {0})
  unfolding check_if_unique delete_cell put_cell index_key
  move_entry td ix key old_v new_v = do
    check_if_unique td ix new_v
    delete_cell (index_target td.name ix.name) (index_key old_v key)
    put_cell (index_target td.name ix.name) (index_key new_v key) key
