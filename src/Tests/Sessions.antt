-- ===== src/Tests/Sessions.antt =====
-- internal/engine/engine.go: a session on a small database.
use eleone_sql.Common.{
  ◌≡◌, refl, arith, true, false, [], ◌∷◌, ◌++◌, none, some, ◌||◌, if◌then◌else◌, ok, err, All,
}
use eleone_sql.Bytes.{bytes_eq}
use eleone_sql.Encoding.{IsU64}
use eleone_sql.Catalog.Value.{integer, text_value}
use eleone_sql.Catalog.TableDef.{TableDef, IndexDef}
use eleone_sql.Wal.Replay.Events
use eleone_sql.Txn.{Store, Txn}
use eleone_sql.Txn.Interface.{Trees}
use eleone_sql.Tests.SmallTrees.{Cells, small_trees}
use eleone_sql.Sql.{codes}
use eleone_sql.Sql.Schema.{Statement, insert, delete, begin, rollback}
use eleone_sql.Engine.{FloatOps, table_does_not_exist, duplicate_value}
use eleone_sql.Engine.Expr.{literal_expr, column_ref, binary_expr, lit_int, op_eq}
use eleone_sql.Engine.Index.{index_key}
use eleone_sql.Engine.Writes.{Database, check_unique}
use eleone_sql.Engine.Writes.Unique.{check_unique-extension}
use eleone_sql.Engine.Session.{SchemaStatements, Session, Outcome, close, execute_stmt, execute_all}
use eleone_sql.Engine.Session.Transactions.{
  IsData, IsTransactional, IsIdle, IsOpen, IsConsistent, idle, execute_stmt-IsEnded, IsEnded,
  IsAborted,
}
use eleone_sql.Engine.Session.Laws.{execute_all-rollback, execute_stmt-IsConsistent, close-IsIdle}

zero_word : IsU64 0
zero_word = omega arith

abbrev no_floats : FloatOps
no_floats = record {
  add = λ a b. 0;
  sub = λ a b. 0;
  mul = λ a b. 0;
  div = λ a b. 0;
  neg = λ a. 0;
  of_int = λ a. 0;
  add-IsU64 = λ a b. zero_word;
  sub-IsU64 = λ a b. zero_word;
  mul-IsU64 = λ a b. zero_word;
  div-IsU64 = λ a b. zero_word;
  neg-IsU64 = λ a. zero_word;
  of_int-IsU64 = λ a. zero_word;
}

-- One table with one integer column and a unique index.
abbrev numbers : TableDef
numbers = record {
  name = codes "t";
  columns =
      record {
        name = codes "a";
        type = integer;
        primary_key = false;
        unique = true;
        not_null = true;
      }
      ∷ [];
  root = 4;
  next_row = 3;
  indexes = record { name = codes "i"; column = codes "a"; unique = true; root = 5 } ∷ [];
}

abbrev row_trees : Trees
row_trees = small_trees (λ t. bytes_eq t (codes "T:t") || bytes_eq t (codes "I:t:i"))

abbrev no_rows : Cells
no_rows t k = none

abbrev small : Database
small = record {
  trees = row_trees;
  tables = λ table s. if bytes_eq table (codes "t") then some numbers else none;
  cursor = λ target start s. ok [];
  save_next_row = λ table n s. (ok tt, s);
}

abbrev no_schema_statements : SchemaStatements small
no_schema_statements = record {
  exec_create_table = λ name cols st. (err (table_does_not_exist name), st);
  exec_drop_table = λ name st. (err (table_does_not_exist name), st);
  exec_create_index = λ name table col unique st. (err (table_does_not_exist table), st);
  exec_show_tables = λ st. (err (table_does_not_exist []), st);
}

abbrev new_store : Store row_trees
new_store = record {
  trees = no_rows;
  log = [];
  next_txn_id = 0;
  writes_since_checkpoint = 0;
  locked = false;
}

abbrev new_session : Session small
new_session = record { store = new_store; txn = none }

new_session-IsIdle : IsIdle small new_session
new_session-IsIdle = record { no_txn = refl; unlocked = refl }

-- INSERT INTO t VALUES (7), (8); the first row's key is 3.
abbrev two_values : Statement
two_values =
    insert (codes "t") [] ((literal_expr (lit_int 7) ∷ []) ∷ (literal_expr (lit_int 8) ∷ []) ∷ [])

abbrev delete_seven : Statement
delete_seven =
    delete (codes "t")
      (some (binary_expr op_eq (column_ref [] (codes "a")) (literal_expr (lit_int 7))))

two_values-IsData : IsData two_values
unfolding IsData
two_values-IsData = tt

both-IsData : All IsData (two_values ∷ delete_seven ∷ [])
unfolding IsData
both-IsData = (tt, (tt, tt))

begin-IsTransactional : IsTransactional begin
unfolding IsTransactional
begin-IsTransactional = tt

execute_stmt-IsEnded_example :
    (o : Outcome small) × (execute_stmt small no_schema_statements no_floats new_session two_values
      ≡ some o)
    × IsIdle small o.1
    × IsEnded [] 1 o.0 o.1.store.log
execute_stmt-IsEnded_example =
    execute_stmt-IsEnded small no_schema_statements no_floats new_session two_values
      two_values-IsData new_session-IsIdle

execute_all-rollback_example :
    (last : Session small) × (execute_all small no_schema_statements no_floats new_session
        (begin ∷ ((two_values ∷ delete_seven ∷ []) ++ rollback ∷ []))
      ≡ some last)
    × IsIdle small last
    × IsAborted [] 1 last.store.log
execute_all-rollback_example =
    execute_all-rollback small no_schema_statements no_floats new_session
      (two_values ∷ delete_seven ∷ []) both-IsData new_session-IsIdle

execute_stmt-IsConsistent_example :
    (o : Outcome small) × (execute_stmt small no_schema_statements no_floats new_session begin
      ≡ some o)
    × IsConsistent small o.1
execute_stmt-IsConsistent_example =
    execute_stmt-IsConsistent small no_schema_statements no_floats new_session begin
      begin-IsTransactional (idle new_session-IsIdle)

-- The session after BEGIN.
abbrev open_store : Store row_trees
open_store = record new_store { locked = true; next_txn_id = 1; log = Events.begin 1 ∷ [] }

abbrev first_txn : Txn
first_txn = record { id = 1; undo = []; done = false }

abbrev open_session : Session small
open_session = record { store = open_store; txn = some first_txn }

open_session-IsOpen : IsOpen small [] 1 open_session
open_session-IsOpen = record {
  open_txn = first_txn;
  has_txn = refl;
  runs = record {
    same_id = refl;
    still_open = refl;
    locked = refl;
    writes = [];
    are_writes = tt;
    logged = refl;
  };
}

close-IsIdle_example :
    IsIdle small (close small open_session) × IsAborted [] 1 (close small open_session).store.log
close-IsIdle_example = close-IsIdle small [] 1 open_session open_session-IsOpen

-- A database whose index cursors find one entry, that of "ab".
abbrev one_entry : Database
one_entry = record {
  trees = row_trees;
  tables = λ table s. if bytes_eq table (codes "t") then some numbers else none;
  cursor = λ target start s. ok ((index_key (text_value (codes "ab")) (codes "k"), codes "k") ∷ []);
  save_next_row = λ table n s. (ok tt, s);
}

abbrev an_index : IndexDef
an_index = record { name = codes "i"; column = codes "a"; unique = true; root = 5 }

check_unique-extension_example :
    check_unique one_entry numbers an_index (text_value (codes "a")) no_rows ≡ err duplicate_value
check_unique-extension_example =
    check_unique-extension one_entry numbers an_index no_rows (codes "a") (codes "b") (codes "k")
      (codes "k") [] refl
