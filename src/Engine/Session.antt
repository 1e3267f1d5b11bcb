-- ===== src/Engine/Session.antt =====
-- internal/engine/engine.go: a session, which runs one statement after the other. `none` is where
-- Begin waits for the lock that another session holds.
pub mod Transactions
pub mod Durable
pub mod Laws
use eleone_sql.Common.{ℕ, Bool, true, false, List, [], ◌∷◌, Option, none, some, Result, ok, err}
use eleone_sql.Bytes.{Bytes}
use eleone_sql.Txn.{Store, Txn, begin_txn, commit_txn, rollback_txn, maybe_checkpoint}
use eleone_sql.Txn.Interface.{TreeError}
use eleone_sql.Sql.{codes}
use eleone_sql.Sql.Lexer.{Unicode}
use eleone_sql.Sql.Parser.{ParseError}
use eleone_sql.Sql.Schema.{
  ColumnSpec, Statement, create_table, drop_table, create_index, insert, select, update, delete,
  begin, commit, rollback, show_tables,
}
use eleone_sql.Sql.Statements.{parse}
use eleone_sql.Engine.{FloatOps, EngineError}
use eleone_sql.Engine.Writes.{Database, Answer, written, Effect, Work}
use eleone_sql.Engine.Writes.Statements.{exec_delete, exec_insert, exec_update, exec_query}

pub data SessionError : Type 0 where
  bad_statement : ParseError → SessionError
  statement_failed : EngineError → SessionError
  transaction_failed : TreeError → SessionError
  already_open not_open : SessionError

-- The statements of ddl.go, which work on the store without a transaction.
pub record SchemaStatements (D : Database) : Type 0 where
  pub exec_create_table :
      Bytes → List ColumnSpec → Store D.trees → Result EngineError Answer × Store D.trees
  pub exec_drop_table : Bytes → Store D.trees → Result EngineError Answer × Store D.trees
  pub exec_create_index :
      Bytes → Bytes → Bytes → Bool → Store D.trees → Result EngineError Answer × Store D.trees
  pub exec_show_tables : Store D.trees → Result EngineError Answer × Store D.trees

unfoldable pub session_result : Result EngineError Answer → Result SessionError Answer
session_result (ok a) = ok a
session_result (err e) = err (statement_failed e)

module _ (D : Database) where
  -- `Session`: its transaction is the open one, if there is one.
  pub record Session : Type 0 where
    pub store : Store D.trees
    pub txn : Option Txn

  abbrev pub Outcome : Type 0
  Outcome = Result SessionError Answer × Session

  abbrev pub closed : Store D.trees → Session
  closed st = record { store = st; txn = none }

  -- `Close`, when the client is gone.
  unfoldable pub close : Session → Session
  close se = elim se.txn [ none ↦ se | some t ↦ closed (rollback_txn D.trees se.store t).1 ]

  -- COMMIT and the end of an implicit transaction: `answer` if it is committed.
  unfoldable pub commit_and_checkpoint : Answer → Store D.trees → Txn → Outcome
  commit_and_checkpoint answer st t =
      let (r, st', t') = commit_txn D.trees st t in
      elim r [
        | err e ↦ (err (transaction_failed e), closed st')
        | ok u ↦ (ok answer, closed (maybe_checkpoint D.trees 2000 st'))
      ]

  unfoldable pub begin_statement : Session → Option Outcome
  begin_statement se = elim se.txn [
    | some t ↦ some (err already_open, se)
    | none ↦ elim (begin_txn D.trees se.store) [
      | none ↦ none
      | some (st, t) ↦ some (ok (written (codes "BEGIN") 0), record { store = st; txn = some t })
    ]
  ]

  unfoldable pub commit_statement : Session → Outcome
  unfolding commit_and_checkpoint
  commit_statement se = elim se.txn [
    | none ↦ (err not_open, se)
    | some t ↦ commit_and_checkpoint (written (codes "COMMIT") 0) se.store t
  ]

  unfoldable pub rollback_statement : Session → Outcome
  rollback_statement se = elim se.txn [
    | none ↦ (err not_open, se)
    | some t ↦
        let (r, st, t') = rollback_txn D.trees se.store t in
        elim r [
          | err e ↦ (err (transaction_failed e), closed st)
          | ok u ↦ (ok (written (codes "ROLLBACK") 0), closed st)
        ]
  ]

  -- What `runInTxn` does after the statement in a transaction of its own.
  unfoldable pub end_implicit : Result EngineError Answer × Work D → Outcome
  unfolding commit_and_checkpoint
  end_implicit (err e, (st, t)) = (err (statement_failed e), closed (rollback_txn D.trees st t).1)
  end_implicit (ok answer, (st, t)) = commit_and_checkpoint answer st t

  unfoldable pub run_in_txn : Session → Effect (Work D) Answer → Option Outcome
  unfolding end_implicit session_result
  run_in_txn se fn = elim se.txn [
    | some t ↦
        let (r, w) = fn (se.store, t) in
        some (session_result r, record { store = w.0; txn = some w.1 })
    | none ↦ elim (begin_txn D.trees se.store) [
      | none ↦ none
      | some (st, t) ↦ some (end_implicit (fn (st, t)))
    ]
  ]

  abbrev pub on_store : Session → Result EngineError Answer × Store D.trees → Option Outcome
  on_store se (r, st) = some (session_result r, record se { store = st })

  module _ (S : SchemaStatements D) (F : FloatOps) where
    unfoldable pub execute_stmt : Session → Statement → Option Outcome
    unfolding begin_statement commit_statement rollback_statement run_in_txn exec_insert exec_update
        exec_delete exec_query
    execute_stmt se begin = begin_statement se
    execute_stmt se commit = some (commit_statement se)
    execute_stmt se rollback = some (rollback_statement se)
    execute_stmt se (create_table name cols) = on_store se (S.exec_create_table name cols se.store)
    execute_stmt se (drop_table name) = on_store se (S.exec_drop_table name se.store)
    execute_stmt se (create_index name table col unique) =
        on_store se (S.exec_create_index name table col unique se.store)
    execute_stmt se show_tables = on_store se (S.exec_show_tables se.store)
    execute_stmt se (insert table cols rows) = run_in_txn se (exec_insert D F table cols rows)
    execute_stmt se (update table assigns cond) = run_in_txn se (exec_update D F table assigns cond)
    execute_stmt se (delete table cond) = run_in_txn se (exec_delete D F table cond)
    execute_stmt se (select sel) = run_in_txn se (exec_query D F sel)

    -- `Execute`.
    unfoldable pub execute : (Bytes → Option ℕ) → Unicode → Session → Bytes → Option Outcome
    unfolding execute_stmt parse
    execute parse_float U se sql = elim (parse parse_float U sql) [
      | err e ↦ some (err (bad_statement e), se)
      | ok stmt ↦ execute_stmt se stmt
    ]

    -- One statement after the other, whatever their answers.
    unfoldable pub execute_all : Session → List Statement → Option Session
    unfolding execute_stmt
    execute_all se [] = some se
    execute_all se (stmt ∷ stmts) = elim (execute_stmt se stmt) [
      | none ↦ none
      | some (r, se') ↦ execute_all se' stmts
    ]
