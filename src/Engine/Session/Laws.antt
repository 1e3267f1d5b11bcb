-- ===== src/Engine/Session/Laws.antt =====
-- internal/engine/engine.go: a session and its transaction.
use eleone_sql.Common.{
  ℕ, ◌+◌, ◌%◌, ◌^◌, ◌≡◌, refl, ◌∙◌, List, [], ◌∷◌, ◌++◌, some, ok, err, All, Result-cases, inl, inr,
}
use eleone_sql.Wal.Replay.Events
use eleone_sql.Wal.Replay.Events.{Event}
use eleone_sql.Txn.{rollback_txn}
use eleone_sql.Sql.Schema.{Statement, begin, commit, rollback}
use eleone_sql.Sql.{codes}
use eleone_sql.Engine.{FloatOps}
use eleone_sql.Engine.Writes.{Database, written}
use eleone_sql.Engine.Session.{
  transaction_failed, already_open, not_open, SchemaStatements, Session, Outcome, closed, close,
  commit_and_checkpoint, begin_statement, commit_statement, rollback_statement, execute_stmt,
  execute_all,
}
use eleone_sql.Engine.Session.Transactions.{
  IsData, IsTransactional, IsIdle, IsOpen, IsConsistent, IsAborted, idle, in_txn, begun,
  rolled_back, committed, data_effect, run_in_txn-IsOpen, execute_stmt-IsEnded,
}

module _ (D : Database) where
  -- Whatever the trees do: closing a session whose transaction is open and holds the lock leaves no
  -- transaction and a free lock, also where taking its writes back fails; and the log has no Commit
  -- of the transaction: after Begin only its Puts and Deletes, and at most Rollback.
  pub close-IsIdle :
      (before : List Event) (id : ℕ) (se : Session D)
      → IsOpen D before id se
      → IsIdle D (close D se) × IsAborted before id (close D se).store.log
  unfolding close
  close-IsIdle before id se h =
      let r = rolled_back D id before se.store h.open_txn h.runs in
      rw (h.has_txn, close) (record { no_txn = refl; unlocked = r.0 }, r.1)

module _ (D : Database) (S : SchemaStatements D) (F : FloatOps) where
  data-IsOpen :
      (before : List Event) (id : ℕ) (se : Session D) (stmt : Statement)
      → IsData stmt
      → IsOpen D before id se
      → (o : Outcome D) × (execute_stmt D S F se stmt ≡ some o) × IsOpen D before id o.1
  data-IsOpen before id se stmt d h =
      let (fn, e, keeps) = data_effect D S F stmt d in
      let (o, r, i) =
        run_in_txn-IsOpen D S F before id se fn (keeps id (before ++ Events.begin id ∷ [])) h in
      (o, e se ∙ r, i)

  begin-idle :
      (se : Session D)
      → IsIdle D se
      → (o : Outcome D) × (execute_stmt D S F se begin ≡ some o)
        × IsOpen D se.store.log ((se.store.next_txn_id + 1) % 2 ^ 64) o.1
  unfolding execute_stmt begin_statement
  begin-idle se h =
      let (w, e, runs) = begun D se.store h.unlocked in
      let o : Outcome D =
        (ok (written (codes "BEGIN") 0), record { store = w.0; txn = some w.1 }) in
      (
        o,
        rw (h.no_txn, e, begin_statement) refl,
        record { open_txn = w.1; has_txn = refl; runs = runs },
      )

  commit-open :
      (before : List Event) (id : ℕ) (se : Session D)
      → IsOpen D before id se
      → (o : Outcome D) × (execute_stmt D S F se commit ≡ some o) × IsIdle D o.1
  unfolding execute_stmt commit_statement
  commit-open before id se h =
      let answer = written (codes "COMMIT") 0 in
      (
        commit_and_checkpoint D answer se.store h.open_txn,
        rw (h.has_txn, commit_statement) refl,
        (committed D id before se.store h.open_txn h.runs answer).1,
      )

  -- ROLLBACK releases the lock whether the trees take the writes back or not.
  rollback-open :
      (before : List Event) (id : ℕ) (se : Session D)
      → IsOpen D before id se
      → (o : Outcome D) × (execute_stmt D S F se rollback ≡ some o)
        × IsIdle D o.1
        × IsAborted before id o.1.store.log
  unfolding execute_stmt rollback_statement
  rollback-open before id se h =
      let r = rolled_back D id before se.store h.open_txn h.runs in
      let st = (rollback_txn D.trees se.store h.open_txn).1 in
      let i : IsIdle D (closed D st) = record { no_txn = refl; unlocked = r.0 } in
      elim (Result-cases (rollback_txn D.trees se.store h.open_txn).0) [
        | inl (u, e) ↦
            let o : Outcome D = (ok (written (codes "ROLLBACK") 0), closed D st) in
            (o, rw (h.has_txn, e, rollback_statement) refl, i, r.1)
        | inr (x, e) ↦
            let o : Outcome D = (err (transaction_failed x), closed D st) in
            (o, rw (h.has_txn, e, rollback_statement) refl, i, r.1)
      ]

  -- An outcome whose session is consistent.
  abbrev Answers : Session D → Statement → Type 0
  Answers se stmt = (o : Outcome D) × (execute_stmt D S F se stmt ≡ some o) × IsConsistent D o.1

  Answers-data :
      (se : Session D) (stmt : Statement) → IsData stmt → IsConsistent D se → Answers se stmt
  Answers-data se stmt d (idle h) =
      let (o, e, i, same) = execute_stmt-IsEnded D S F se stmt d h in (o, e, idle i)
  Answers-data se stmt d (in_txn {before} {id} h) =
      let (o, e, i) = data-IsOpen before id se stmt d h in (o, e, in_txn i)

  Answers-begin : (se : Session D) → IsConsistent D se → Answers se begin
  unfolding execute_stmt begin_statement
  Answers-begin se (idle h) = let (o, e, i) = begin-idle se h in (o, e, in_txn i)
  Answers-begin se (in_txn h) =
      let o : Outcome D = (err already_open, se) in
      (o, simp (h.has_txn, begin_statement) refl, in_txn h)

  Answers-commit : (se : Session D) → IsConsistent D se → Answers se commit
  unfolding execute_stmt commit_statement
  Answers-commit se (in_txn {before} {id} h) =
      let (o, e, i) = commit-open before id se h in (o, e, idle i)
  Answers-commit se (idle h) =
      let o : Outcome D = (err not_open, se) in (o, simp (h.no_txn, commit_statement) refl, idle h)

  Answers-rollback : (se : Session D) → IsConsistent D se → Answers se rollback
  unfolding execute_stmt rollback_statement
  Answers-rollback se (in_txn {before} {id} h) =
      let (o, e, i, same) = rollback-open before id se h in (o, e, idle i)
  Answers-rollback se (idle h) =
      let o : Outcome D = (err not_open, se) in
      (o, simp (h.no_txn, rollback_statement) refl, idle h)

  -- Whatever the trees do: if a session either has no transaction and the lock is free, or has one
  -- that is not done, holds the lock and has logged only its own Puts and Deletes since its Begin,
  -- then BEGIN, COMMIT, ROLLBACK, INSERT, UPDATE, DELETE and SELECT each get an answer, and the
  -- session is again in one of these two states. The statements of ddl.go are left out. An index
  -- on a column that its table lacks, on which Go panics, counts as an error here.
  pub execute_stmt-IsConsistent :
      (se : Session D) (stmt : Statement)
      → IsTransactional stmt
      → IsConsistent D se
      → (o : Outcome D) × (execute_stmt D S F se stmt ≡ some o) × IsConsistent D o.1
  unfolding IsTransactional IsData
  execute_stmt-IsConsistent se begin d h = Answers-begin se h
  execute_stmt-IsConsistent se commit d h = Answers-commit se h
  execute_stmt-IsConsistent se rollback d h = Answers-rollback se h
  execute_stmt-IsConsistent se stmt d h = Answers-data se stmt d h

  execute_all-step :
      (se : Session D) (stmt : Statement) (stmts : List Statement) (o : Outcome D)
      → execute_stmt D S F se stmt ≡ some o
      → execute_all D S F se (stmt ∷ stmts) ≡ execute_all D S F o.1 stmts
  unfolding execute_all
  execute_all-step se stmt stmts o e = rw (e, execute_all) refl

  execute_all-open :
      (before : List Event) (id : ℕ) (se : Session D) (stmts : List Statement)
      → All IsData stmts
      → IsOpen D before id se
      → (last : Session D) × (execute_all D S F se (stmts ++ rollback ∷ []) ≡ some last)
        × IsIdle D last
        × IsAborted before id last.store.log
  unfolding execute_all
  execute_all-open before id se [] d h =
      let (o, e, i, l) = rollback-open before id se h in
      (o.1, execute_all-step se rollback [] o e, i, l)
  execute_all-open before id se (stmt ∷ stmts) d h =
      let (o, e, i) = data-IsOpen before id se stmt d.0 h in
      let (last, e', i', l) = execute_all-open before id o.1 stmts d.1 i in
      (last, execute_all-step se stmt (stmts ++ rollback ∷ []) o e ∙ e', i', l)

  -- Whatever the trees do, with the lock free and no transaction open: BEGIN, any list of INSERT,
  -- UPDATE, DELETE and SELECT statements, whichever of them fail, and ROLLBACK all get answers;
  -- after them no transaction is open and the lock is free. The log has got the records of one
  -- transaction, with the next number modulo 2 ^ 64: Begin, then Puts and Deletes of it, and at
  -- most Rollback; no Commit, so that no statement of the list commits. An index on a column that
  -- its table lacks, on which Go panics, counts as an error here.
  pub execute_all-rollback :
      (se : Session D) (stmts : List Statement)
      → All IsData stmts
      → IsIdle D se
      → (last : Session D) × (execute_all D S F se (begin ∷ (stmts ++ rollback ∷ [])) ≡ some last)
        × IsIdle D last
        × IsAborted se.store.log ((se.store.next_txn_id + 1) % 2 ^ 64) last.store.log
  unfolding execute_all
  execute_all-rollback se stmts d h =
      let (o, e, i) = begin-idle se h in
      let (last, e', i', l) = execute_all-open _ _ o.1 stmts d i in
      (last, execute_all-step se begin (stmts ++ rollback ∷ []) o e ∙ e', i', l)
