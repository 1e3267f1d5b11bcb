-- ===== src/Engine/Session/Transactions.antt =====
-- internal/engine/engine.go: one statement in a transaction of a session.
use eleone_sql.Common.{
  ℕ, ◌+◌, ◌%◌, ◌^◌, ◌≡◌, ◌⊎◌, sym, ap, append-nil, All, List, Result-cases, inl, inr, refl, ◌∙◌,
  true, false, [], ◌∷◌, ◌++◌, ltb, length, none, some, Result, ok, err, Bool-cases,
}
use mathlib.Core.List.{reverse}
use eleone_sql.Txn
use eleone_sql.Txn.{Store, Txn, begin_txn, commit_txn, rollback_txn, undo_entries, maybe_checkpoint}
use eleone_sql.Wal.Replay.Events
use eleone_sql.Wal.Replay.Events.{Event}
use eleone_sql.Txn.Working.{IsWriteOf}
use eleone_sql.Sql.Schema.{Statement, insert, select, update, delete, begin, commit, rollback}
use eleone_sql.Engine.{FloatOps, EngineError}
use eleone_sql.Engine.Writes.{Database, Answer, Effect, Work}
use eleone_sql.Engine.Writes.Statements.{exec_delete, exec_insert, exec_update, exec_query}
use eleone_sql.Engine.Writes.Running.{
  Runs, Left, Keeps, exec_delete-Keeps, exec_insert-Keeps, exec_update-Keeps, exec_query-Keeps,
}
use eleone_sql.Engine.Session.{
  SessionError, transaction_failed, SchemaStatements, Session, Outcome, commit_and_checkpoint,
  end_implicit, run_in_txn, session_result, execute_stmt, closed,
}

-- The statements that run in a transaction, and those that end or begin one.
unfoldable pub IsData : Statement → Type 0
IsData (insert table cols rows) = Unit
IsData (update table assigns cond) = Unit
IsData (delete table cond) = Unit
IsData (select sel) = Unit
IsData _ = ⊥

unfoldable pub IsTransactional : Statement → Type 0
unfolding IsData
IsTransactional begin = Unit
IsTransactional commit = Unit
IsTransactional rollback = Unit
IsTransactional stmt = IsData stmt

-- The log of a committed transaction: its records between Begin and Commit, or nothing where the
-- checkpoint that follows has emptied it.
pub data IsCommitted (before : List Event) (id : ℕ) : List Event → Type 0 where
  kept :
      (writes : List Event)
      → All (IsWriteOf id) writes
      → IsCommitted before id
          (((before ++ Events.begin id ∷ []) ++ writes) ++ Events.commit id ∷ [])
  emptied : IsCommitted before id []

-- The log of a transaction that has been given up: its records after Begin, and Rollback if all of
-- it was undone; no Commit.
pub data IsAborted (before : List Event) (id : ℕ) : List Event → Type 0 where
  undone :
      (writes : List Event)
      → All (IsWriteOf id) writes
      → IsAborted before id
          (((before ++ Events.begin id ∷ []) ++ writes) ++ Events.rollback id ∷ [])
  undo_failed :
      (writes : List Event)
      → All (IsWriteOf id) writes
      → IsAborted before id ((before ++ Events.begin id ∷ []) ++ writes)

-- The log after a transaction of its own, by the answer of the statement.
unfoldable pub IsEnded : List Event → ℕ → {A : Type 0} → Result SessionError A → List Event → Type 0
IsEnded before id (ok a) log = IsCommitted before id log
IsEnded before id (err e) log = IsAborted before id log

module _ (D : Database) where
  -- Between transactions the lock is free.
  pub record IsIdle (se : Session D) : Type 0 where
    pub no_txn : se.txn ≡ none
    pub unlocked : se.store.locked ≡ false

  -- Transaction `id` is open: it holds the lock, and since Begin, at the log `before`, the log has
  -- got only its writes.
  pub record IsOpen (before : List Event) (id : ℕ) (se : Session D) : Type 0 where
    pub open_txn : Txn
    pub has_txn : se.txn ≡ some open_txn
    pub runs : Runs D id (before ++ Events.begin id ∷ []) (se.store, open_txn)

  pub data IsConsistent (se : Session D) : Type 0 where
    idle : IsIdle se → IsConsistent se
    in_txn : {before : List Event} {id : ℕ} → IsOpen before id se → IsConsistent se

  -- Begin while the lock is free.
  pub begun :
      (st : Store D.trees)
      → st.locked ≡ false
      → let id = (st.next_txn_id + 1) % 2 ^ 64 in
        (w : Work D) × (begin_txn D.trees st ≡ some w)
        × Runs D id (st.log ++ Events.begin id ∷ []) w
  unfolding begin_txn
  begun st free =
      let id = (st.next_txn_id + 1) % 2 ^ 64 in
      let w : Work D = (
        record st { locked = true; next_txn_id = id; log = st.log ++ Events.begin id ∷ [] },
        record { id = id; undo = []; done = false },
      ) in
      (
        w,
        rw (free, begin_txn) refl,
        record {
          same_id = refl;
          still_open = refl;
          locked = refl;
          writes = [];
          are_writes = tt;
          logged = sym (append-nil (st.log ++ Events.begin id ∷ []));
        },
      )

  -- The store after Commit.
  abbrev after_commit : Store D.trees → Txn → Store D.trees
  after_commit st t = record st {
    locked = false;
    log = st.log ++ Events.commit t.id ∷ [];
    writes_since_checkpoint = st.writes_since_checkpoint + length t.undo;
  }

  commit_lem :
      (st : Store D.trees) (t : Txn)
      → t.done ≡ false
      → ◌≡◌ {A = Txn.Outcome D.trees (Unit {0})}
          (commit_txn D.trees st t)
          (ok tt, after_commit st t, record t { done = true })
  unfolding commit_txn
  commit_lem st t h = rw (h, commit_txn) refl

  commit_open :
      (answer : Answer) (st : Store D.trees) (t : Txn)
      → t.done ≡ false
      → commit_and_checkpoint D answer st t
        ≡ (ok answer, closed D (maybe_checkpoint D.trees 2000 (after_commit st t)))
  unfolding commit_and_checkpoint
  commit_open answer st t h =
      ap
        (λ (o : Txn.Outcome D.trees (Unit {0})). elim o.0 as (λ _. Outcome D) [
          | err e ↦ (err (transaction_failed e), closed D o.1)
          | ok u ↦ (ok answer, closed D (maybe_checkpoint D.trees 2000 o.1))
        ])
        (commit_lem st t h)

  checkpoint_cases :
      (st : Store D.trees)
      → (maybe_checkpoint D.trees 2000 st ≡ st)
        ⊎ (maybe_checkpoint D.trees 2000 st ≡ record st { log = []; writes_since_checkpoint = 0 })
  unfolding maybe_checkpoint
  checkpoint_cases st = elim (Bool-cases (ltb st.writes_since_checkpoint 2000)) [
    | inl h ↦ inl (rw (h, maybe_checkpoint) refl)
    | inr h ↦ inr (rw (h, maybe_checkpoint) refl)
  ]

  module _ (id : ℕ) (before : List Event) (st : Store D.trees) (t : Txn)
      (h : Runs D id (before ++ Events.begin id ∷ []) (st, t)) where
    -- What Rollback leaves, whether the trees take it all back or not.
    pub rolled_back :
        let o = rollback_txn D.trees st t in (o.1.locked ≡ false) × IsAborted before id o.1.log
    unfolding rollback_txn
    rolled_back = elim (Result-cases (undo_entries D.trees (reverse t.undo) st.trees).0) [
      | inl (u, e) ↦
          rw (h.still_open, e, rollback_txn)
            (refl, rw (h.logged, h.same_id) (undone h.writes h.are_writes))
      | inr (x, e) ↦
          rw (h.still_open, e, rollback_txn) (refl, rw h.logged (undo_failed h.writes h.are_writes))
    ]

    pub committed :
        (answer : Answer)
        → let o = commit_and_checkpoint D answer st t in
          (o.0 ≡ ok answer) × IsIdle o.1 × IsCommitted before id o.1.store.log
    committed answer =
        let c : IsIdle (closed D (maybe_checkpoint D.trees 2000 (after_commit st t)))
            × IsCommitted before id (maybe_checkpoint D.trees 2000 (after_commit st t)).log =
          elim (checkpoint_cases (after_commit st t)) [
            | inl e ↦ rw e (
              record { no_txn = refl; unlocked = refl },
              rw (h.logged, h.same_id) (kept h.writes h.are_writes),
            )
            | inr e ↦ rw e (record { no_txn = refl; unlocked = refl }, emptied)
          ] in
        rw (commit_open answer st t h.still_open) (refl, c.0, c.1)

  -- The end of a statement in a transaction of its own.
  ended :
      (id : ℕ) (before : List Event) (o : Result EngineError Answer × Work D)
      → Left D id (before ++ Events.begin id ∷ []) o
      → IsIdle (end_implicit D o).1
        × IsEnded before id (end_implicit D o).0 (end_implicit D o).1.store.log
  unfolding end_implicit IsEnded
  ended id before (err x, (st, t)) h =
      let r = rolled_back id before st t h.runs in (record { no_txn = refl; unlocked = r.0 }, r.1)
  ended id before (ok answer, (st, t)) h =
      let c = committed id before st t h.runs answer in rw c.0 (c.1, c.2)

  module _ (S : SchemaStatements D) (F : FloatOps) where
    -- What a data statement does in a transaction.
    pub data_effect :
        (stmt : Statement)
        → IsData stmt
        → (fn : Effect (Work D) Answer) × ((se : Session D)
            → execute_stmt D S F se stmt ≡ run_in_txn D se fn)
          × ((id : ℕ) (before : List Event) → Keeps D id before fn)
    unfolding execute_stmt IsData
    data_effect (insert table cols rows) h = (
      exec_insert D F table cols rows,
      λ se. refl,
      λ id b. exec_insert-Keeps D id b F table cols rows,
    )
    data_effect (update table assigns cond) h = (
      exec_update D F table assigns cond,
      λ se. refl,
      λ id b. exec_update-Keeps D id b F table assigns cond,
    )
    data_effect (delete table cond) h =
        (exec_delete D F table cond, λ se. refl, λ id b. exec_delete-Keeps D id b F table cond)
    data_effect (select sel) h =
        (exec_query D F sel, λ se. refl, λ id b. exec_query-Keeps D id b F sel)
    data_effect (Statement.create_table n c) h = absurd h
    data_effect (Statement.drop_table n) h = absurd h
    data_effect (Statement.create_index n t c u) h = absurd h
    data_effect Statement.show_tables h = absurd h
    data_effect begin h = absurd h
    data_effect commit h = absurd h
    data_effect rollback h = absurd h

    run_in_txn-IsIdle :
        (se : Session D) (fn : Effect (Work D) Answer)
        → ((id : ℕ) (before : List Event) → Keeps D id before fn)
        → IsIdle se
        → (o : Outcome D) × (run_in_txn D se fn ≡ some o)
          × IsIdle o.1
          × IsEnded se.store.log ((se.store.next_txn_id + 1) % 2 ^ 64) o.0 o.1.store.log
    unfolding run_in_txn
    run_in_txn-IsIdle se fn keeps h =
        let (w, e, runs) = begun se.store h.unlocked in
        let last = ended _ se.store.log (fn w) (keeps _ _ w runs) in
        (end_implicit D (fn w), rw (h.no_txn, e, run_in_txn) refl, last.0, last.1)

    pub run_in_txn-IsOpen :
        (before : List Event) (id : ℕ) (se : Session D) (fn : Effect (Work D) Answer)
        → Keeps D id (before ++ Events.begin id ∷ []) fn
        → IsOpen before id se
        → (o : Outcome D) × (run_in_txn D se fn ≡ some o) × IsOpen before id o.1
    unfolding run_in_txn
    run_in_txn-IsOpen before id se fn keeps h =
        let w : Work D = (se.store, h.open_txn) in
        let o : Outcome D =
          (session_result (fn w).0, record { store = (fn w).1.0; txn = some (fn w).1.1 }) in
        (
          o,
          rw (h.has_txn, run_in_txn) refl,
          record { open_txn = (fn w).1.1; has_txn = refl; runs = (keeps w h.runs).runs },
        )

    -- Whatever the trees do: an INSERT, UPDATE, DELETE or SELECT outside a transaction, while the
    -- lock is free, gets an answer; then no transaction is open and the lock is free again. The
    -- log has got the records of one transaction, with the next number modulo 2 ^ 64: Begin, then
    -- only Puts and Deletes of it. If the answer is no error, Commit follows, or the checkpoint
    -- has emptied the log; if it is an error, no Commit follows: the log ends there, or with
    -- Rollback. An index on a column that its table lacks, on which Go panics, counts as an error
    -- here.
    pub execute_stmt-IsEnded :
        (se : Session D) (stmt : Statement)
        → IsData stmt
        → IsIdle se
        → (o : Outcome D) × (execute_stmt D S F se stmt ≡ some o)
          × IsIdle o.1
          × IsEnded se.store.log ((se.store.next_txn_id + 1) % 2 ^ 64) o.0 o.1.store.log
    execute_stmt-IsEnded se stmt d h =
        let (fn, e, keeps) = data_effect stmt d in
        let (o, r, i, l) = run_in_txn-IsIdle se fn keeps h in (o, e se ∙ r, i, l)
