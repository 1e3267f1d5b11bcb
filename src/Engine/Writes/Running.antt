-- ===== src/Engine/Writes/Running.antt =====
-- internal/engine/delete.go, insert.go and update.go: a statement that writes, whether it succeeds or
-- not, leaves its transaction open with the lock held, and adds only writes of it to the log.
use eleone_sql.Common.{
  ℕ, suc, Bool, true, false, not, ◌&&◌, List, [], ◌∷◌, map, Option, Ordering, Result, ok, err,
  Bool-cases, Result-cases, inl, inr,
}
use eleone_sql.Bytes.{Bytes}
use eleone_sql.Catalog.Value.{Value, compare_values}
use eleone_sql.Catalog.Row.{encode_row}
use eleone_sql.Catalog.TableDef.{IndexDef, TableDef}
use eleone_sql.Wal.Replay.Events.{Event}
use eleone_sql.Txn.Working.{IsWorking, txn_put-IsWorking, txn_delete-IsWorking}
use eleone_sql.Txn.Targets.{table_target}
use eleone_sql.Sql.Schema.{Assignment}
use eleone_sql.Sql.{codes}
use eleone_sql.Engine.{FloatOps, EngineError}
use eleone_sql.Engine.Expr.{Expr}
use eleone_sql.Engine.Rows.{target_columns, positions, updated_values}
use eleone_sql.Engine.Scan.{KeyedRow, load_rows}
use eleone_sql.Engine.Select.{SelectStmt, one_binding, exec_select}
use eleone_sql.Engine.Writes.{
  Database, written, Effect, Work, return, of_result, continue, ◌>>=◌, put_cell, delete_cell,
  save_row_number, read, store_reader, table_named, check_unique, check_if_unique, value_at,
  delete_entries, insert_entries, move_entry,
}
use eleone_sql.Engine.Writes.Statements.{
  row_matches, update_entries, delete_rows, exec_delete, insert_rows, exec_insert, update_rows,
  exec_update, exec_query,
}

module _ (D : Database) (id : ℕ) (before : List Event) where
  -- The work of an open transaction: the log is `before` and its writes.
  abbrev pub Runs : Work D → Type 0
  Runs s = IsWorking D.trees id before s.0 s.1

  -- What an effect leaves is the work of an open transaction again.
  pub record Left {A : Type 0} (o : Result EngineError A × Work D) : Type 0 where
    pub runs : Runs o.1

  abbrev pub Keeps : {A : Type 0} → Effect (Work D) A → Type 0
  Keeps p = (s : Work D) → Runs s → Left (p s)

  continue-Left :
      {A B : Type 0} (o : Result EngineError A × Work D) (f : A → Effect (Work D) B)
      → Left o
      → ((a : A) → Keeps (f a))
      → Left (continue o f)
  continue-Left (err e, s) f h k = record { runs = h.runs }
  continue-Left (ok a, s) f h k = k a s h.runs

  bind-Keeps :
      {A B : Type 0} {p : Effect (Work D) A} {f : A → Effect (Work D) B}
      → Keeps p
      → ((a : A) → Keeps (f a))
      → Keeps (p >>= f)
  bind-Keeps {p = p} {f = f} hp hf s h = continue-Left (p s) f (hp s h) hf

  return-Keeps : {A : Type 0} (a : A) → Keeps (return a)
  return-Keeps a s h = record { runs = h }

  result-Keeps : {A : Type 0} (r : Result EngineError A) → Keeps (of_result r)
  result-Keeps r s h = record { runs = h }

  read-Keeps : {A : Type 0} (f : D.trees.State → Result EngineError A) → Keeps (read D f)
  read-Keeps f (st, t) h = record { runs = h }

  put_cell-Keeps : (target key val : Bytes) → Keeps (put_cell D target key val)
  unfolding put_cell
  put_cell-Keeps target key val (st, t) h = record {
    runs = txn_put-IsWorking id before st t h target key val;
  }

  delete_cell-Keeps : (target key : Bytes) → Keeps (delete_cell D target key)
  unfolding delete_cell
  delete_cell-Keeps target key (st, t) h = record {
    runs = txn_delete-IsWorking id before st t h target key;
  }

  save_row_number-Keeps : (table : Bytes) (n : ℕ) → Keeps (save_row_number D table n)
  unfolding save_row_number
  save_row_number-Keeps table n (st, t) h = record {
    runs = record {
      same_id = h.same_id;
      still_open = h.still_open;
      locked = h.locked;
      writes = h.writes;
      are_writes = h.are_writes;
      logged = h.logged;
    };
  }

  check_if_unique-Keeps :
      (td : TableDef) (ix : IndexDef) (v : Value) → Keeps (check_if_unique D td ix v)
  unfolding check_if_unique
  check_if_unique-Keeps td ix v = elim (Bool-cases (ix.unique && not v.null)) [
    | inl h ↦ rw (h, check_if_unique) (read-Keeps (check_unique D td ix v))
    | inr h ↦ rw (h, check_if_unique) (return-Keeps tt)
  ]

  delete_entries-Keeps :
      (td : TableDef) (key : Bytes) (row : List Value) (ixs : List IndexDef)
      → Keeps (delete_entries D td key row ixs)
  unfolding delete_entries
  delete_entries-Keeps td key row [] = return-Keeps tt
  delete_entries-Keeps td key row (ix ∷ ixs) =
      bind-Keeps (result-Keeps _)
        λ v. bind-Keeps (delete_cell-Keeps _ _) λ u. delete_entries-Keeps td key row ixs

  insert_entries-Keeps :
      (td : TableDef) (key : Bytes) (row : List Value) (ixs : List IndexDef)
      → Keeps (insert_entries D td key row ixs)
  unfolding insert_entries
  insert_entries-Keeps td key row [] = return-Keeps tt
  insert_entries-Keeps td key row (ix ∷ ixs) = bind-Keeps (result-Keeps _) λ v.
      bind-Keeps (check_if_unique-Keeps td ix v)
        λ u. bind-Keeps (put_cell-Keeps _ _ _) λ u'. insert_entries-Keeps td key row ixs

  move_entry-Keeps :
      (td : TableDef) (ix : IndexDef) (key : Bytes) (old_v new_v : Value)
      → Keeps (move_entry D td ix key old_v new_v)
  unfolding move_entry
  move_entry-Keeps td ix key old_v new_v =
      bind-Keeps (check_if_unique-Keeps td ix new_v)
        λ u. bind-Keeps (delete_cell-Keeps _ _) λ u'. put_cell-Keeps _ _ _

  module _ (F : FloatOps) where
    -- An entry moves if the value has changed.
    changed-Keeps :
        (o : Ordering) (p : Effect (Work D) (Unit {0}))
        → Keeps p
        → Keeps (elim o as (λ _. Effect (Work D) (Unit {0})) [ Ordering.eq ↦ return tt | _ ↦ p ])
    changed-Keeps Ordering.lt p h = h
    changed-Keeps Ordering.eq p h = return-Keeps tt
    changed-Keeps Ordering.gt p h = h

    update_entries-Keeps :
        (td : TableDef) (key : Bytes) (old new : List Value) (ixs : List IndexDef)
        → Keeps (update_entries D F td key old new ixs)
    unfolding update_entries
    update_entries-Keeps td key old new [] = return-Keeps tt
    update_entries-Keeps td key old new (ix ∷ ixs) =
        bind-Keeps (result-Keeps (value_at td ix.column old)) λ old_v.
          bind-Keeps (result-Keeps (value_at td ix.column new)) λ new_v.
            bind-Keeps
              (changed-Keeps (compare_values F.of_int old_v new_v) _
                (move_entry-Keeps td ix key old_v new_v))
              λ u. update_entries-Keeps td key old new ixs

    -- A row is written if it matches.
    matching-Keeps :
        {A : Type 0} (b : Bool) (skip p : Effect (Work D) A)
        → Keeps skip
        → Keeps p
        → Keeps (elim b as (λ _. Effect (Work D) A) [ false ↦ skip | true ↦ p ])
    matching-Keeps true skip p hs hp = hp
    matching-Keeps false skip p hs hp = hs

    delete_rows-Keeps :
        (td : TableDef) (table : Bytes) (cond : Option Expr) (rows : List KeyedRow)
        → Keeps (delete_rows D F td table cond rows)
    unfolding delete_rows
    delete_rows-Keeps td table cond [] = return-Keeps 0
    delete_rows-Keeps td table cond ((key, row) ∷ rows) = bind-Keeps (result-Keeps _) λ b.
        matching-Keeps b _ _ (delete_rows-Keeps td table cond rows) (
          bind-Keeps (delete_entries-Keeps td key row td.indexes) λ u.
            bind-Keeps (delete_cell-Keeps _ _)
              λ u'. bind-Keeps (delete_rows-Keeps td table cond rows) λ n. return-Keeps _)

    pub exec_delete-Keeps :
        (table : Bytes) (cond : Option Expr) → Keeps (exec_delete D F table cond)
    unfolding exec_delete
    exec_delete-Keeps table cond = bind-Keeps (read-Keeps (table_named D table)) λ td.
        bind-Keeps (read-Keeps (λ s. load_rows F (store_reader D s) td cond table)) λ rows.
          bind-Keeps (delete_rows-Keeps td table cond rows)
            λ n. return-Keeps (written (codes "DELETE") n)

    insert_rows-Keeps :
        (td : TableDef) (ps : List ℕ) (rows : List (List Expr)) (next : ℕ)
        → Keeps (insert_rows D F td ps next rows)
    unfolding insert_rows
    insert_rows-Keeps td ps [] next = return-Keeps 0
    insert_rows-Keeps td ps (es ∷ rows) next = bind-Keeps (result-Keeps _) λ values.
        bind-Keeps (save_row_number-Keeps _ _) λ u.
          bind-Keeps (insert_entries-Keeps td _ values td.indexes) λ u'.
            bind-Keeps (put_cell-Keeps _ _ _)
              λ u''. bind-Keeps (insert_rows-Keeps td ps rows _) λ n. return-Keeps _

    pub exec_insert-Keeps :
        (table : Bytes) (columns : List Bytes) (rows : List (List Expr))
        → Keeps (exec_insert D F table columns rows)
    unfolding exec_insert
    exec_insert-Keeps table columns rows = bind-Keeps (read-Keeps (table_named D table)) λ td.
        bind-Keeps (result-Keeps (positions td (target_columns td columns))) λ ps.
          bind-Keeps (insert_rows-Keeps td ps rows td.next_row)
            λ n. return-Keeps (written (codes "INSERT") n)

    update_rows-Keeps :
        (td : TableDef) (table : Bytes) (cond : Option Expr) (ps : List ℕ) (es : List Expr)
        (rows : List KeyedRow)
        → Keeps (update_rows D F td table cond ps es rows)
    unfolding update_rows
    update_rows-Keeps td table cond ps es [] = return-Keeps 0
    update_rows-Keeps td table cond ps es ((key, row) ∷ rows) =
        bind-Keeps (result-Keeps (row_matches D F cond (one_binding table td row ∷ []))) λ b.
          matching-Keeps b _ _ (update_rows-Keeps td table cond ps es rows) (
            bind-Keeps
              (result-Keeps (updated_values F td (one_binding table td row ∷ []) ps es row))
              λ values. bind-Keeps (update_entries-Keeps td key row values td.indexes) λ u.
                bind-Keeps (put_cell-Keeps (table_target td.name) key (encode_row values)) λ u'.
                  bind-Keeps (update_rows-Keeps td table cond ps es rows) λ n. return-Keeps (suc n))

    pub exec_update-Keeps :
        (table : Bytes) (assigns : List Assignment) (cond : Option Expr)
        → Keeps (exec_update D F table assigns cond)
    unfolding exec_update
    exec_update-Keeps table assigns cond = bind-Keeps (read-Keeps (table_named D table)) λ td.
        bind-Keeps (read-Keeps (λ s. load_rows F (store_reader D s) td cond table)) λ rows.
          bind-Keeps (result-Keeps (positions td (map (λ a. a.column) assigns))) λ ps.
            bind-Keeps (update_rows-Keeps td table cond ps (map (λ a. a.value) assigns) rows)
              λ n. return-Keeps (written (codes "UPDATE") n)

    pub exec_query-Keeps : (sel : SelectStmt) → Keeps (exec_query D F sel)
    unfolding exec_query
    exec_query-Keeps sel (st, t) h =
        elim (Result-cases
          (exec_select F (store_reader D st.trees) (λ table. D.tables table st.trees) sel)) [
            | inl (r, e) ↦ rw (e, exec_query) (record { runs = h })
            | inr (x, e) ↦ rw (e, exec_query) (record { runs = h })
          ]
