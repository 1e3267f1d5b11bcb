-- ===== src/Txn/Calls.antt =====
-- A run of Put and Delete calls inside one transaction.
use eleone_sql.Common.{◌≡◌, ◌⊎◌, ◌++◌, arith, true, false, List, [], ◌∷◌, some, ok}
use eleone_sql.Bytes.{Bytes}
use eleone_sql.Txn.{Store, Txn, Outcome, begin_txn, txn_put, txn_delete}
use eleone_sql.Wal.Replay.Events.{begin}
use eleone_sql.Txn.Interface.{Trees}

pub data Call : Type 0 where
  put : Bytes → Bytes → Bytes → Call
  delete : Bytes → Bytes → Call

module _ (T : Trees) where
  abbrev pub call : Call → Store T → Txn → Outcome T (Unit {0})
  call (put target key val) st t = txn_put T target key val st t
  call (delete target key) st t = txn_delete T target key st t

  unfoldable pub run_calls : List Call → Store T → Txn → Store T × Txn
  run_calls [] st t = (st, t)
  run_calls (c ∷ cs) st t = let o = call c st t in run_calls cs o.1 o.2

  -- No call fails half-way, with its record in the log: each succeeds, or changes nothing.
  unfoldable pub IsWhole : List Call → Store T → Txn → Type 0
  IsWhole [] st t = Unit
  IsWhole (c ∷ cs) st t =
      let o = call c st t in
      ((o.0 ≡ ok tt) ⊎ ◌≡◌ {A = Store T × Txn} (o.1, o.2) (st, t)) × IsWhole cs o.1 o.2

-- What Begin gives when the lock is free.
pub record Begun (T : Trees) (st st' : Store T) (t : Txn) : Type 0 where
  pub same_trees : st'.trees ≡ st.trees
  pub locked : st'.locked ≡ true
  pub open_txn : t.done ≡ false
  pub no_undo : t.undo ≡ []
  pub logged : st'.log ≡ st.log ++ begin t.id ∷ []

pub begin_facts :
    (T : Trees) (st st' : Store T) (t : Txn) → begin_txn T st ≡ some (st', t) → Begun T st st' t
unfolding begin_txn
begin_facts T st st' t h = ground arith
