-- ===== src/Txn/Finished.antt =====
-- internal/wal/wal.go: Replay of a log of transactions that ran one after the other, as the global lock
-- makes them, whatever the callback does.
use eleone_sql.Common.{ℕ, List, [], ◌∷◌, ◌++◌, Bool}
use eleone_sql.Bytes.{Bytes}
use eleone_sql.Wal.{Op}
use eleone_sql.Wal.Replay.{Pending}
use eleone_sql.Wal.Replay.Events.{Event, begin, put, delete, commit, rollback, put_op, delete_op}

-- The records of the writes of a transaction, and the operations in them.
pub data IsWrites (id : ℕ) : List Event → List Op → Type 0 where
  nothing : IsWrites id [] []
  put_first :
      {t k x p : Bytes} {b : Bool} {es : List Event} {ops : List Op}
      → IsWrites id es ops
      → IsWrites id (put id t k x b p ∷ es) (put_op t k x b p ∷ ops)
  delete_first :
      {t k p : Bytes} {es : List Event} {ops : List Op}
      → IsWrites id es ops
      → IsWrites id (delete id t k p ∷ es) (delete_op t k p ∷ ops)

-- A log of finished transactions, with the operations of those that are committed.
pub data IsFinished : List Event → List Op → Type 0 where
  empty : IsFinished [] []
  committed :
      {id : ℕ} {log es : List Event} {done ops : List Op}
      → IsFinished log done
      → IsWrites id es ops
      → IsFinished ((log ++ begin id ∷ es) ++ commit id ∷ []) (done ++ ops)
  rolled_back :
      {id : ℕ} {log es : List Event} {done ops : List Op}
      → IsFinished log done
      → IsWrites id es ops
      → IsFinished ((log ++ begin id ∷ es) ++ rollback id ∷ []) done

-- What is pending of one transaction.
abbrev pending_of : ℕ → List Op → Pending
pending_of id [] = []
pending_of id (o ∷ ops) = (id, o ∷ ops) ∷ []
