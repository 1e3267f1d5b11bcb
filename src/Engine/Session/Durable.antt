-- ===== src/Engine/Session/Durable.antt =====
-- internal/engine/engine.go: what Replay would make of the log that a statement leaves.
use eleone_sql.Common.{ℕ, List, [], ◌∷◌, ◌++◌, Result, ok, err}
use eleone_sql.Wal.{Op}
use eleone_sql.Wal.Replay.Events
use eleone_sql.Wal.Replay.Events.{Event}
use eleone_sql.Txn.Finished
use eleone_sql.Txn.Finished.{IsWrites, IsFinished}
use eleone_sql.Engine.Session.{SessionError, Session}

-- The log after a statement, where `done` are the operations of the committed transactions before it:
-- a success adds its own, or a checkpoint has emptied the log; a failure adds none, and its
-- transaction is rolled back or still open in the log.
pub data IsDurable (done : List Op) {A : Type 0} : Result SessionError A → List Event → Type 0 where
  redone :
      {a : A} {log : List Event} (ops : List Op)
      → IsFinished log (done ++ ops)
      → IsDurable done (ok a) log
  checkpointed : {a : A} → IsDurable done (ok a) []
  dropped : {e : SessionError} {log : List Event} → IsFinished log done → IsDurable done (err e) log
  left_open :
      {e : SessionError} {id : ℕ} {log es : List Event} {ops : List Op}
      → IsFinished log done
      → IsWrites id es ops
      → IsDurable done (err e) (log ++ Events.begin id ∷ es)
