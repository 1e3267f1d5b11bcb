-- ===== src/Wal/Replay.antt =====
-- `Replay`: the scan of the log, and what it applies. A state `S` with the callback `apply` stands
-- for the database; the callback may fail.
pub mod Events
pub mod Fuel
use eleone_sql.Common.{
  ℕ, zero, suc, ◌+◌, Bool, true, false, List, [], ◌∷◌, ◌++◌, ◌==◌, if◌then◌else◌, length, Option,
  none, some, Result, ok, err, ◌>>=◌,
}
use mathlib.Core.List.{reverse}
use eleone_sql.Bytes.{Bytes}
use eleone_sql.Wal.{
  RecordType, begin, put, delete, commit, rollback, other, Op, decode_op, DecodeError, LogRecord,
  read_record,
}

-- `pending`: the operations of each open transaction. Ids are unique in it.
abbrev pub Pending : Type 0
Pending = List (ℕ × List Op)

-- `pending[txnID]`, empty where the key is missing.
unfoldable pub pending_ops : ℕ → Pending → List Op
pending_ops id [] = []
pending_ops id ((j, ops) ∷ p) = if j == id then ops else pending_ops id p

-- `pending[txnID] = append(pending[txnID], op)`.
unfoldable pub pending_add : ℕ → Op → Pending → Pending
pending_add id op [] = (id, op ∷ []) ∷ []
pending_add id op ((j, ops) ∷ p) =
    if j == id then (j, ops ++ op ∷ []) ∷ p else (j, ops) ∷ pending_add id op p

-- `delete(pending, txnID)`.
unfoldable pub pending_delete : ℕ → Pending → Pending
pending_delete id [] = []
pending_delete id ((j, ops) ∷ p) =
    let rest = pending_delete id p in if j == id then rest else (j, ops) ∷ rest

abbrev bare_op : RecordType → Op → Bytes → Op
bare_op typ op val = record {
  type = typ;
  table = op.table;
  key = op.key;
  val = val;
  had_prev = false;
  prev_val = [];
}

module _ {E S : Type 0} (apply : Op → S → Result E S) where
  unfoldable pub apply_redo : Op → S → Result E S
  apply_redo op s = elim op.type [
    | put ↦ apply (bare_op put op op.val) s
    | delete ↦ apply (bare_op delete op []) s
    | _ ↦ ok s
  ]

  unfoldable pub apply_undo : Op → S → Result E S
  apply_undo op s =
      if op.had_prev then apply (bare_op put op op.prev_val) s else apply (bare_op delete op []) s

  -- The loop of the commit case.
  unfoldable pub redo_all : List Op → S → Result E S
  redo_all [] s = ok s
  redo_all (op ∷ ops) s = do s' ← apply_redo op s; redo_all ops s'

  -- The loop that goes through one abandoned transaction from its last operation on.
  unfoldable pub undo_list : List Op → S → Result E S
  undo_list [] s = ok s
  undo_list (op ∷ ops) s = do s' ← apply_undo op s; undo_list ops s'

  unfoldable pub undo_all : List (ℕ × List Op) → S → Result E S
  undo_all [] s = ok s
  undo_all ((id, ops) ∷ p) s = do s' ← undo_list (reverse ops) s; undo_all p s'

  -- The switch of `Replay` on one record. Where an operation does not decode, `break` leaves the
  -- switch alone, and the scan goes on with the next record.
  unfoldable pub replay_record : LogRecord → Pending → S → Result E (Pending × S)
  replay_record r p s = elim r.type [
    | begin ↦ ok (p, s)
    | put ↦ elim (decode_op put r.payload) [
      | ok op ↦ ok (pending_add r.txn op p, s)
      | err e ↦ ok (p, s)
    ]
    | delete ↦ elim (decode_op delete r.payload) [
      | ok op ↦ ok (pending_add r.txn op p, s)
      | err e ↦ ok (p, s)
    ]
    | rollback ↦ ok (pending_delete r.txn p, s)
    | commit ↦ (do s' ← redo_all (pending_ops r.txn p) s; ok (pending_delete r.txn p, s'))
    | other n ↦ ok (p, s)
  ]

  -- `crc` is `crc32.ChecksumIEEE`, and `range` the order in which Go's `range` goes through a map.
  module _ (crc : Bytes → ℕ) (range : Pending → Pending) where
    -- The scan, on fuel: the length of the file.
    unfoldable pub replay_loop : ℕ → Bytes → Pending → S → Result E (Pending × S)
    replay_loop zero r p s = ok (p, s)
    replay_loop (suc fuel) r p s = elim (read_record crc r) [
      | none ↦ ok (p, s)
      | some (rec, rest) ↦ (do (p', s') ← replay_record rec p s; replay_loop fuel rest p' s')
    ]

    unfoldable pub replay : Bytes → S → Result E S
    unfolding replay_loop
    replay file s = do (p, s') ← replay_loop (length file) file [] s; undo_all (range p) s'
