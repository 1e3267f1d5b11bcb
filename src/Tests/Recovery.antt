-- ===== src/Tests/Recovery.antt =====
-- internal/txn and internal/wal on a small database: a crash, a rollback, a torn record.
use eleone_sql.Common.{
  sym, ◌<◌, ◌^◌, ℕ, ◌≡◌, refl, arith, List, [], ◌∷◌, ◌++◌, some, none, ok, All, true, false, inl,
}
use mathlib.Core.Path.{subst}
use eleone_sql.Bytes.{Bytes, bytes_eq, put_be}
use eleone_sql.Wal.{
  LogRecord, record_body, write_record, read_record, encode_op, write_chunk, type_byte,
  type_of_byte, Op,
}
use eleone_sql.Wal
use eleone_sql.Wal.Operation.{decode_op-encode_op}
use eleone_sql.Wal.Frame.{FitsRecord, read_record-write_record, read_record_torn}
use eleone_sql.Wal.Replay.Fuel.{replay_loop_fuel}
use eleone_sql.Wal.Replay.{replay_loop, replay}
use eleone_sql.Wal.Replay.Events.{
  Event, log_record, log_bytes, FitsEvent, recover, replay-log_bytes,
}
use eleone_sql.Wal.Replay.Events
use eleone_sql.Wal.Replay.{pending_add, pending_ops, pending_delete, redo_all, apply_redo}
use eleone_sql.Wal.Replay.Events.{recover_event, recover_events}
use eleone_sql.Txn.{
  Store, Txn, begin_txn, before_image, tree_get, txn_get, put_after, txn_put, commit_txn,
  save_moved, apply_op, state_or_error,
}
use eleone_sql.Txn.Interface.{Trees}
use eleone_sql.Txn.Calls.{Call, put, run_calls, IsWhole}
use eleone_sql.Txn.Recovery.{rolled, replay-rollback_txn}
use eleone_sql.Tests.SmallTrees.{Cells, small_trees, with_cell}

-- One table, the target "t", with no rows.
abbrev row_trees : Trees
row_trees = small_trees (λ t. bytes_eq t (116 ∷ []))

abbrev no_rows : Cells
no_rows t k = none

abbrev new_store : Store row_trees
new_store = record {
  trees = no_rows;
  log = [];
  next_txn_id = 0;
  writes_since_checkpoint = 0;
  locked = false;
}

abbrev first_txn : Txn
first_txn = record { id = 1; undo = []; done = false }

abbrev first_store : Store row_trees
first_store = record new_store { locked = true; next_txn_id = 1; log = Events.begin 1 ∷ [] }

begins : begin_txn row_trees new_store ≡ some (first_store, first_txn)
unfolding begin_txn
begins = refl

abbrev no_crc : Bytes → ℕ
no_crc b = 0

torn_end : read_record no_crc (9 ∷ []) ≡ none
unfolding read_record
torn_end = refl

-- A transaction commits a row; the next one overwrites it and is open when the process dies.
abbrev one_put : List Call
one_put = put (116 ∷ []) (1 ∷ []) (7 ∷ []) ∷ []

abbrev kept_store : Store row_trees
kept_store =
    let r = run_calls row_trees one_put first_store first_txn in (commit_txn row_trees r.0 r.1).1

abbrev second_txn : Txn
second_txn = record { id = 2; undo = []; done = false }

abbrev second_store : Store row_trees
second_store = record kept_store {
  locked = true;
  next_txn_id = 2;
  log = kept_store.log ++ Events.begin 2 ∷ [];
}

begins_again : begin_txn row_trees kept_store ≡ some (second_store, second_txn)
unfolding begin_txn commit_txn run_calls txn_put put_after before_image tree_get txn_get save_moved
    bytes_eq
begins_again = refl

-- What the first transaction wrote, on trees that have lost it.
abbrev one_row : Cells
one_row = with_cell (116 ∷ []) (1 ∷ []) (some (7 ∷ [])) no_rows

settled : recover_events (apply_op row_trees) kept_store.log [] no_rows ≡ ok ([], one_row)
unfolding recover_events recover_event pending_add pending_ops pending_delete redo_all apply_redo
    apply_op state_or_error commit_txn run_calls txn_put put_after before_image tree_get txn_get
    save_moved bytes_eq
settled = refl

whole : IsWhole row_trees one_put second_store second_txn
unfolding IsWhole commit_txn run_calls txn_put put_after before_image tree_get txn_get save_moved
    bytes_eq
whole = (inl refl, tt)

begin_fits : (id : ℕ) → id < 2 ^ 64 → FitsEvent (Events.begin id)
unfolding log_record
begin_fits id h = record {
  record_fits = record { type_written = tt; txn_fits = h; payload_fits = omega arith };
  op_fits = tt;
}

commit_fits : FitsEvent (Events.commit 1)
unfolding log_record
commit_fits = record {
  record_fits = record { type_written = tt; txn_fits = omega arith; payload_fits = omega arith };
  op_fits = tt;
}

abbrev first_put : Event
first_put = Events.put 1 (116 ∷ []) (1 ∷ []) (7 ∷ []) false []

abbrev second_put : Event
second_put = Events.put 2 (116 ∷ []) (1 ∷ []) (7 ∷ []) true (7 ∷ [])

first_put_fits : FitsEvent first_put
unfolding log_record encode_op write_chunk put_be
first_put_fits = record {
  record_fits = record { type_written = tt; txn_fits = omega arith; payload_fits = omega arith };
  op_fits = record {
    table_fits = omega arith;
    key_fits = omega arith;
    val_fits = omega arith;
    prev_fits = omega arith;
  };
}

second_put_fits : FitsEvent second_put
unfolding log_record encode_op write_chunk put_be
second_put_fits = record {
  record_fits = record { type_written = tt; txn_fits = omega arith; payload_fits = omega arith };
  op_fits = record {
    table_fits = omega arith;
    key_fits = omega arith;
    val_fits = omega arith;
    prev_fits = omega arith;
  };
}

abbrev whole_log : List Event
whole_log = Events.begin 1 ∷ first_put ∷ Events.commit 1 ∷ Events.begin 2 ∷ second_put ∷ []

whole_log_fits : All FitsEvent whole_log
whole_log_fits = (
  begin_fits 1 (omega arith),
  (first_put_fits, (commit_fits, (begin_fits 2 (omega arith), (second_put_fits, tt)))),
)

logs : (run_calls row_trees one_put second_store second_txn).0.log ≡ whole_log
unfolding commit_txn run_calls txn_put put_after before_image tree_get txn_get save_moved bytes_eq
logs = refl

log_fits : All FitsEvent (run_calls row_trees one_put second_store second_txn).0.log
log_fits = subst (λ es. All FitsEvent es) (sym logs) whole_log_fits

replay-rollback_txn_example :
    let r = run_calls row_trees one_put second_store second_txn in
    replay (apply_op row_trees) no_crc (λ p. p) (log_bytes no_crc r.0.log ++ 9 ∷ []) no_rows
    ≡ rolled row_trees (record r.0 { trees = one_row }) r.1
replay-rollback_txn_example =
    replay-rollback_txn row_trees (λ p. p) refl (λ x. refl) no_crc (λ b. omega arith) kept_store
      second_store second_txn one_put (9 ∷ []) no_rows one_row settled begins_again whole torn_end
      log_fits

-- The row that was committed is there after the crash.
replay-log_bytes_example :
    replay (apply_op row_trees) no_crc (λ p. p) (log_bytes no_crc whole_log ++ 9 ∷ []) no_rows
    ≡ recover (apply_op row_trees) (λ p. p) whole_log no_rows
replay-log_bytes_example =
    replay-log_bytes (apply_op row_trees) no_crc (λ b. omega arith) (λ p. p) whole_log (9 ∷ [])
      no_rows whole_log_fits torn_end

abbrev a_record : LogRecord
a_record = record { type = Wal.put; txn = 300; payload = 5 ∷ 6 ∷ [] }

a_record_fits : FitsRecord a_record
a_record_fits = record { type_written = tt; txn_fits = omega arith; payload_fits = omega arith }

read_record-write_record_example :
    read_record no_crc (write_record no_crc a_record ++ 1 ∷ 2 ∷ []) ≡ some (a_record, 1 ∷ 2 ∷ [])
read_record-write_record_example =
    read_record-write_record no_crc (λ b. omega arith) a_record (1 ∷ 2 ∷ []) a_record_fits

abbrev all_but_one : Bytes
all_but_one = 0 ∷ 0 ∷ 0 ∷ 11 ∷ 2 ∷ 0 ∷ 0 ∷ 0 ∷ 0 ∷ 0 ∷ 0 ∷ 1 ∷ 44 ∷ 5 ∷ 6 ∷ 0 ∷ 0 ∷ 0 ∷ []

written : write_record no_crc a_record ≡ all_but_one ++ 0 ∷ []
unfolding write_record record_body put_be type_byte
written = refl

read_record_torn_example : read_record no_crc all_but_one ≡ none
read_record_torn_example = read_record_torn no_crc a_record all_but_one 0 [] a_record_fits written

decode_op-encode_op_example :
    Wal.decode_op Wal.put (encode_op (116 ∷ []) (1 ∷ []) (7 ∷ 8 ∷ []) true (9 ∷ []))
    ≡ ok (record {
      type = Wal.put;
      table = 116 ∷ [];
      key = 1 ∷ [];
      val = 7 ∷ 8 ∷ [];
      had_prev = true;
      prev_val = 9 ∷ [];
    })
decode_op-encode_op_example =
    decode_op-encode_op Wal.put (116 ∷ []) (1 ∷ []) (7 ∷ 8 ∷ []) (9 ∷ []) true (record {
      table_fits = omega arith;
      key_fits = omega arith;
      val_fits = omega arith;
      prev_fits = omega arith;
    })

replay_loop_fuel_example :
    replay_loop (apply_op row_trees) no_crc (λ p. p) 40 (9 ∷ []) [] no_rows
    ≡ replay_loop (apply_op row_trees) no_crc (λ p. p) 1 (9 ∷ []) [] no_rows
replay_loop_fuel_example =
    replay_loop_fuel (apply_op row_trees) no_crc (λ p. p) 40 1 (9 ∷ []) [] no_rows (omega arith)
      (omega arith)
