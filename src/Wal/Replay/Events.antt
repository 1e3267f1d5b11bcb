-- ===== src/Wal/Replay/Events.antt =====
-- The methods Begin, Put, Delete, Rollback and Commit of internal/wal/wal.go as events, and Replay on
-- a log that they wrote, as a run over the events.
use eleone_sql.Common.{
  ℕ, zero, suc, ◌^◌, ◌<◌, ◌≤◌, ◌≡◌, refl, ap, arith, Bool, true, List, [], ◌∷◌, ◌++◌, append_assoc,
  length, length-append, none, Result, ok, err, ◌>>=◌, All,
}
use mathlib.Core.Path.{fun_ext}
use eleone_sql.Bytes.{Bytes}
use eleone_sql.Wal.{RecordType, Op, encode_op, LogRecord, write_record, read_record}
use eleone_sql.Wal.Operation.{FitsOp, decode_op-encode_op}
use eleone_sql.Wal.Frame.{FitsRecord, read_record-write_record, length-write_record}
use eleone_sql.Wal.Replay.{
  Pending, pending_ops, pending_add, pending_delete, redo_all, undo_all, replay_record, replay_loop,
  replay,
}

-- One call of a method of the log: the transaction, and what the record carries.
pub data Event : Type 0 where
  begin : ℕ → Event
  put : ℕ → Bytes → Bytes → Bytes → Bool → Bytes → Event
  delete : ℕ → Bytes → Bytes → Bytes → Event
  commit : ℕ → Event
  rollback : ℕ → Event

unfoldable pub log_record : Event → LogRecord
log_record (begin id) = record { type = RecordType.begin; txn = id; payload = [] }
log_record (put id table key new_val had_prev prev_val) = record {
  type = RecordType.put;
  txn = id;
  payload = encode_op table key new_val had_prev prev_val;
}
log_record (delete id table key prev_val) = record {
  type = RecordType.delete;
  txn = id;
  payload = encode_op table key [] true prev_val;
}
log_record (commit id) = record { type = RecordType.commit; txn = id; payload = [] }
log_record (rollback id) = record { type = RecordType.rollback; txn = id; payload = [] }

-- The file after the calls.
unfoldable pub log_bytes : (Bytes → ℕ) → List Event → Bytes
log_bytes crc [] = []
log_bytes crc (e ∷ es) = write_record crc (log_record e) ++ log_bytes crc es

abbrev pub put_op : Bytes → Bytes → Bytes → Bool → Bytes → Op
put_op table key new_val had_prev prev_val = record {
  type = RecordType.put;
  table = table;
  key = key;
  val = new_val;
  had_prev = had_prev;
  prev_val = prev_val;
}

abbrev pub delete_op : Bytes → Bytes → Bytes → Op
delete_op table key prev_val = record {
  type = RecordType.delete;
  table = table;
  key = key;
  val = [];
  had_prev = true;
  prev_val = prev_val;
}

abbrev FitsOpOf : Event → Type 0
FitsOpOf (put id table key new_val had_prev prev_val) = FitsOp table key new_val prev_val
FitsOpOf (delete id table key prev_val) = FitsOp table key [] prev_val
FitsOpOf _ = Unit {0}

-- The lengths and the transaction fit their fields.
pub record FitsEvent (e : Event) : Type 0 where
  pub record_fits : FitsRecord (log_record e)
  pub op_fits : FitsOpOf e

module _ {E S : Type 0} (apply : Op → S → Result E S) where
  -- Recovery over events: what the switch of `Replay` does with each.
  unfoldable pub recover_event : Event → Pending → S → Result E (Pending × S)
  recover_event (begin id) p s = ok (p, s)
  recover_event (put id table key new_val had_prev prev_val) p s =
      ok (pending_add id (put_op table key new_val had_prev prev_val) p, s)
  recover_event (delete id table key prev_val) p s =
      ok (pending_add id (delete_op table key prev_val) p, s)
  recover_event (commit id) p s = do
    s' ← redo_all apply (pending_ops id p) s
    ok (pending_delete id p, s')
  recover_event (rollback id) p s = ok (pending_delete id p, s)

  unfoldable pub recover_events : List Event → Pending → S → Result E (Pending × S)
  recover_events [] p s = ok (p, s)
  recover_events (e ∷ es) p s = do (p', s') ← recover_event e p s; recover_events es p' s'

  -- The whole recovery: the scan, then the abandoned transactions.
  unfoldable pub recover : (Pending → Pending) → List Event → S → Result E S
  unfolding recover_events
  recover range es s = do (p, s') ← recover_events es [] s; undo_all apply (range p) s'

  replay_record-log_record :
      (e : Event) (p : Pending) (s : S)
      → FitsEvent e
      → replay_record apply (log_record e) p s ≡ recover_event e p s
  unfolding replay_record log_record recover_event
  replay_record-log_record (begin id) p s h = refl
  replay_record-log_record (put id t k v b w) p s h =
      ap (λ (d : Result _ Op). elim d [ ok op ↦ ok (pending_add id op p, s) | err x ↦ ok (p, s) ])
        (decode_op-encode_op RecordType.put t k v w b h.op_fits)
  replay_record-log_record (delete id t k w) p s h =
      ap (λ (d : Result _ Op). elim d [ ok op ↦ ok (pending_add id op p, s) | err x ↦ ok (p, s) ])
        (decode_op-encode_op RecordType.delete t k [] w true h.op_fits)
  replay_record-log_record (commit id) p s h = refl
  replay_record-log_record (rollback id) p s h = refl

  module _ (crc : Bytes → ℕ) (crc-lt : (b : Bytes) → crc b < 2 ^ 32) where
    replay_loop-log_bytes :
        (range : Pending → Pending) (es : List Event) (torn : Bytes) (fuel : ℕ) (p : Pending)
        (s : S)
        → All FitsEvent es
        → read_record crc torn ≡ none
        → length es ≤ fuel
        → replay_loop apply crc range fuel (log_bytes crc es ++ torn) p s ≡ recover_events es p s
    unfolding replay_loop log_bytes recover_events
    replay_loop-log_bytes range [] torn zero p s h t hf = refl
    replay_loop-log_bytes range [] torn (suc fuel) p s h t hf = rw (t, replay_loop)
    replay_loop-log_bytes range (e ∷ es) torn zero p s h t hf = absurd (omega arith)
    replay_loop-log_bytes range (e ∷ es) torn (suc fuel) p s h t hf =
        let later = λ (q : Pending × S).
          replay_loop-log_bytes range es torn fuel q.0 q.1 h.1 t (omega arith) in
        rw
          (
            append_assoc (write_record crc (log_record e)) (log_bytes crc es) torn,
            read_record-write_record crc crc-lt (log_record e) (log_bytes crc es ++ torn)
                h.0.record_fits,
            replay_record-log_record e p s h.0,
            replay_loop,
          )
          (ap (λ f. recover_event e p s >>= f) (fun_ext later))

    length-log_bytes : (es : List Event) → length es ≤ length (log_bytes crc es)
    unfolding log_bytes
    length-log_bytes [] = omega arith
    length-log_bytes (e ∷ es) = omega (
      arith,
      length-append (write_record crc (log_record e)) (log_bytes crc es),
      length-write_record crc (log_record e),
      length-log_bytes es,
    )

    -- With a checksum of 32 bits: Replay of a file that the methods of the log wrote with records
    -- that fit their fields, and that may end in a torn record, gives the state or the error of
    -- the recovery over the calls.
    pub replay-log_bytes :
        (range : Pending → Pending) (es : List Event) (torn : Bytes) (s : S)
        → All FitsEvent es
        → read_record crc torn ≡ none
        → replay apply crc range (log_bytes crc es ++ torn) s ≡ recover range es s
    unfolding replay recover
    replay-log_bytes range es torn s h t =
        let file = log_bytes crc es ++ torn in
        ap (λ r. r >>= λ q. undo_all apply (range q.0) q.1)
          (replay_loop-log_bytes range es torn (length file) [] s h t
            (omega (arith, length-append (log_bytes crc es) torn, length-log_bytes es)))
