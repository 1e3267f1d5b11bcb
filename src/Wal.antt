-- ===== src/Wal.antt =====
-- internal/wal/wal.go: the records of the write-ahead log as bytes. Writing them appends to the
-- file, so a log is the list of its bytes.
pub mod Operation
pub mod Frame
pub mod Replay
use eleone_sql.Common.{
  ℕ, ◌+◌, ◌%◌, ◌^◌, ◌<◌, Bool, true, false, not, List, [], ◌∷◌, ◌++◌, ltb, ◌==◌, if◌then◌else◌,
  length, take, drop, get_or, Option, none, some, Result, ok, err, ◌>>=◌,
}
use eleone_sql.Bytes.{Bytes, put_be, get_be}
use eleone_sql.Encoding.{IsU64}

-- `RecordType`. The log of a damaged file may hold any other byte.
pub data RecordType : Type 0 where
  begin put delete commit rollback : RecordType
  other : ℕ → RecordType

unfoldable pub type_byte : RecordType → ℕ
type_byte begin = 1
type_byte put = 2
type_byte delete = 3
type_byte commit = 4
type_byte rollback = 5
type_byte (other n) = n

unfoldable pub type_of_byte : ℕ → RecordType
type_of_byte b =
    if b == 1
    then begin
    else if b == 2
    then put
    else if b == 3
    then delete
    else if b == 4
    then commit
    else if b == 5
    then rollback
    else other b

pub record Op : Type 0 where
  pub type : RecordType
  pub table : Bytes
  pub key : Bytes
  pub val : Bytes
  pub had_prev : Bool
  pub prev_val : Bytes

-- `writeChunk16` and `writeChunk32`, at the widths 2 and 4.
unfoldable pub write_chunk : ℕ → Bytes → Bytes
write_chunk w b = put_be w (length b % 256 ^ w) ++ b

unfoldable pub encode_op : Bytes → Bytes → Bytes → Bool → Bytes → Bytes
encode_op table key new_val had_prev prev_val =
    write_chunk 2 table
    ++ (write_chunk 4 key
        ++ (write_chunk 4 new_val ++ ((if had_prev then 1 else 0) ∷ write_chunk 4 prev_val)))

-- `io.ErrUnexpectedEOF`.
pub data DecodeError : Type 0 where
  unexpected_eof : DecodeError

unfoldable pub read_chunk : ℕ → Bytes → Result DecodeError (Bytes × Bytes)
read_chunk w b =
    if ltb (length b) w
    then err unexpected_eof
    else (let l = get_be w b in
        let b' = drop w b in
        if ltb (length b') l then err unexpected_eof else ok (take l b', drop l b'))

unfoldable pub read_flag : Bytes → Result DecodeError (Bool × Bytes)
read_flag [] = err unexpected_eof
read_flag (b ∷ bs) = ok (b == 1, bs)

unfoldable pub decode_op : RecordType → Bytes → Result DecodeError Op
decode_op typ b = do
  (table, b₁) ← read_chunk 2 b
  (key, b₂) ← read_chunk 4 b₁
  (new_val, b₃) ← read_chunk 4 b₂
  (had_prev, b₄) ← read_flag b₃
  (prev_val, b₅) ← read_chunk 4 b₄
  ok (record {
    type = typ;
    table = table;
    key = key;
    val = new_val;
    had_prev = had_prev;
    prev_val = prev_val;
  })

-- One record of the log: its type, its transaction and its payload.
pub record LogRecord : Type 0 where
  pub type : RecordType
  pub txn : ℕ
  pub payload : Bytes

unfoldable pub record_body : LogRecord → Bytes
record_body r = type_byte r.type ∷ (put_be 8 r.txn ++ r.payload)

-- `crc` is `crc32.ChecksumIEEE`.
module _ (crc : Bytes → ℕ) where
  -- The bytes that `writeRecord` appends to the file.
  unfoldable pub write_record : LogRecord → Bytes
  write_record r =
      let body = record_body r in put_be 4 (length body % 2 ^ 32) ++ (body ++ put_be 4 (crc body))

  -- The head of the loop of `Replay`: the next record and the bytes behind it, or `none` where the
  -- loop breaks off.
  unfoldable pub read_record : Bytes → Option (LogRecord × Bytes)
  read_record r =
      if ltb (length r) 4
      then none
      else (let n = get_be 4 r in
          let r₁ = drop 4 r in
          if ltb (length r₁) n
          then none
          else (let body = take n r₁ in
              let r₂ = drop n r₁ in
              if ltb (length r₂) 4
              then none
              else if not (crc body == get_be 4 r₂)
              then none
              else if ltb (length body) 9
              then none
              else some (
                record {
                  type = type_of_byte (get_or body 0 0);
                  txn = get_be 8 (drop 1 body);
                  payload = drop 9 body;
                },
                drop 4 r₂,
              )))
