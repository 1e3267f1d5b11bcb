-- ===== src/Wal/Operation.antt =====
-- encodeOp and decodeOp of internal/wal/wal.go: reading back an operation.
use eleone_sql.Common.{
  ℕ, ◌+◌, ◌^◌, ◌<◌, ◌≡◌, refl, arith, Bool, true, false, [], ◌∷◌, ◌++◌, append_assoc, append-nil,
  le→ltb, length, length-append, take-append, drop-append, ok, if◌then◌else◌,
}
use native.Mathlib.Nat.{mod-eq_of_lt}
use eleone_sql.Bytes.{Bytes, put_be}
use eleone_sql.Bytes.BigEndian.{get_be-put_be, length-put_be}
use eleone_sql.Wal.{RecordType, write_chunk, encode_op, read_chunk, read_flag, decode_op}

read_chunk-write_chunk :
    (w : ℕ) (b rest : Bytes)
    → length b < 256 ^ w
    → read_chunk w (write_chunk w b ++ rest) ≡ ok (b, rest)
unfolding read_chunk write_chunk
read_chunk-write_chunk w b rest h =
    let n = length b in
    let all : length (put_be w n ++ (b ++ rest)) ≡ w + length (b ++ rest) =
      omega (arith, length-append (put_be w n) (b ++ rest), length-put_be w n) in
    rw (
      mod-eq_of_lt h,
      append_assoc (put_be w n) b rest,
      le→ltb (length (put_be w n ++ (b ++ rest))) w (omega arith),
      get_be-put_be w n (b ++ rest) h,
      drop-append w (put_be w n) (b ++ rest) (length-put_be w n),
      le→ltb (length (b ++ rest)) n (omega (arith, length-append b rest)),
      take-append n b rest refl,
      drop-append n b rest refl,
    )

last_chunk : (w : ℕ) (b : Bytes) → length b < 256 ^ w → read_chunk w (write_chunk w b) ≡ ok (b, [])
last_chunk w b h = rw (append-nil (write_chunk w b)) at (read_chunk-write_chunk w b [] h)

flag_back : (b : Bool) (rest : Bytes) → read_flag ((if b then 1 else 0) ∷ rest) ≡ ok (b, rest)
unfolding read_flag
flag_back true rest = refl
flag_back false rest = refl

-- What fits the length fields of a record: 16 bits for the target, 32 for keys and values.
pub record FitsOp (table key new_val prev_val : Bytes) : Type 0 where
  pub table_fits : length table < 2 ^ 16
  pub key_fits : length key < 2 ^ 32
  pub val_fits : length new_val < 2 ^ 32
  pub prev_fits : length prev_val < 2 ^ 32

-- decodeOp reads back all parts of an operation that encodeOp wrote, if each fits its length
-- field.
pub decode_op-encode_op :
    (typ : RecordType) (table key new_val prev_val : Bytes) (had_prev : Bool)
    → FitsOp table key new_val prev_val
    → decode_op typ (encode_op table key new_val had_prev prev_val)
      ≡ ok (record {
        type = typ;
        table = table;
        key = key;
        val = new_val;
        had_prev = had_prev;
        prev_val = prev_val;
      })
unfolding decode_op encode_op
decode_op-encode_op typ table key new_val prev_val had_prev h =
    let flag : ℕ = if had_prev then 1 else 0 in
    let tail = flag ∷ write_chunk 4 prev_val in
    rw (
      read_chunk-write_chunk 2 table (write_chunk 4 key ++ (write_chunk 4 new_val ++ tail))
          h.table_fits,
      read_chunk-write_chunk 4 key (write_chunk 4 new_val ++ tail) h.key_fits,
      read_chunk-write_chunk 4 new_val tail h.val_fits,
      flag_back had_prev (write_chunk 4 prev_val),
      last_chunk 4 prev_val h.prev_fits,
    )
