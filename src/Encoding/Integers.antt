-- ===== src/Encoding/Integers.antt =====
-- EncodeInt64 and EncodeUint64: reading back, and the order of the encodings.
use eleone_sql.Common.{
  ℕ, ◌+◌, ◌%◌, ◌^◌, ◌<◌, ◌≡◌, ap₂, ◌∙◌, arith, [], ◌++◌, compare, length, append-nil,
}
use eleone_sql.Common.Int.{compare_ℤ}
use eleone_sql.Bytes.{Bytes, put_be, bytes_compare}
use eleone_sql.Bytes.BigEndian.{get_be-put_be, bytes_compare-put_be, length-put_be}
use eleone_sql.Encoding.{IsU64, encode_int64, decode_int64, encode_uint64, decode_uint64, signed64}
use eleone_sql.Encoding.Words.{flip_sign}

flip_twice : (v : ℕ) → v < 2 ^ 64 → ((v + 2 ^ 63) % 2 ^ 64 + 2 ^ 63) % 2 ^ 64 ≡ v
flip_twice v h = omega arith

-- DecodeInt64 reads back every int64 that EncodeInt64 wrote, whatever bytes follow it.
pub decode-encode_int64 :
    (v : ℕ) (rest : Bytes) → IsU64 v → decode_int64 (encode_int64 v ++ rest) ≡ v
unfolding decode_int64 encode_int64
decode-encode_int64 v rest h =
    rw
      (
        flip_sign v h,
        get_be-put_be 8 ((v + 2 ^ 63) % 2 ^ 64) rest (omega arith),
        flip_sign ((v + 2 ^ 63) % 2 ^ 64) (omega arith),
      )
      (flip_twice v h)

flipped_order :
    (a b : ℕ)
    → IsU64 a
    → IsU64 b
    → compare ((a + 2 ^ 63) % 2 ^ 64) ((b + 2 ^ 63) % 2 ^ 64) ≡ compare_ℤ (signed64 a) (signed64 b)
flipped_order a b ha hb = ground arith

-- The encodings of two int64 values compare as bytes exactly as the integers compare.
pub compare-encode_int64 :
    (a b : ℕ)
    → IsU64 a
    → IsU64 b
    → bytes_compare (encode_int64 a) (encode_int64 b) ≡ compare_ℤ (signed64 a) (signed64 b)
unfolding encode_int64
compare-encode_int64 a b ha hb =
    ap₂ (λ x y. bytes_compare (put_be 8 x) (put_be 8 y)) (flip_sign a ha) (flip_sign b hb)
    ∙ bytes_compare-put_be 8 ((a + 2 ^ 63) % 2 ^ 64) ((b + 2 ^ 63) % 2 ^ 64) (omega arith)
        (omega arith)
    ∙ flipped_order a b ha hb

pub length-encode_int64 : (v : ℕ) → length (encode_int64 v) ≡ 8
unfolding encode_int64
length-encode_int64 v = length-put_be 8 _

pub length-encode_uint64 : (v : ℕ) → length (encode_uint64 v) ≡ 8
unfolding encode_uint64
length-encode_uint64 v = length-put_be 8 v

-- Row ids: DecodeUint64 reads back what EncodeUint64 wrote, and the keys sort by row id.
pub encode_uint64_lem :
    (a b : ℕ)
    → IsU64 a
    → IsU64 b
    → (decode_uint64 (encode_uint64 a) ≡ a)
      × (bytes_compare (encode_uint64 a) (encode_uint64 b) ≡ compare a b)
unfolding encode_uint64 decode_uint64
encode_uint64_lem a b ha hb =
    (rw (append-nil) at (get_be-put_be 8 a [] ha), bytes_compare-put_be 8 a b ha hb)
