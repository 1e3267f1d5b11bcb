-- ===== src/Catalog/TableDef/Reader.antt =====
-- internal/catalog/catalog.go: the readers of numbers and strings on what was written.
use eleone_sql.Common.{
  ◌≤◌, ℕ, ◌+◌, ◌-◌, ◌%◌, ◌^◌, ◌<◌, ◌≡◌, refl, ap, arith, false, [], ◌++◌, append_assoc, append-nil,
  ◌==◌, length, length-append, take-append, drop-append, le→ltb, ok,
}
use eleone_sql.Bytes.{Bytes, put_be}
use eleone_sql.Bytes.BigEndian.{get_be-put_be, length-put_be}
use eleone_sql.Catalog.TableDef.{read_slice, read_number, read_string, write_string, zeros}

not_empty : (xs : Bytes) → 0 < length xs → (length xs == 0) ≡ false
not_empty xs h = ground arith

pub read_number-put_be :
    (k v : ℕ) (rest : Bytes)
    → 0 < k
    → v < 256 ^ k
    → read_number k (put_be k v ++ rest) ≡ ok (v, rest)
unfolding read_number
read_number-put_be k v rest hk h =
    let all : length (put_be k v ++ rest) ≡ k + length rest =
      omega (arith, length-append (put_be k v) rest, length-put_be k v) in
    rw (
      not_empty (put_be k v ++ rest) (omega arith),
      le→ltb (length (put_be k v ++ rest)) k (omega arith),
      get_be-put_be k v rest h,
      drop-append k (put_be k v) rest (length-put_be k v),
    )

small : (n : ℕ) → n < 2 ^ 16 → n % 2 ^ 16 ≡ n
small n h = omega arith

zeros_none : (n m : ℕ) → n ≤ m → zeros (n - m) ≡ []
unfolding zeros
zeros_none n m h = ap zeros (sub_none n m h)
  where
    sub_none : (n m : ℕ) → n ≤ m → n - m ≡ 0
    sub_none n m h = omega arith

read_slice-append :
    (s rest : Bytes) → 0 < length rest → read_slice (length s) (s ++ rest) ≡ ok (s, rest)
unfolding read_slice zeros
read_slice-append s rest hr =
    let n = length s in
    rw (
      not_empty (s ++ rest) (omega (arith, length-append s rest)),
      take-append n s rest refl,
      drop-append n s rest refl,
      zeros_none n (length (s ++ rest)) (omega (arith, length-append s rest)),
      append-nil s,
    )

-- A string is read back where at least one byte follows it.
pub read_string-write_string :
    (s rest : Bytes)
    → length s < 2 ^ 16
    → 0 < length rest
    → read_string (write_string s ++ rest) ≡ ok (s, rest)
unfolding read_string write_string
read_string-write_string s rest hs hr =
    let n = length s in
    rw
      (
        small n hs,
        append_assoc (put_be 2 n) s rest,
        read_number-put_be 2 n (s ++ rest) (omega arith) hs,
      )
      (read_slice-append s rest hr)
