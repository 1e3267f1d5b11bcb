-- ===== src/Wal/Frame.antt =====
-- internal/wal/wal.go: the framing of the log, whole records and torn ones.
use eleone_sql.Common.{
  length-take, [], zero, length-drop, none, suc, ◌%◌, ◌∷◌, ◌∙◌, sym, take, ◌≤◌, ℕ, ◌+◌, ◌^◌, ◌<◌,
  ◌≡◌, refl, ap, arith, true, ◌++◌, append_assoc, le→ltb, length, length-append, drop, take-append,
  drop-append, ◌==◌, ==_iff, some, get_or,
}
use native.Mathlib.Nat.{mod-eq_of_lt}
use eleone_sql.Bytes.{Bytes, put_be, get_be, be_value}
use eleone_sql.Bytes.BigEndian.{get_be-put_be, length-put_be}
use eleone_sql.Wal.{
  RecordType, begin, put, delete, commit, rollback, other, type_byte, type_of_byte, LogRecord,
  record_body, write_record, read_record,
}

-- A record type that the program writes.
abbrev pub IsWritten : RecordType → Type 0
IsWritten (other n) = ⊥
IsWritten _ = Unit {0}

pub record FitsRecord (r : LogRecord) : Type 0 where
  pub type_written : IsWritten r.type
  pub txn_fits : r.txn < 2 ^ 64
  pub payload_fits : length r.payload + 9 < 2 ^ 32

type_of_byte-type_byte : (t : RecordType) → IsWritten t → type_of_byte (type_byte t) ≡ t
unfolding type_of_byte type_byte
type_of_byte-type_byte begin h = refl
type_of_byte-type_byte put h = refl
type_of_byte-type_byte delete h = refl
type_of_byte-type_byte commit h = refl
type_of_byte-type_byte rollback h = refl
type_of_byte-type_byte (other n) h = absurd h

length-record_body : (r : LogRecord) → length (record_body r) ≡ length r.payload + 9
unfolding record_body
length-record_body r =
    omega (arith, length-append (put_be 8 r.txn) r.payload, length-put_be 8 r.txn)

-- A record in place of what `read_record` takes from a body.
body_back :
    (r : LogRecord)
    → FitsRecord r
    → ◌≡◌ {A = LogRecord}
        (record {
          type = type_of_byte (get_or (record_body r) 0 0);
          txn = get_be 8 (drop 1 (record_body r));
          payload = drop 9 (record_body r);
        })
        r
unfolding record_body
body_back r h = λ i. record {
  type = type_of_byte-type_byte r.type h.type_written i;
  txn = get_be-put_be 8 r.txn r.payload h.txn_fits i;
  payload = drop-append 8 (put_be 8 r.txn) r.payload (length-put_be 8 r.txn) i;
}

eq_self : (n : ℕ) → (n == n) ≡ true
eq_self n = (==_iff n n).1 refl

module _ (crc : Bytes → ℕ) (crc-lt : (b : Bytes) → crc b < 2 ^ 32) where
  -- With a checksum of 32 bits: a record of one of the five types, with a 64-bit transaction and a
  -- body below 4 GiB, is read back when it was written whole, and what follows it is left.
  pub read_record-write_record :
      (r : LogRecord) (rest : Bytes)
      → FitsRecord r
      → read_record crc (write_record crc r ++ rest) ≡ some (r, rest)
  unfolding read_record write_record
  read_record-write_record r rest h =
      let body = record_body r in
      let n = length body in
      let sum = put_be 4 (crc body) in
      let fits : n < 2 ^ 32 = omega (arith, length-record_body r, h.payload_fits) in
      rw
        (
          mod-eq_of_lt fits,
          append_assoc (put_be 4 n) (body ++ sum) rest,
          append_assoc body sum rest,
          le→ltb (length (put_be 4 n ++ (body ++ (sum ++ rest)))) 4 (
              omega (arith, length-append (put_be 4 n) (body ++ (sum ++ rest)), length-put_be 4 n)),
          get_be-put_be 4 n (body ++ (sum ++ rest)) fits,
          drop-append 4 (put_be 4 n) (body ++ (sum ++ rest)) (length-put_be 4 n),
          le→ltb (length (body ++ (sum ++ rest))) n
              (omega (arith, length-append body (sum ++ rest))),
          take-append n body (sum ++ rest) refl,
          drop-append n body (sum ++ rest) refl,
          le→ltb (length (sum ++ rest)) 4
              (omega (arith, length-append sum rest, length-put_be 4 (crc body))),
          get_be-put_be 4 (crc body) rest (crc-lt body),
          eq_self (crc body),
          le→ltb n 9 (omega (arith, length-record_body r)),
          drop-append 4 sum rest (length-put_be 4 (crc body)),
        )
        (ap (λ q. some (q, rest)) (body_back r h))

take_front : (k : ℕ) (xs ys : Bytes) → k ≤ length xs → take k (xs ++ ys) ≡ take k xs
take_front zero xs ys h = refl
take_front (suc k) [] ys h = absurd (omega arith)
take_front (suc k) (x ∷ xs) ys h = ap (λ t. x ∷ t) (take_front k xs ys (omega arith))

module _ (crc : Bytes → ℕ) where
  pub length-write_record :
      (r : LogRecord) → length (write_record crc r) ≡ length (record_body r) + 8
  unfolding write_record
  length-write_record r =
      let body = record_body r in
      omega (
        arith,
        length-append (put_be 4 (length body % 2 ^ 32)) (body ++ put_be 4 (crc body)),
        length-append body (put_be 4 (crc body)),
        length-put_be 4 (length body % 2 ^ 32),
        length-put_be 4 (crc body),
      )

  length_field :
      (r : LogRecord) (front back : Bytes)
      → FitsRecord r
      → write_record crc r ≡ front ++ back
      → 4 ≤ length front
      → get_be 4 front ≡ length (record_body r)
  unfolding write_record get_be
  length_field r front back h e enough =
      let n = length (record_body r) in
      let fits : n < 2 ^ 32 = omega (arith, length-record_body r, h.payload_fits) in
      ap (be_value 0) (sym (take_front 4 front back enough) ∙ ap (take 4) (sym e))
      ∙ ap (λ m. get_be 4 (put_be 4 m ++ (record_body r ++ put_be 4 (crc (record_body r)))))
          (mod-eq_of_lt fits)
      ∙ get_be-put_be 4 n (record_body r ++ put_be 4 (crc (record_body r))) fits

  -- If a record of one of the five types, with a 64-bit transaction and a body below 4 GiB, lost
  -- its last byte at least, what is left of it ends the scan.
  pub read_record_torn :
      (r : LogRecord) (front : Bytes) (x : ℕ) (back : Bytes)
      → FitsRecord r
      → write_record crc r ≡ front ++ (x ∷ back)
      → read_record crc front ≡ none
  unfolding read_record
  read_record_torn r front x back h e = ground (
    arith,
    length_field r front (x ∷ back) h e,
    length-write_record r,
    ap length e,
    length-append front (x ∷ back),
    length-drop 4 front,
    length-drop (get_be 4 front) (drop 4 front),
  )

  -- A record that is read takes 17 bytes at least.
  pub read_record_shorter :
      (r : Bytes) (q : LogRecord) (rest : Bytes)
      → read_record crc r ≡ some (q, rest)
      → length rest + 17 ≤ length r
  unfolding read_record
  read_record_shorter r q rest e = ground (
    arith,
    length-drop 4 r,
    length-drop (get_be 4 r) (drop 4 r),
    length-drop 4 (drop (get_be 4 r) (drop 4 r)),
    length-take (get_be 4 r) (drop 4 r),
  )
