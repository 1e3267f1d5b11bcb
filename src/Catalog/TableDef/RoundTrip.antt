-- ===== src/Catalog/TableDef/RoundTrip.antt =====
-- encodeTableDef and decodeTableDef of internal/catalog/catalog.go: reading back a definition.
use Prim.Native.Nat.{bit_and, bit_or}
use eleone_sql.Common.{
  ℕ, ◌%◌, ◌^◌, ◌<◌, ◌≡◌, refl, ap, arith, Bool, true, false, not, List, [], ◌∷◌, ◌++◌, append_assoc,
  append-nil, ◌==◌, length, length-append, ok, if◌then◌else◌, All,
}
use eleone_sql.Bytes.{Bytes, put_be}
use eleone_sql.Bytes.BigEndian.{length-put_be}
use eleone_sql.Catalog.Value.{SqlType, integer, float, text, boolean, unknown}
use eleone_sql.Catalog.TableDef.{
  ColumnDef, IndexDef, TableDef, write_string, type_byte, type_of_byte, column_flags, encode_column,
  encode_columns, encode_index, encode_indexes, encode_table_def, read_byte, read_column,
  read_columns, read_index, read_indexes, decode_table_def, IsKnown, IsStorableColumn,
  IsStorableIndex, IsStorable,
}
use eleone_sql.Catalog.TableDef.Reader.{read_number-put_be, read_string-write_string}

type_of_byte-type_byte : (t : SqlType) → IsKnown t → type_of_byte (type_byte t) ≡ t
unfolding type_of_byte type_byte
type_of_byte-type_byte integer h = refl
type_of_byte-type_byte float h = refl
type_of_byte-type_byte text h = refl
type_of_byte-type_byte boolean h = refl
type_of_byte-type_byte (unknown n) h = absurd h

-- What `read_column` makes of a type byte and the flags.
abbrev column_of : Bytes → ℕ → ℕ → ColumnDef
column_of n tb flags = record {
  name = n;
  type = type_of_byte tb;
  primary_key = not (bit_and flags 1 == 0);
  unique = not (bit_and flags 2 == 0);
  not_null = not (bit_and flags 4 == 0);
}

flags_of : Bool → Bool → Bool → ℕ
flags_of p u n =
    let pk : ℕ = if p then bit_or 0 1 else 0 in
    let un : ℕ = if u then bit_or pk 2 else pk in if n then bit_or un 4 else un

flags_back :
    (p u n : Bool)
    → (not (bit_and (flags_of p u n) 1 == 0) ≡ p)
      × (not (bit_and (flags_of p u n) 2 == 0) ≡ u)
      × (not (bit_and (flags_of p u n) 4 == 0) ≡ n)
unfolding flags_of
flags_back true true true = (refl, refl, refl)
flags_back true true false = (refl, refl, refl)
flags_back true false true = (refl, refl, refl)
flags_back true false false = (refl, refl, refl)
flags_back false true true = (refl, refl, refl)
flags_back false true false = (refl, refl, refl)
flags_back false false true = (refl, refl, refl)
flags_back false false false = (refl, refl, refl)

column_back :
    (c : ColumnDef) → IsKnown c.type → column_of c.name (type_byte c.type) (column_flags c) ≡ c
unfolding column_flags flags_of
column_back c h =
    let (p, u, n) = flags_back c.primary_key c.unique c.not_null in
    λ i. record {
      name = c.name;
      type = type_of_byte-type_byte c.type h i;
      primary_key = p i;
      unique = u i;
      not_null = n i;
    }

read_column-encode_column :
    (c : ColumnDef) (rest : Bytes)
    → IsStorableColumn c
    → read_column (encode_column c ++ rest) ≡ ok (c, rest)
unfolding read_column encode_column read_byte
read_column-encode_column c rest h =
    rw
      (
        append_assoc (write_string c.name) (type_byte c.type ∷ column_flags c ∷ []) rest,
        read_string-write_string c.name (type_byte c.type ∷ column_flags c ∷ rest) h.name_fits
            (omega arith),
      )
      (ap (λ d. ok (d, rest)) (column_back c h.type_known))

read_columns-encode_columns :
    (cs : List ColumnDef) (rest : Bytes)
    → All IsStorableColumn cs
    → read_columns (length cs) (encode_columns cs ++ rest) ≡ ok (cs, rest)
unfolding read_columns encode_columns
read_columns-encode_columns [] rest h = refl
read_columns-encode_columns (c ∷ cs) rest h = rw (
  append_assoc (encode_column c) (encode_columns cs) rest,
  read_column-encode_column c (encode_columns cs ++ rest) h.0,
  read_columns-encode_columns cs rest h.1,
)

unique_back : (b : Bool) → not (bit_and (if b then bit_or 0 1 else 0) 1 == 0) ≡ b
unique_back true = refl
unique_back false = refl

string_then : (s rest : Bytes) → 0 < length (write_string s ++ rest)
unfolding write_string
string_then s rest = rw append_assoc (
    omega (
      arith,
      length-append (put_be 2 (length s % 2 ^ 16)) (s ++ rest),
      length-put_be 2 (length s % 2 ^ 16),
    ))

read_index-encode_index :
    (x : IndexDef) (rest : Bytes)
    → IsStorableIndex x
    → read_index (encode_index x ++ rest) ≡ ok (x, rest)
unfolding read_index encode_index read_byte
read_index-encode_index x rest h =
    let flags : ℕ = if x.unique then bit_or 0 1 else 0 in
    let tail : Bytes = flags ∷ (put_be 4 x.root ++ rest) in
    rw
      (
        append_assoc (write_string x.name) (write_string x.column ++ (flags ∷ put_be 4 x.root))
            rest,
        append_assoc (write_string x.column) (flags ∷ put_be 4 x.root) rest,
        read_string-write_string x.name (write_string x.column ++ tail) h.name_fits
            (string_then x.column tail),
        read_string-write_string x.column tail h.column_fits (omega arith),
        read_number-put_be 4 x.root rest (omega arith) h.root_fits,
      )
      (ap (λ u. ok (record { name = x.name; column = x.column; unique = u; root = x.root }, rest))
        (unique_back x.unique))

read_indexes-encode_indexes :
    (xs : List IndexDef) (rest : Bytes)
    → All IsStorableIndex xs
    → read_indexes (length xs) (encode_indexes xs ++ rest) ≡ ok (xs, rest)
unfolding read_indexes encode_indexes
read_indexes-encode_indexes [] rest h = refl
read_indexes-encode_indexes (x ∷ xs) rest h = rw (
  append_assoc (encode_index x) (encode_indexes xs) rest,
  read_index-encode_index x (encode_indexes xs ++ rest) h.0,
  read_indexes-encode_indexes xs rest h.1,
)

All-indexes :
    (xs : List IndexDef)
    → All IsStorableIndex xs
    → read_indexes (length xs) (encode_indexes xs) ≡ ok (xs, [])
All-indexes xs h = rw (append-nil (encode_indexes xs)) at (read_indexes-encode_indexes xs [] h)

small : (n : ℕ) → n < 2 ^ 16 → n % 2 ^ 16 ≡ n
small n h = omega arith

number_then : (k v : ℕ) (rest : Bytes) → 0 < k → 0 < length (put_be k v ++ rest)
number_then k v rest h = omega (arith, length-append (put_be k v) rest, length-put_be k v)

-- decodeTableDef reads back every definition whose names, counts, pages and next row fit their
-- fields and whose column types are known.
pub decode_table_def-encode_table_def :
    (t : TableDef) → IsStorable t → decode_table_def (encode_table_def t) ≡ ok t
unfolding decode_table_def encode_table_def
decode_table_def-encode_table_def t h =
    let xs = put_be 2 (length t.indexes) ++ encode_indexes t.indexes in
    let cs = put_be 2 (length t.columns) ++ (encode_columns t.columns ++ xs) in
    rw (
      small (length t.columns) h.column_count,
      small (length t.indexes) h.index_count,
      read_string-write_string t.name (put_be 4 t.root ++ (put_be 8 t.next_row ++ cs)) h.name_fits
          (number_then 4 t.root (put_be 8 t.next_row ++ cs) (omega arith)),
      read_number-put_be 4 t.root (put_be 8 t.next_row ++ cs) (omega arith) h.root_fits,
      read_number-put_be 8 t.next_row cs (omega arith) h.next_row_fits,
      read_number-put_be 2 (length t.columns) (encode_columns t.columns ++ xs) (omega arith)
          h.column_count,
      read_columns-encode_columns t.columns xs h.columns_fit,
      read_number-put_be 2 (length t.indexes) (encode_indexes t.indexes) (omega arith)
          h.index_count,
      All-indexes t.indexes h.indexes_fit,
    )
