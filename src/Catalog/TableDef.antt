-- ===== src/Catalog/TableDef.antt =====
-- internal/catalog/catalog.go: table definitions, and their bytes in the system catalog. A
-- `bytes.Reader` is the list of the bytes that are not read yet.
pub mod Reader
pub mod RoundTrip
use Prim.Native.Nat.{bit_and, bit_or}
use eleone_sql.Common.{
  ℕ, zero, suc, ◌+◌, ◌-◌, ◌%◌, ◌^◌, ◌<◌, Bool, true, false, not, List, [], ◌∷◌, ◌++◌, ltb, ◌==◌,
  if◌then◌else◌, length, take, drop, map, Option, none, some, Result, ok, err, ◌>>=◌, All,
}
use eleone_sql.Bytes.{Bytes, put_be, get_be, bytes_eq}
use eleone_sql.Catalog.Value.{SqlType, integer, float, text, boolean, unknown}

pub record ColumnDef : Type 0 where
  pub name : Bytes
  pub type : SqlType
  pub primary_key : Bool
  pub unique : Bool
  pub not_null : Bool

pub record IndexDef : Type 0 where
  pub name : Bytes
  pub column : Bytes
  pub unique : Bool
  pub root : ℕ

pub record TableDef : Type 0 where
  pub name : Bytes
  pub columns : List ColumnDef
  pub root : ℕ
  pub next_row : ℕ
  pub indexes : List IndexDef

-- The first column that passes a test. `none` is Go's -1.
unfoldable pub find_column : (ColumnDef → Bool) → List ColumnDef → Option ℕ
find_column test [] = none
find_column test (c ∷ cs) =
    let rest = find_column test cs in
    if test c then some 0 else elim rest [ none ↦ none | some i ↦ some (suc i) ]

unfoldable pub column_index : TableDef → Bytes → Option ℕ
unfolding find_column
column_index t name = find_column (λ c. bytes_eq c.name name) t.columns

unfoldable pub primary_key_column : TableDef → Option ℕ
unfolding find_column
primary_key_column t = find_column (λ c. c.primary_key) t.columns

unfoldable pub column_types : TableDef → List SqlType
column_types t = map (λ c. c.type) t.columns

-- `byte(col.Type)` and `Type(tb)`.
unfoldable pub type_byte : SqlType → ℕ
type_byte integer = 1
type_byte float = 2
type_byte text = 3
type_byte boolean = 4
type_byte (unknown n) = n

unfoldable pub type_of_byte : ℕ → SqlType
type_of_byte b =
    if b == 1
    then integer
    else if b == 2
    then float
    else if b == 3
    then text
    else if b == 4
    then boolean
    else unknown b

unfoldable pub write_string : Bytes → Bytes
write_string s = put_be 2 (length s % 2 ^ 16) ++ s

unfoldable pub column_flags : ColumnDef → ℕ
column_flags c =
    let pk : ℕ = if c.primary_key then bit_or 0 1 else 0 in
    let un : ℕ = if c.unique then bit_or pk 2 else pk in if c.not_null then bit_or un 4 else un

unfoldable pub encode_column : ColumnDef → Bytes
encode_column c = write_string c.name ++ type_byte c.type ∷ column_flags c ∷ []

unfoldable pub encode_columns : List ColumnDef → Bytes
encode_columns [] = []
encode_columns (c ∷ cs) = encode_column c ++ encode_columns cs

unfoldable pub encode_index : IndexDef → Bytes
encode_index x =
    write_string x.name
    ++ (write_string x.column ++ ((if x.unique then bit_or 0 1 else 0) ∷ put_be 4 x.root))

unfoldable pub encode_indexes : List IndexDef → Bytes
encode_indexes [] = []
encode_indexes (x ∷ xs) = encode_index x ++ encode_indexes xs

unfoldable pub encode_table_def : TableDef → Bytes
encode_table_def t =
    write_string t.name
    ++ (put_be 4 t.root
        ++ (put_be 8 t.next_row
            ++ (put_be 2 (length t.columns % 2 ^ 16)
                ++ (encode_columns t.columns
                    ++ (put_be 2 (length t.indexes % 2 ^ 16) ++ encode_indexes t.indexes)))))

-- `io.EOF` where nothing is left to read, `io.ErrUnexpectedEOF` where a number is cut short.
pub data ReadError : Type 0 where
  eof unexpected_eof : ReadError

abbrev pub Read : Type 0 → Type 0
Read A = Result ReadError (A × Bytes)

-- `binary.Read` of a number of `k` bytes.
unfoldable pub read_number : ℕ → Bytes → Read ℕ
read_number k r =
    if length r == 0
    then err eof
    else if ltb (length r) k
    then err unexpected_eof
    else ok (get_be k r, drop k r)

unfoldable pub read_byte : Bytes → Read ℕ
read_byte [] = err eof
read_byte (b ∷ r) = ok (b, r)

unfoldable pub zeros : ℕ → Bytes
zeros zero = []
zeros (suc n) = 0 ∷ zeros n

-- `r.Read(b)` with `b` of length `l`: it fills what it can of the slice and gives no error for the rest, which stays zero. At the
-- end of the input it gives `io.EOF`, for an empty slice too.
unfoldable pub read_slice : ℕ → Bytes → Read Bytes
read_slice l r = if length r == 0 then err eof else ok (take l r ++ zeros (l - length r), drop l r)

unfoldable pub read_string : Bytes → Read Bytes
read_string r = do (l, r') ← read_number 2 r; read_slice l r'

unfoldable pub read_column : Bytes → Read ColumnDef
read_column r = do
  (n, r₁) ← read_string r
  (tb, r₂) ← read_byte r₁
  (flags, r₃) ← read_byte r₂
  ok (
    record {
      name = n;
      type = type_of_byte tb;
      primary_key = not (bit_and flags 1 == 0);
      unique = not (bit_and flags 2 == 0);
      not_null = not (bit_and flags 4 == 0);
    },
    r₃,
  )

-- The loops over `ncols` columns and `nidx` indexes.
unfoldable pub read_columns : ℕ → Bytes → Read (List ColumnDef)
read_columns zero r = ok ([], r)
read_columns (suc n) r = do (c, r₁) ← read_column r; (cs, r₂) ← read_columns n r₁; ok (c ∷ cs, r₂)

unfoldable pub read_index : Bytes → Read IndexDef
read_index r = do
  (n, r₁) ← read_string r
  (col, r₂) ← read_string r₁
  (flags, r₃) ← read_byte r₂
  (iroot, r₄) ← read_number 4 r₃
  ok (record { name = n; column = col; unique = not (bit_and flags 1 == 0); root = iroot }, r₄)

unfoldable pub read_indexes : ℕ → Bytes → Read (List IndexDef)
read_indexes zero r = ok ([], r)
read_indexes (suc n) r = do (x, r₁) ← read_index r; (xs, r₂) ← read_indexes n r₁; ok (x ∷ xs, r₂)

unfoldable pub decode_table_def : Bytes → Result ReadError TableDef
decode_table_def data' = do
  (name, r₁) ← read_string data'
  (root, r₂) ← read_number 4 r₁
  (next_row, r₃) ← read_number 8 r₂
  (ncols, r₄) ← read_number 2 r₃
  (cols, r₅) ← read_columns ncols r₄
  (nidx, r₆) ← read_number 2 r₅
  (idxs, r₇) ← read_indexes nidx r₆
  ok (record { name = name; columns = cols; root = root; next_row = next_row; indexes = idxs })

-- The definitions that the catalog can store: names and lists whose lengths fit 16 bits, page ids
-- and row ids in range, and types that SQL can name.
abbrev pub IsKnown : SqlType → Type 0
IsKnown (unknown n) = ⊥
IsKnown _ = Unit {0}

pub record IsStorableColumn (c : ColumnDef) : Type 0 where
  pub name_fits : length c.name < 2 ^ 16
  pub type_known : IsKnown c.type

pub record IsStorableIndex (x : IndexDef) : Type 0 where
  pub name_fits : length x.name < 2 ^ 16
  pub column_fits : length x.column < 2 ^ 16
  pub root_fits : x.root < 2 ^ 32

pub record IsStorable (t : TableDef) : Type 0 where
  pub name_fits : length t.name < 2 ^ 16
  pub root_fits : t.root < 2 ^ 32
  pub next_row_fits : t.next_row < 2 ^ 64
  pub column_count : length t.columns < 2 ^ 16
  pub index_count : length t.indexes < 2 ^ 16
  pub columns_fit : All IsStorableColumn t.columns
  pub indexes_fit : All IsStorableIndex t.indexes
