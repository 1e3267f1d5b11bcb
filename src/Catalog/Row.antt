-- ===== src/Catalog/Row.antt =====
-- internal/catalog/value.go: EncodeRow and DecodeRow.
pub mod RoundTrip
use eleone_sql.Common.{
  ℕ, suc, ◌+◌, ◌%◌, ◌^◌, Bool, true, false, List, [], ◌∷◌, ◌++◌, ltb, ◌==◌, if◌then◌else◌, length,
  take, drop, map, get_or, Result, ok, err, ◌>>=◌,
}
use eleone_sql.Bytes.{Bytes, put_be, get_be}
use eleone_sql.Catalog.Value.{
  SqlType, integer, float, text, boolean, unknown, Value, zero_value, null_value, int_value,
  float_value, text_value, bool_value,
}

-- The number is that of the column, or of all columns for `too_short`.
pub data RowError : Type 0 where
  too_short truncated_int truncated_float truncated_length truncated_text truncated_bool :
      ℕ → RowError

abbrev pub null_mark : Value → ℕ
null_mark v = if v.null then 1 else 0

abbrev pub null_marks : List Value → Bytes
null_marks = map null_mark

-- One round of the second loop of `EncodeRow`.
unfoldable pub encode_value : Value → Bytes
encode_value v = elim v.null [
  | true ↦ []
  | false ↦ elim v.type [
    | integer ↦ put_be 8 v.i
    | float ↦ put_be 8 v.f
    | text ↦ put_be 4 (length v.s % 2 ^ 32) ++ v.s
    | boolean ↦ if v.b then 1 ∷ [] else 0 ∷ []
    | unknown n ↦ []
  ]
]

unfoldable pub encode_values : List Value → Bytes
encode_values [] = []
encode_values (v ∷ vs) = encode_value v ++ encode_values vs

unfoldable pub encode_row : List Value → Bytes
encode_row values = null_marks values ++ encode_values values

-- The switch of `DecodeRow` for column `i`, at the bytes from the current offset on. It gives the
-- value and the bytes from the new offset on.
unfoldable pub decode_value : ℕ → SqlType → Bytes → Result RowError (Value × Bytes)
decode_value i integer data' =
    if ltb (length data') 8
    then err (truncated_int i)
    else ok (int_value (get_be 8 data'), drop 8 data')
decode_value i float data' =
    if ltb (length data') 8
    then err (truncated_float i)
    else ok (float_value (get_be 8 data'), drop 8 data')
decode_value i text data' =
    if ltb (length data') 4
    then err (truncated_length i)
    else (let l = get_be 4 data' in
        let body = drop 4 data' in
        if ltb (length body) l
        then err (truncated_text i)
        else ok (text_value (take l body), drop l body))
decode_value i boolean [] = err (truncated_bool i)
decode_value i boolean (b ∷ data') = ok (bool_value (b == 1), data')
decode_value i (unknown n) data' = ok (zero_value, data')

-- The loop of `DecodeRow` from column `i` on, over the null marks and the types that are left.
unfoldable pub decode_columns : ℕ → Bytes → List SqlType → Bytes → Result RowError (List Value)
decode_columns i nulls [] data' = ok []
decode_columns i nulls (t ∷ types) data' = elim (get_or nulls 0 0 == 1) [
  | true ↦ (do vs ← decode_columns (suc i) (drop 1 nulls) types data'; ok (null_value t ∷ vs))
  | false ↦ (do
    (v, rest) ← decode_value i t data'
    vs ← decode_columns (suc i) (drop 1 nulls) types rest
    ok (v ∷ vs))
]

unfoldable pub decode_row : Bytes → List SqlType → Result RowError (List Value)
decode_row data' types =
    let n = length types in
    if ltb (length data') n
    then err (too_short n)
    else decode_columns 0 (take n data') types (drop n data')
