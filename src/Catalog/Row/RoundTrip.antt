-- ===== src/Catalog/Row/RoundTrip.antt =====
-- EncodeRow and DecodeRow of internal/catalog/value.go: reading back a row.
use eleone_sql.Common.{
  ◌>>=◌, Bool, if◌then◌else◌, Result, ℕ, suc, ◌%◌, ◌^◌, ◌<◌, ◌≡◌, refl, ap, ◌∙◌, arith, true, false,
  List, [], ◌∷◌, ◌++◌, append_assoc, ltb, le→ltb, length, length-append, drop, take-append,
  drop-append, length-map, inl, inr, ok,
}
use eleone_sql.Bytes.{Bytes, put_be}
use eleone_sql.Bytes.BigEndian.{get_be-put_be, length-put_be}
use eleone_sql.Catalog.Value.{
  SqlType, integer, float, text, boolean, unknown, Value, IsOfType, Payload,
}
use eleone_sql.Catalog.Row.{
  null_mark, RowError, null_value, null_marks, encode_value, encode_values, encode_row,
  decode_value, decode_columns, decode_row,
}

-- A row of the types `types`, value by value.
abbrev pub IsRow : List SqlType → List Value → Type 0
IsRow [] [] = Unit
IsRow [] (v ∷ vs) = ⊥
IsRow (t ∷ ts) [] = ⊥
IsRow (t ∷ ts) (v ∷ vs) = IsOfType t v × IsRow ts vs

enough : (k v : ℕ) (rest : Bytes) → ltb (length (put_be k v ++ rest)) k ≡ false
enough k v rest = le→ltb _ k (omega (arith, length-append (put_be k v) rest, length-put_be k v))

after : (k v : ℕ) (rest : Bytes) → drop k (put_be k v ++ rest) ≡ rest
after k v rest = drop-append k (put_be k v) rest (length-put_be k v)

text_fits : (s rest : Bytes) → ltb (length (s ++ rest)) (length s) ≡ false
text_fits s rest = le→ltb _ _ (omega (arith, length-append s rest))

small_length : (n : ℕ) → n < 2 ^ 32 → n % 2 ^ 32 ≡ n
small_length n h = omega arith

-- What follows a value is left for the next column.
decode_value-encode_value :
    (i : ℕ) (t : SqlType) (v : Value) (rest : Bytes)
    → Payload t v
    → decode_value i t (encode_value v ++ rest) ≡ ok (v, rest)
unfolding encode_value decode_value
decode_value-encode_value i integer v rest (n, h, e) =
    rw (e, enough 8 n rest, after 8 n rest, get_be-put_be 8 n rest h)
decode_value-encode_value i float v rest (n, h, e) =
    rw (e, enough 8 n rest, after 8 n rest, get_be-put_be 8 n rest h)
decode_value-encode_value i text v rest (s, h, e) =
    let n = length s in
    rw (
      e,
      small_length n h,
      append_assoc (put_be 4 n) s rest,
      enough 4 n (s ++ rest),
      after 4 n (s ++ rest),
      get_be-put_be 4 n (s ++ rest) h,
      text_fits s rest,
      take-append n s rest refl,
      drop-append n s rest refl,
    )
decode_value-encode_value i boolean v rest (true, e) = rw e
decode_value-encode_value i boolean v rest (false, e) = rw e
decode_value-encode_value i (unknown n) v rest p = absurd p

not_null : (t : SqlType) (v : Value) → Payload t v → v.null ≡ false
not_null integer v (n, h, e) = rw e
not_null float v (n, h, e) = rw e
not_null text v (n, h, e) = rw e
not_null boolean v (n, e) = rw e
not_null (unknown n) v p = absurd p

null_mark-eq-zero : (t : SqlType) (v : Value) → Payload t v → null_mark v ≡ 0
null_mark-eq-zero t v p = ap null_mark_of (not_null t v p)
  where
    null_mark_of : Bool → ℕ
    null_mark_of b = if b then 1 else 0

abbrev put_first : Value → Result RowError (List Value) → Result RowError (List Value)
put_first v r = do vs ← r; ok (v ∷ vs)

-- The columns behind one that is not NULL.
abbrev decode_rest : ℕ → Bytes → List SqlType → Value × Bytes → Result RowError (List Value)
decode_rest i nulls types (v, rest) = put_first v (decode_columns (suc i) nulls types rest)

decode_columns-encode_values :
    (i : ℕ) (types : List SqlType) (values : List Value) (rest : Bytes)
    → IsRow types values
    → decode_columns i (null_marks values) types (encode_values values ++ rest) ≡ ok values
unfolding decode_columns encode_values encode_value
decode_columns-encode_values i [] [] rest h = refl
decode_columns-encode_values i [] (v ∷ vs) rest h = absurd h
decode_columns-encode_values i (t ∷ ts) [] rest h = absurd h
decode_columns-encode_values i (t ∷ ts) (v ∷ vs) rest (inl e, hs) =
    rw e (ap (λ r. put_first (null_value t) r) (decode_columns-encode_values (suc i) ts vs rest hs))
decode_columns-encode_values i (t ∷ ts) (v ∷ vs) rest (inr p, hs) =
    ap (λ m. decode_columns i (m ∷ null_marks vs) (t ∷ ts) (encode_values (v ∷ vs) ++ rest))
      (null_mark-eq-zero t v p)
    ∙ ap (λ r. r >>= decode_rest i (null_marks vs) ts)
        (ap (decode_value i t) (append_assoc (encode_value v) (encode_values vs) rest)
          ∙ decode_value-encode_value i t v (encode_values vs ++ rest) p)
    ∙ ap (λ r. put_first v r) (decode_columns-encode_values (suc i) ts vs rest hs)

length-IsRow :
    (types : List SqlType) (values : List Value) → IsRow types values → length values ≡ length types
length-IsRow [] [] h = refl
length-IsRow [] (v ∷ vs) h = absurd h
length-IsRow (t ∷ ts) [] h = absurd h
length-IsRow (t ∷ ts) (v ∷ vs) h = ap suc (length-IsRow ts vs h.1)

-- DecodeRow with the column types reads back, value by value, every row of those types that
-- EncodeRow wrote, NULLs included, and ignores what follows the row.
pub decode_row-encode_row :
    (types : List SqlType) (values : List Value) (rest : Bytes)
    → IsRow types values
    → decode_row (encode_row values ++ rest) types ≡ ok values
unfolding decode_row encode_row
decode_row-encode_row types values rest h =
    let n = length types in
    let marks : length (null_marks values) ≡ n =
      length-map _ values ∙ length-IsRow types values h in
    rw
      (
        append_assoc (null_marks values) (encode_values values) rest,
        le→ltb (length (null_marks values ++ (encode_values values ++ rest))) n (
            omega (arith, length-append (null_marks values) (encode_values values ++ rest), marks)),
        take-append n (null_marks values) (encode_values values ++ rest) marks,
        drop-append n (null_marks values) (encode_values values ++ rest) marks,
      )
      (decode_columns-encode_values 0 types values rest h)
