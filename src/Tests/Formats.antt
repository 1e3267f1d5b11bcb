-- ===== src/Tests/Formats.antt =====
-- The encodings of internal/util and internal/catalog on concrete values.
use eleone_sql.Common.{
  ℕ, ◌≡◌, ◌≢◌, ◌↔◌, refl, arith, List, [], ◌∷◌, ◌++◌, ok, true, false, Ordering, compare, inl, inr,
}
use eleone_sql.Common.Int.{compare_ℤ}
use eleone_sql.Bytes.{bytes_compare}
use eleone_sql.Encoding.{
  encode_int64, decode_int64, signed64, encode_uint64, decode_uint64, encode_float64,
  decode_float64, float_lt, is_nan, magnitude, is_negative,
}
use eleone_sql.Encoding.Integers.{decode-encode_int64, compare-encode_int64, encode_uint64_lem}
use eleone_sql.Encoding.Floats.{
  negative_zero, IsPositiveNan, float_order, decode-encode_float64_iff, compare-encode_float64,
  negative_zero_sorts_first,
}
use eleone_sql.Catalog.Value.{
  SqlType, integer, text, boolean, Value, null_value, int_value, text_value, bool_value, sort_key,
  compare_values,
}
use eleone_sql.Catalog.Value.Laws.{compare-sort_key}
use eleone_sql.Catalog.Row.{encode_row, decode_row}
use eleone_sql.Catalog.Row.RoundTrip.{decode_row-encode_row}
use eleone_sql.Catalog.TableDef.{TableDef, encode_table_def, decode_table_def, IsStorable}
use eleone_sql.Catalog.TableDef.RoundTrip.{decode_table_def-encode_table_def}

-- -1, as a pattern.
abbrev minus_one : ℕ
minus_one = 0xffffffffffffffff

decode-encode_int64_example : decode_int64 (encode_int64 minus_one ++ 5 ∷ []) ≡ minus_one
decode-encode_int64_example = decode-encode_int64 minus_one (5 ∷ []) (omega arith)

compare-encode_int64_example :
    bytes_compare (encode_int64 minus_one) (encode_int64 3)
    ≡ compare_ℤ (signed64 minus_one) (signed64 3)
compare-encode_int64_example = compare-encode_int64 minus_one 3 (omega arith) (omega arith)

encode_uint64_lem_example :
    (decode_uint64 (encode_uint64 300) ≡ 300)
    × (bytes_compare (encode_uint64 300) (encode_uint64 7) ≡ compare 300 7)
encode_uint64_lem_example = encode_uint64_lem 300 7 (omega arith) (omega arith)

-- -1.5 and 1.0.
abbrev below_zero : ℕ
below_zero = 0xbff8000000000000

abbrev one_float : ℕ
one_float = 0x3ff0000000000000

decode-encode_float64_iff_example :
    (decode_float64 (encode_float64 below_zero ++ 1 ∷ []) ≡ below_zero)
    ↔ ((below_zero ≢ negative_zero) × (¬ IsPositiveNan below_zero))
decode-encode_float64_iff_example = decode-encode_float64_iff below_zero (1 ∷ []) (omega arith)

below_zero_number : is_nan below_zero ≡ false
unfolding is_nan magnitude
below_zero_number = refl

one_number : is_nan one_float ≡ false
unfolding is_nan magnitude
one_number = refl

compare-encode_float64_example :
    bytes_compare (encode_float64 below_zero) (encode_float64 one_float)
    ≡ float_order below_zero one_float
compare-encode_float64_example =
    compare-encode_float64 below_zero one_float (omega arith, below_zero_number, omega arith)
      (omega arith, one_number, omega arith)

below : float_lt below_zero 0 ≡ true
unfolding float_lt is_nan is_negative magnitude
below = refl

negative_zero_sorts_first_example :
    (bytes_compare (encode_float64 negative_zero) (encode_float64 below_zero) ≡ Ordering.lt)
    × (float_lt below_zero negative_zero ≡ true)
negative_zero_sorts_first_example = negative_zero_sorts_first below_zero (omega arith) below

zero_number : is_nan 0 ≡ false
unfolding is_nan magnitude
zero_number = refl

compare-sort_key_example :
    bytes_compare (sort_key (text_value (97 ∷ []))) (sort_key (text_value (97 ∷ 98 ∷ [])))
    ≡ compare_values (λ n. n) (text_value (97 ∷ [])) (text_value (97 ∷ 98 ∷ []))
compare-sort_key_example =
    compare-sort_key (λ n. n) text (text_value (97 ∷ [])) (text_value (97 ∷ 98 ∷ []))
      (inr (97 ∷ [], omega arith, refl)) (inr (97 ∷ 98 ∷ [], omega arith, refl))
      (omega arith, zero_number, omega arith) (omega arith, zero_number, omega arith)

abbrev a_row : List Value
a_row =
    int_value minus_one ∷ text_value (104 ∷ 105 ∷ []) ∷ null_value boolean ∷ bool_value true ∷ []

abbrev a_row_types : List SqlType
a_row_types = integer ∷ text ∷ boolean ∷ boolean ∷ []

decode_row-encode_row_example : decode_row (encode_row a_row ++ 9 ∷ []) a_row_types ≡ ok a_row
decode_row-encode_row_example = decode_row-encode_row a_row_types a_row (9 ∷ []) (
  inr (minus_one, omega arith, refl),
  (inr (104 ∷ 105 ∷ [], omega arith, refl), (inl refl, (inr (true, refl), tt))),
)

abbrev a_table : TableDef
a_table = record {
  name = 116 ∷ [];
  columns =
      record {
        name = 105 ∷ 100 ∷ [];
        type = integer;
        primary_key = true;
        unique = false;
        not_null = true;
      }
      ∷ [];
  root = 4;
  next_row = 300;
  indexes = record { name = 112 ∷ []; column = 105 ∷ 100 ∷ []; unique = true; root = 5 } ∷ [];
}

a_table_fits : IsStorable a_table
a_table_fits = record {
  name_fits = omega arith;
  root_fits = omega arith;
  next_row_fits = omega arith;
  column_count = omega arith;
  index_count = omega arith;
  columns_fit = (record { name_fits = omega arith; type_known = tt }, tt);
  indexes_fit =
      (record { name_fits = omega arith; column_fits = omega arith; root_fits = omega arith }, tt);
}

decode_table_def-encode_table_def_example : decode_table_def (encode_table_def a_table) ≡ ok a_table
decode_table_def-encode_table_def_example = decode_table_def-encode_table_def a_table a_table_fits
