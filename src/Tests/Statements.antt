-- ===== src/Tests/Statements.antt =====
-- internal/engine on concrete expressions and rows.
use eleone_sql.Common.{
  ℕ, ◌≡◌, ◌<◌, ◌^◌, ◌↔◌, ◌||◌, refl, arith, List, [], ◌∷◌, ◌++◌, ok, All, true, false, inl, inr,
  if◌then◌else◌,
}
use eleone_sql.Bytes.{bytes_eq}
use eleone_sql.Catalog.Value.{
  integer, text, Value, null_value, int_value, text_value, bool_value, sort_key,
}
use eleone_sql.Catalog.TableDef.{TableDef, column_types, column_index, find_column}
use eleone_sql.Catalog.Row.RoundTrip.{IsRow}
use eleone_sql.Catalog.Row.{encode_row, decode_row}
use eleone_sql.Engine.{FloatOps, Tuple}
use eleone_sql.Engine.Expr
use eleone_sql.Engine.Expr.{
  Expr, literal_expr, column_ref, binary_expr, unary_expr, lit_int, lit_string, lit_null, op_add,
  op_lt, op_and, op_or, op_not, evaluate,
}
use eleone_sql.Engine.Expr.Laws.{c_lt, negate, operator, de_morgan, not-compare}
use eleone_sql.Engine.Expr.Typed.{IsTyped, evaluate-IsTyped}
use eleone_sql.Engine.Rows.{
  insert_values, updated_values, assign_values, assign_value, coerce_at, set_elem, check_not_null,
}
use eleone_sql.Engine.Rows.Stored.{decode_row-insert_values, decode_row-updated_values}
use eleone_sql.Engine.Index.{index_key, is_entry_of, fixed_integer, is_entry_of-index_key}

zero_fits : 0 < 2 ^ 64
zero_fits = omega arith

-- Float operations that all give zero, which no example needs.
abbrev no_floats : FloatOps
no_floats = record {
  add = λ a b. 0;
  sub = λ a b. 0;
  mul = λ a b. 0;
  div = λ a b. 0;
  neg = λ a. 0;
  of_int = λ a. 0;
  add-IsU64 = λ a b. zero_fits;
  sub-IsU64 = λ a b. zero_fits;
  mul-IsU64 = λ a b. zero_fits;
  div-IsU64 = λ a b. zero_fits;
  neg-IsU64 = λ a. zero_fits;
  of_int-IsU64 = λ a. zero_fits;
}

abbrev number : ℕ → Expr
number n = literal_expr (lit_int n)

abbrev no_value : Expr
no_value = literal_expr lit_null

de_morgan_example :
    evaluate no_floats []
      (unary_expr op_not (binary_expr op_and (number 1) (column_ref [] (120 ∷ []))))
    ≡ evaluate no_floats [] (
        binary_expr op_or
          (unary_expr op_not (number 1))
          (unary_expr op_not (column_ref [] (120 ∷ []))))
de_morgan_example = de_morgan no_floats [] (number 1) (column_ref [] (120 ∷ []))

gives_one : evaluate no_floats [] (number 1) ≡ ok (int_value 1)
unfolding evaluate Expr.literal_value
gives_one = refl

gives_null : evaluate no_floats [] no_value ≡ ok (null_value text)
unfolding evaluate Expr.literal_value
gives_null = refl

not-compare_example :
    evaluate no_floats [] (unary_expr op_not (binary_expr (operator c_lt) (number 1) no_value)) ≡ (
      if (int_value 1).null || (null_value text).null
      then ok (bool_value true)
      else evaluate no_floats [] (binary_expr (operator (negate c_lt)) (number 1) no_value))
not-compare_example =
    not-compare no_floats [] c_lt (number 1) no_value (int_value 1) (null_value text) gives_one
      gives_null

-- A table with an integer and a text column, and a row of it.
abbrev a_table : TableDef
a_table = record {
  name = 116 ∷ [];
  columns =
      record {
        name = 105 ∷ [];
        type = integer;
        primary_key = false;
        unique = false;
        not_null = true;
      }
      ∷ record {
        name = 115 ∷ [];
        type = text;
        primary_key = false;
        unique = false;
        not_null = false;
      }
      ∷ [];
  root = 4;
  next_row = 1;
  indexes = [];
}

abbrev a_row : List Value
a_row = int_value 7 ∷ null_value text ∷ []

abbrev a_tuple : Tuple
a_tuple = record { alias = 116 ∷ []; table = a_table; values = a_row } ∷ []

a_tuple-IsTyped : All IsTyped a_row
a_tuple-IsTyped = (inr (7, omega arith, refl), (inl refl, tt))

abbrev next_number : Expr
next_number = binary_expr op_add (column_ref [] (105 ∷ [])) (number 1)

gives_next : evaluate no_floats a_tuple next_number ≡ ok (int_value 8)
unfolding evaluate Expr.literal_value Expr.resolve Expr.resolve_from Expr.position_in column_index
    find_column bytes_eq Expr.eval_binary Expr.apply_op Expr.arith_values Expr.int_arith
    Expr.is_float
gives_next = refl

evaluate-IsTyped_example : IsTyped (int_value 8)
evaluate-IsTyped_example =
    evaluate-IsTyped no_floats a_tuple next_number (int_value 8) (a_tuple-IsTyped, tt)
      (tt, omega arith) gives_next

inserted :
    insert_values no_floats a_table
      (1 ∷ 0 ∷ [])
      (literal_expr (lit_string (104 ∷ [])) ∷ number 5 ∷ [])
    ≡ ok (int_value 5 ∷ text_value (104 ∷ []) ∷ [])
unfolding insert_values assign_values assign_value coerce_at set_elem check_not_null evaluate
    Expr.literal_value Expr.coerce Expr.same_type
inserted = refl

decode_row-insert_values_example :
    decode_row (encode_row (int_value 5 ∷ text_value (104 ∷ []) ∷ []) ++ []) (column_types a_table)
    ≡ ok (int_value 5 ∷ text_value (104 ∷ []) ∷ [])
decode_row-insert_values_example =
    decode_row-insert_values no_floats a_table (1 ∷ 0 ∷ [])
      (literal_expr (lit_string (104 ∷ [])) ∷ number 5 ∷ [])
      (int_value 5 ∷ text_value (104 ∷ []) ∷ []) [] (omega arith, (omega arith, tt)) inserted

updated :
    updated_values no_floats a_table a_tuple (0 ∷ []) (next_number ∷ []) a_row
    ≡ ok (int_value 8 ∷ null_value text ∷ [])
unfolding updated_values assign_values assign_value coerce_at set_elem check_not_null Expr.coerce
    Expr.same_type evaluate Expr.literal_value Expr.resolve Expr.resolve_from Expr.position_in
    column_index find_column bytes_eq Expr.eval_binary Expr.apply_op Expr.arith_values
    Expr.int_arith Expr.is_float
updated = refl

a_row_fits : IsRow (column_types a_table) a_row
unfolding column_types
a_row_fits = (inr (7, omega arith, refl), (inl refl, tt))

decode_row-updated_values_example :
    decode_row (encode_row (int_value 8 ∷ null_value text ∷ []) ++ []) (column_types a_table)
    ≡ ok (int_value 8 ∷ null_value text ∷ [])
decode_row-updated_values_example =
    decode_row-updated_values no_floats a_table a_tuple (0 ∷ []) (next_number ∷ []) a_row
      (int_value 8 ∷ null_value text ∷ []) [] (a_tuple-IsTyped, tt) ((tt, omega arith), tt)
      a_row_fits updated

is_entry_of-index_key_example :
    (is_entry_of (int_value 5) (index_key (int_value 6) (1 ∷ [])) ≡ true)
    ↔ (sort_key (int_value 5) ≡ sort_key (int_value 6))
is_entry_of-index_key_example =
    is_entry_of-index_key fixed_integer (int_value 5) (int_value 6) (1 ∷ [])
      (inr (5, omega arith, refl)) (inr (6, omega arith, refl))
