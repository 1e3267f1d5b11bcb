-- ===== src/Tests/Queries.antt =====
-- internal/engine/select.go and scan.go on a table of two rows.
use eleone_sql.Common.{
  ◌<◌, ◌≡◌, ◌≤◌, ◌%◌, ◌^◌, refl, arith, List, [], ◌∷◌, map, some, none, ok, err, All, true, false,
  inr, length,
}
use eleone_sql.Bytes.{put_be, get_be, be_value}
use eleone_sql.Catalog.Value.{integer, int_value}
use eleone_sql.Catalog.Row.{
  encode_row, encode_values, encode_value, decode_row, decode_columns, decode_value,
}
use eleone_sql.Catalog.Row.RoundTrip.{IsRow}
use eleone_sql.Catalog.TableDef.{TableDef, column_types}
use eleone_sql.Engine.{FloatOps, Tuple, key_not_found}
use eleone_sql.Engine.Expr.{Expr, literal_expr, column_ref, binary_expr, lit_int, op_lt}
use eleone_sql.Engine.Scan
use eleone_sql.Txn.Targets.{
  index_target, resolve_target, resolve_target-IsResolved, IsResolved, table_target,
}
use eleone_sql.Engine.Scan.{KeyedRow, Reader, fetch_all_rows}
use eleone_sql.Engine.Scan.Stored.{entry, fetch_all_rows-entry}
use eleone_sql.Engine.Select
use eleone_sql.Engine.Select.{SelectStmt, Rows, exec_select, filter_tuples, passes, count_alias}
use eleone_sql.Engine.Select.Laws.{
  filter_tuples-IsSelection, IsSelection, exec_select-limit, exec_select-count,
}

zero_word : 0 < 2 ^ 64
zero_word = omega arith

-- Float operations that all give zero, which no example needs.
abbrev zero_floats : FloatOps
zero_floats = record {
  add = λ a b. 0;
  sub = λ a b. 0;
  mul = λ a b. 0;
  div = λ a b. 0;
  neg = λ a. 0;
  of_int = λ a. 0;
  add-IsU64 = λ a b. zero_word;
  sub-IsU64 = λ a b. zero_word;
  mul-IsU64 = λ a b. zero_word;
  div-IsU64 = λ a b. zero_word;
  neg-IsU64 = λ a. zero_word;
  of_int-IsU64 = λ a. zero_word;
}

-- A table with one integer column and two rows.
abbrev numbers : TableDef
numbers = record {
  name = 110 ∷ [];
  columns =
      record {
        name = 105 ∷ [];
        type = integer;
        primary_key = false;
        unique = false;
        not_null = true;
      }
      ∷ [];
  root = 4;
  next_row = 3;
  indexes = [];
}

abbrev two_rows : List KeyedRow
two_rows = (1 ∷ [], int_value 7 ∷ []) ∷ (2 ∷ [], int_value 300 ∷ []) ∷ []

abbrev reader : Reader
reader = record { cursor = λ t k. ok (map entry two_rows); get = λ t k. err key_not_found }

two_rows_fit : All (λ k. IsRow (column_types numbers) k.1) two_rows
unfolding column_types
two_rows_fit = ((inr (7, omega arith, refl), tt), ((inr (300, omega arith, refl), tt), tt))

fetch_all_rows-entry_example : fetch_all_rows reader numbers ≡ ok two_rows
fetch_all_rows-entry_example = fetch_all_rows-entry reader numbers two_rows two_rows_fit refl

abbrev small : Expr
small = binary_expr op_lt (column_ref [] (105 ∷ [])) (literal_expr (lit_int 100))

abbrev seven_tuple : Tuple
seven_tuple = record { alias = 110 ∷ []; table = numbers; values = int_value 7 ∷ [] } ∷ []

abbrev many_tuple : Tuple
many_tuple = record { alias = 110 ∷ []; table = numbers; values = int_value 300 ∷ [] } ∷ []

filter_tuples-IsSelection_example :
    IsSelection zero_floats small
      (seven_tuple ∷ many_tuple ∷ [])
      (filter_tuples zero_floats small (seven_tuple ∷ many_tuple ∷ []))
filter_tuples-IsSelection_example =
    filter_tuples-IsSelection zero_floats small (seven_tuple ∷ many_tuple ∷ [])

-- SELECT * FROM n LIMIT 1.
abbrev first_row : SelectStmt
first_row = record {
  items = [];
  star = true;
  table = 110 ∷ [];
  alias = 110 ∷ [];
  joins = [];
  where_expr = none;
  order_by = [];
  limit = some 1;
}

abbrev first_output : Rows
first_output = record { columns = (105 ∷ []) ∷ []; rows = (int_value 7 ∷ []) ∷ [] }

abbrev both_output : Rows
both_output = record {
  columns = (105 ∷ []) ∷ [];
  rows = (int_value 7 ∷ []) ∷ (int_value 300 ∷ []) ∷ [];
}

selects_first : exec_select zero_floats reader (λ t. some numbers) first_row ≡ ok first_output
unfolding exec_select count_alias Select.select_tuples Select.base_where Select.join_all
    Select.one_binding Select.select_output Select.select_columns Select.join_columns
    Select.project_all Select.project_tuple Select.star_row Select.limited Select.sort_tuples
    Select.insert_tuple Select.less Scan.load_rows fetch_all_rows Scan.decode_entries Scan.decoded
    encode_row encode_values encode_value decode_row decode_columns decode_value column_types put_be
    get_be be_value
selects_first = refl

selects_both :
    exec_select zero_floats reader
      (λ t. some numbers)
      (record first_row { star = true; items = []; limit = none })
    ≡ ok both_output
unfolding exec_select count_alias Select.select_tuples Select.base_where Select.join_all
    Select.one_binding Select.select_output Select.select_columns Select.join_columns
    Select.project_all Select.project_tuple Select.star_row Select.limited Select.sort_tuples
    Select.insert_tuple Select.less Scan.load_rows fetch_all_rows Scan.decode_entries Scan.decoded
    encode_row encode_values encode_value decode_row decode_columns decode_value column_types put_be
    get_be be_value
selects_both = refl

no_count : count_alias [] ≡ none
unfolding count_alias
no_count = refl

exec_select-limit_example : length first_output.rows ≤ 1
exec_select-limit_example =
    exec_select-limit zero_floats reader (λ t. some numbers) first_row 1 first_output refl no_count
      selects_first

exec_select-count_example :
    exec_select zero_floats reader
      (λ t. some numbers)
      (record first_row {
        star = false;
        items = record { expr = Expr.count_star_expr; alias = 99 ∷ [] } ∷ [];
      })
    ≡ ok (record {
      columns = (99 ∷ []) ∷ [];
      rows = (int_value (length both_output.rows % 2 ^ 64) ∷ []) ∷ [];
    })
exec_select-count_example =
    exec_select-count zero_floats reader (λ t. some numbers) first_row (99 ∷ []) both_output
      selects_both

resolve_target-IsResolved_example :
    IsResolved
      (105 ∷ [])
      (some numbers)
      (resolve_target (λ t. some numbers) (table_target (110 ∷ [])))
      (resolve_target (λ t. some numbers) (index_target (110 ∷ []) (105 ∷ [])))
resolve_target-IsResolved_example =
    resolve_target-IsResolved (λ t. some numbers) (110 ∷ []) (105 ∷ []) (omega arith, tt)
