-- ===== src/Tests/Parsing.antt =====
-- internal/sqlparser on small statements.
use eleone_sql.Common.{
  false, ℕ, ◌-◌, Bool, ◌&&◌, ◌||◌, ◌≡◌, ◌≢◌, ◌≤◌, ◌<◌, refl, arith, leb, ◌==◌, if◌then◌else◌, [],
  ◌∷◌, map, Option, none, some, ok, err,
}
use eleone_sql.Bytes.{Bytes, bytes_eq}
use eleone_sql.Engine.Expr.{
  Expr, literal_expr, column_ref, binary_expr, unary_expr, lit_int, op_or, op_and, op_eq, op_lt,
  op_sub, op_mul, op_not, op_neg,
}
use eleone_sql.Sql.{
  string_text, find_keyword, keyword_text, codes, kw_delete, kw_from, kw_where, ident, keyword,
  punct, semicolon,
}
use eleone_sql.Sql.Lexer.{
  Unicode, LexError, tokenize, tokens_of, next_token, skip_space, scan_while, starts_comment,
  scan_token, scan_string, scan_number, scan_word, scan_quoted, is_operator, scan_operator,
  short_operator, long_operator, punct_of, is_number_part, is_word_part,
}
use eleone_sql.Sql.Parser.{
  out_of_fuel, parse_expr, is_keyword, is_punct, punct_code, expect_keyword, expect_punct,
  expect_ident, skip_punct, parse_or, parse_and, parse_not, parse_comparison, compare_with,
  parse_additive, parse_multiplicative, parse_unary, parse_primary, parse_level, operator_loop,
  or_operator, and_operator, comparison_operator, additive_operator, multiplicative_operator,
  parse_column, number_literal, has_dot, parse_int, digits_value,
}
use eleone_sql.Sql.Schema.{delete}
use eleone_sql.Sql.Statements.{parse, parse_tokens, parse_statement, parse_delete}
use eleone_sql.Sql.Queries.{parse_where}
use eleone_sql.Sql.Fuel.Statements.{parse-ends}
use eleone_sql.Sql.Printing.{size, print_expr, IsPrintable}
use eleone_sql.Sql.Printing.Levels.{front}
use eleone_sql.Sql.Printing.RoundTrip.{parse_expr-print}
use eleone_sql.Sql.Printing.Strings.{quoted, tokenize-quoted}
use eleone_sql.Sql.Printing.Deletes.{parse_tokens-delete}

-- ASCII alone.
abbrev is_lower : ℕ → Bool
is_lower c = leb b'a' c && leb c b'z'

abbrev ascii : Unicode
ascii = record {
  is_space = λ c. c == b' ' || c == b'\n';
  is_digit = λ c. leb b'0' c && leb c b'9';
  is_letter = λ c. is_lower c || (leb b'A' c && leb c b'Z');
  to_upper = map (λ c. if is_lower c then c - 32 else c);
}

abbrev no_floats_read : Bytes → Option ℕ
no_floats_read s = none

abbrev source : Bytes
source = codes "DELETE FROM t WHERE NOT (a = 1 OR b - 2 < 3) AND -c * 4 = 5;"

parse-ends_example :
    (tokenize ascii source ≢ err LexError.out_of_fuel)
    × (parse no_floats_read ascii source ≢ err out_of_fuel)
parse-ends_example = parse-ends no_floats_read ascii source

-- NOT (a = 1 OR b - 2 < 3) AND -c * 4 = 5
abbrev condition : Expr
condition =
    binary_expr op_and
      (unary_expr op_not (
        binary_expr op_or (binary_expr op_eq (column_ref [] (codes "a")) (literal_expr (lit_int 1)))
          (binary_expr op_lt
            (binary_expr op_sub (column_ref [] (codes "b")) (literal_expr (lit_int 2)))
            (literal_expr (lit_int 3)))))
      (binary_expr op_eq
        (binary_expr op_mul (unary_expr op_neg (column_ref [] (codes "c")))
          (literal_expr (lit_int 4)))
        (literal_expr (lit_int 5)))

condition-IsPrintable : IsPrintable condition
unfolding IsPrintable
condition-IsPrintable =
    (((tt, omega arith), ((tt, omega arith), omega arith)), ((tt, omega arith), omega arith))

condition-size : size condition ≤ 20
unfolding size
condition-size = omega arith

nothing_behind : front [] < 1
unfolding front
nothing_behind = omega arith

parse_expr-print_example :
    parse_expr no_floats_read 20 (print_expr 1 condition []) ≡ ok (condition, [])
parse_expr-print_example =
    parse_expr-print no_floats_read 20 condition [] condition-IsPrintable condition-size
      nothing_behind

parse_tokens-delete_example :
    parse_tokens no_floats_read (
      keyword kw_delete
      ∷ (keyword kw_from
          ∷ (ident (codes "t")
              ∷ (keyword kw_where ∷ print_expr 1 condition (punct semicolon ∷ [])))))
    ≡ ok (delete (codes "t") (some condition))
parse_tokens-delete_example =
    parse_tokens-delete no_floats_read (codes "t") condition condition-IsPrintable

-- The source text is read as what the condition is printed as.
parsed_source : parse no_floats_read ascii source ≡ ok (delete (codes "t") (some condition))
unfolding parse tokenize tokens_of next_token skip_space scan_while starts_comment scan_token
    scan_string scan_number scan_word scan_quoted is_operator scan_operator short_operator
    long_operator punct_of is_number_part is_word_part find_keyword keyword_text bytes_eq
    parse_tokens parse_statement parse_delete parse_where is_keyword is_punct punct_code
    expect_keyword expect_punct expect_ident skip_punct parse_expr parse_or parse_and parse_not
    parse_comparison compare_with parse_additive parse_multiplicative parse_unary parse_primary
    parse_level operator_loop or_operator and_operator comparison_operator additive_operator
    multiplicative_operator parse_column number_literal has_dot parse_int digits_value
parsed_source = refl

no_space : ascii.is_space b'\'' ≡ false
no_space = refl

tokenize-quoted_example :
    tokenize ascii (quoted (codes "it's")) ≡ ok (string_text (codes "it's") ∷ [])
tokenize-quoted_example = tokenize-quoted ascii (codes "it's") no_space
