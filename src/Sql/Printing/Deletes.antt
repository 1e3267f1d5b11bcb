-- ===== src/Sql/Printing/Deletes.antt =====
-- internal/sqlparser/parser.go: Parse on a DELETE whose condition is a printed expression.
use eleone_sql.Common.{
  ℕ, suc, ◌+◌, ◌≤◌, ◌≡◌, refl, [], ◌∷◌, ltb, arith, Option, some, ok, Bool-cases, inl, inr, length,
}
use eleone_sql.Bytes.{Bytes, bytes_eq}
use eleone_sql.Sql.{kw_delete, kw_from, kw_where, Punct, semicolon, ident, keyword, punct, Tokens}
use eleone_sql.Engine.Expr.{
  Expr, literal_expr, column_ref, binary_expr, unary_expr, count_star_expr, op_not, op_neg,
  op_unary_other,
}
use eleone_sql.Sql.Schema.{delete}
use eleone_sql.Sql.Statements.{parse_tokens, parse_statement, parse_delete}
use eleone_sql.Sql.Queries.{parse_where}
use eleone_sql.Sql.Parser.{is_keyword, is_punct, expect_keyword, expect_ident, skip_punct}
use eleone_sql.Sql.Printing.Levels.{front}
use eleone_sql.Sql.Printing.{
  print_expr, bare, wrap, column_tokens, level, op_level, left_level, op_token, IsPrintable, size,
}
use eleone_sql.Sql.Printing.RoundTrip.{parse_expr-print}

length-wrap :
    (n m k : ℕ) (body : Tokens → Tokens) (rest : Tokens)
    → ((ts : Tokens) → k + length ts ≤ length (body ts))
    → k + length rest ≤ length (wrap n m body rest)
unfolding wrap
length-wrap n m k body rest h = elim (Bool-cases (ltb m n)) [
  | inl lower ↦ rw (lower, wrap) (omega (arith, h (punct Punct.rparen ∷ rest)))
  | inr higher ↦ rw (higher, wrap) (h rest)
]

-- Every node of an expression is at least one token.
length-bare : (e : Expr) (rest : Tokens) → size e + length rest ≤ length (bare e rest)
unfolding size bare column_tokens
length-bare (literal_expr l) rest = omega arith
length-bare (column_ref [] name) rest = omega arith
length-bare (column_ref (c ∷ s) name) rest = omega arith
length-bare (binary_expr op l r) rest =
    let behind : Tokens = op_token op ∷ wrap (suc (op_level op)) (level r) (bare r) rest in
    omega (
      arith,
      length-wrap (left_level op) (level l) (size l) (bare l) behind (length-bare l),
      length-wrap (suc (op_level op)) (level r) (size r) (bare r) rest (length-bare r),
    )
length-bare (unary_expr op_not e) rest =
    omega (arith, length-wrap 3 (level e) (size e) (bare e) rest (length-bare e))
length-bare (unary_expr op_neg e) rest =
    omega (arith, length-wrap 7 (level e) (size e) (bare e) rest (length-bare e))
length-bare (unary_expr (op_unary_other s) e) rest =
    omega (arith, length-wrap 7 (level e) (size e) (bare e) rest (length-bare e))
length-bare count_star_expr rest = omega arith

length-print_expr : (e : Expr) (rest : Tokens) → size e + length rest ≤ length (print_expr 1 e rest)
unfolding print_expr
length-print_expr e rest = length-wrap 1 (level e) (size e) (bare e) rest (length-bare e)

-- The parser makes of the tokens of DELETE FROM a table WHERE a printed condition, with a
-- semicolon, exactly that statement, for every condition without a float literal and without COUNT
-- whose integers are below 2^63.
pub parse_tokens-delete :
    (parse_float : Bytes → Option ℕ) (table : Bytes) (e : Expr)
    → IsPrintable e
    → parse_tokens parse_float (
        keyword kw_delete
        ∷ (keyword kw_from
            ∷ (ident table ∷ (keyword kw_where ∷ print_expr 1 e (punct semicolon ∷ [])))))
      ≡ ok (delete table (some e))
unfolding parse_tokens parse_statement parse_delete parse_where front is_keyword is_punct
    expect_keyword expect_ident skip_punct bytes_eq
parse_tokens-delete parse_float table e pr =
    rw
      (
        parse_expr-print parse_float
            (suc (suc (suc (suc (suc (length (print_expr 1 e (punct semicolon ∷ [])))))))) e
            (punct semicolon ∷ []) pr (omega (arith, length-print_expr e (punct semicolon ∷ [])))
            (omega arith),
        parse_tokens,
      )
      refl
