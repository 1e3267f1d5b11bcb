-- ===== src/Sql/Printing/Primaries.antt =====
-- internal/sqlparser/parser.go: what parsePrimary makes of a printed expression.
use eleone_sql.Common.{
  ℕ, ◌≤◌, ◌<◌, ◌≡◌, refl, sym, ◌∙◌, ap, true, false, [], ◌∷◌, arith, Option, ok,
}
use eleone_sql.Bytes.{Bytes}
use eleone_sql.Sql.{rparen, punct, Tokens}
use eleone_sql.Sql.Parser.{Parser, parse_primary, expect_punct, is_punct, parse_column}
use eleone_sql.Engine.Expr.{
  Expr, literal_expr, column_ref, binary_expr, unary_expr, count_star_expr, op_not, op_neg,
  op_unary_other, Literal, lit_int, lit_float, lit_string, lit_bool, lit_null, lit_other,
}
use eleone_sql.Sql.Printing.{
  print_expr, bare, level, op_level, IsPrintable, literal_token, column_tokens, size,
}
use eleone_sql.Sql.Printing.Numbers.{number_literal-decimal}
use eleone_sql.Sql.Printing.Levels.{front, is_punct-dot, Parses, print_expr-bare, print_expr-parens}

pub level-bounds : (e : Expr) → (1 ≤ level e) × (level e ≤ 8)
unfolding level op_level
level-bounds e = ground arith

-- What parseExpr does with less fuel: it reads what stands in parentheses.
abbrev pub ReadsInner : ℕ → Parser Expr → Type 0
ReadsInner b inner =
    (e : Expr)
    → IsPrintable e
    → size e ≤ b
    → (rest : Tokens) → front rest < 1
    → inner (print_expr 1 e rest) ≡ ok (e, rest)

module _ (parse_float : Bytes → Option ℕ) (inner : Parser Expr) (b : ℕ)
    (reads : ReadsInner b inner) where
  literal-primary :
      (l : Literal) (rest : Tokens)
      → IsPrintable (literal_expr l)
      → parse_primary parse_float inner (literal_token l ∷ rest) ≡ ok (literal_expr l, rest)
  unfolding parse_primary literal_token IsPrintable
  literal-primary (lit_int n) rest h = rw (number_literal-decimal parse_float n h) refl
  literal-primary (lit_float f) rest h = absurd h
  literal-primary (lit_string s) rest h = refl
  literal-primary (lit_bool true) rest h = refl
  literal-primary (lit_bool false) rest h = refl
  literal-primary lit_null rest h = refl
  literal-primary (lit_other s) rest h = absurd h

  column-primary :
      (table name : Bytes) (rest : Tokens)
      → front rest < 9
      → parse_primary parse_float inner (column_tokens table name rest)
        ≡ ok (column_ref table name, rest)
  unfolding parse_primary parse_column column_tokens
  column-primary [] name rest h = rw (is_punct-dot rest h, parse_column) refl
  column-primary (c ∷ s) name rest h = refl

  parens-primary :
      (e : Expr) → IsPrintable e → level e < 8 → Parses b (parse_primary parse_float inner) 8 e
  unfolding parse_primary expect_punct is_punct front
  parens-primary e pr lower small rest h =
      let inside : inner (bare e (punct rparen ∷ rest)) ≡ ok (e, punct rparen ∷ rest) =
        ap inner (sym (print_expr-bare 1 e (punct rparen ∷ rest) (level-bounds e).0))
        ∙ reads e pr (small lower) (punct rparen ∷ rest) (omega arith) in
      ap (parse_primary parse_float inner) (print_expr-parens 8 e rest lower) ∙ rw inside refl

  -- An expression that needs no parentheses anywhere, or any other one in them.
  pub parse_primary-Parses :
      (e : Expr) → IsPrintable e → Parses b (parse_primary parse_float inner) 8 e
  unfolding bare level op_level IsPrintable
  parse_primary-Parses (literal_expr l) pr small rest h =
      ap (parse_primary parse_float inner) (print_expr-bare 8 (literal_expr l) rest (omega arith))
      ∙ literal-primary l rest pr
  parse_primary-Parses (column_ref table name) pr small rest h =
      ap (parse_primary parse_float inner)
        (print_expr-bare 8 (column_ref table name) rest (omega arith))
      ∙ column-primary table name rest (omega arith)
  parse_primary-Parses (binary_expr op l r) pr small rest h =
      parens-primary (binary_expr op l r) pr (ground arith) small rest h
  parse_primary-Parses (unary_expr op_not e) pr small rest h =
      parens-primary (unary_expr op_not e) pr (omega arith) small rest h
  parse_primary-Parses (unary_expr op_neg e) pr small rest h =
      parens-primary (unary_expr op_neg e) pr (omega arith) small rest h
  parse_primary-Parses (unary_expr (op_unary_other s) e) pr small rest h = absurd pr
  parse_primary-Parses count_star_expr pr small rest h = absurd pr
