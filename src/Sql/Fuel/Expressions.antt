-- ===== src/Sql/Fuel/Expressions.antt =====
-- internal/sqlparser/parser.go: the fuel of expressions.
use eleone_sql.Common.{
  ℕ, zero, suc, ◌<◌, ◌≤◌, ◌≡◌, arith, ◌∷◌, length, Option, none, some, Option-cases, err,
  Bool-cases, inl, inr,
}
use eleone_sql.Bytes.{Bytes}
use eleone_sql.Engine.Expr.{Expr, BinaryOp, binary_expr}
use eleone_sql.Sql.{
  kw_not, kw_null, kw_true, kw_false, Punct, rparen, dot, ident, number, string_text, keyword,
  punct, Tokens,
}
use eleone_sql.Sql.Parser.{
  unexpected_token, Parser, is_punct, advance, or_operator, and_operator, comparison_operator,
  additive_operator, multiplicative_operator, operator_loop, parse_level, parse_column,
  literal_or_fail, number_literal, parse_primary, parse_unary, parse_multiplicative, parse_additive,
  compare_with, parse_comparison, parse_not, parse_and, parse_or, parse_expr,
}
use eleone_sql.Sql.Fuel.{
  Leaves, consumed, rejected, Reads, Keeps, Leaves-le, Leaves-onward, Reads-then, Reads→Keeps,
  pure-Keeps, advance_punct, expect_punct-Reads, expect_ident-Reads,
}

-- An operator is a token that is read.
abbrev Takes : (Tokens → Option (BinaryOp × Tokens)) → Type 0
Takes operator =
    (ts : Tokens) (op : BinaryOp) (rest : Tokens)
    → operator ts ≡ some (op, rest)
    → length rest < length ts

or_operator-Takes : Takes or_operator
unfolding or_operator
or_operator-Takes ts op rest e = ground arith

and_operator-Takes : Takes and_operator
unfolding and_operator
and_operator-Takes ts op rest e = ground arith

comparison_operator-Takes : Takes comparison_operator
unfolding comparison_operator
comparison_operator-Takes ts op rest e = ground arith

additive_operator-Takes : Takes additive_operator
unfolding additive_operator
additive_operator-Takes ts op rest e = ground arith

multiplicative_operator-Takes : Takes multiplicative_operator
unfolding multiplicative_operator
multiplicative_operator-Takes ts op rest e = ground arith

module _ (operator : Tokens → Option (BinaryOp × Tokens)) (takes : Takes operator)
    (operand : Parser Expr) where
  operator_loop-Leaves :
      (b fuel : ℕ) (left : Expr) (ts : Tokens)
      → Reads b operand
      → length ts < b
      → length ts < fuel
      → Leaves (suc (length ts)) (operator_loop operator operand fuel left ts)
  unfolding operator_loop
  operator_loop-Leaves b zero left ts h lt lf = absurd (omega arith)
  operator_loop-Leaves b (suc fuel) left ts h lt lf = elim (Option-cases (operator ts)) [
    | inl e ↦ rw (e, operator_loop) (consumed (omega arith))
    | inr ((op, rest), e) ↦
        let shorter = takes ts op rest e in
        rw (e, operator_loop)
          (Leaves-onward (h rest (omega arith)) λ right rest' le.
            Leaves-le
              (operator_loop-Leaves b fuel (binary_expr op left right) rest' h (omega arith)
                (omega arith))
              (omega arith))
  ]

  parse_level-Reads :
      (b fuel : ℕ) → b ≤ suc fuel → Reads b operand → Reads b (parse_level operator operand fuel)
  unfolding parse_level
  parse_level-Reads b fuel le h ts lt = Leaves-onward (h ts lt) λ left rest lt'.
      Leaves-le (operator_loop-Leaves b fuel left rest h (omega arith) (omega arith)) (omega arith)

parse_column-Keeps : (b : ℕ) (name : Bytes) → Keeps b (parse_column name)
unfolding parse_column
parse_column-Keeps b name ts lt = elim (Bool-cases (is_punct dot ts)) [
  | inr h ↦ rw (h, parse_column) (consumed (omega arith))
  | inl h ↦
      rw (h, parse_column)
        (Leaves-onward (expect_ident-Reads b (advance ts) (omega (arith, advance_punct dot ts h)))
          λ col rest le. consumed (omega (arith, advance_punct dot ts h)))
]

literal_or_fail-Leaves :
    (o : Option Expr) (ts : Tokens) → Leaves (suc (length ts)) (literal_or_fail o ts)
literal_or_fail-Leaves none ts = rejected (λ e. cc)
literal_or_fail-Leaves (some x) ts = consumed (omega arith)

unexpected : {n : ℕ} (ts : Tokens) → Leaves {A = Expr} n (err (unexpected_token ts))
unexpected ts = rejected (λ e. cc)

module _ (parse_float : Bytes → Option ℕ) (inner : Parser Expr) (b : ℕ) (h : Reads b inner) where
  parse_primary-Reads : Reads (suc b) (parse_primary parse_float inner)
  unfolding parse_primary
  parse_primary-Reads (number text ∷ ts) lt =
      literal_or_fail-Leaves (number_literal parse_float text) ts
  parse_primary-Reads (string_text s ∷ ts) lt = consumed (omega arith)
  parse_primary-Reads (keyword kw_null ∷ ts) lt = consumed (omega arith)
  parse_primary-Reads (keyword kw_true ∷ ts) lt = consumed (omega arith)
  parse_primary-Reads (keyword kw_false ∷ ts) lt = consumed (omega arith)
  parse_primary-Reads (punct Punct.lparen ∷ ts) lt =
      Leaves-le
        (Reads-then b h
          (λ e. Reads→Keeps b _ (Reads-then b (expect_punct-Reads b rparen) (λ u. pure-Keeps b e)))
          ts (omega arith))
        (omega arith)
  parse_primary-Reads (ident name ∷ ts) lt = parse_column-Keeps b name ts (omega arith)
  parse_primary-Reads ts lt = unexpected ts

  parse_unary-Reads : Reads (suc b) (parse_unary parse_float inner)
  unfolding parse_unary
  parse_unary-Reads (punct Punct.minus ∷ ts) lt =
      Leaves-onward (parse_unary-Reads ts (omega arith)) λ e rest le. consumed (omega arith)
  parse_unary-Reads ts lt = parse_primary-Reads ts lt

  module _ (fuel : ℕ) (enough : b ≤ fuel) where
    parse_multiplicative-Reads : Reads (suc b) (parse_multiplicative parse_float inner fuel)
    unfolding parse_multiplicative
    parse_multiplicative-Reads =
        parse_level-Reads multiplicative_operator multiplicative_operator-Takes
          (parse_unary parse_float inner) (suc b) fuel (omega arith) parse_unary-Reads

    parse_additive-Reads : Reads (suc b) (parse_additive parse_float inner fuel)
    unfolding parse_additive
    parse_additive-Reads =
        parse_level-Reads additive_operator additive_operator-Takes
          (parse_multiplicative parse_float inner fuel) (suc b) fuel (omega arith)
          parse_multiplicative-Reads

    compare_with-Keeps : (left : Expr) → Keeps (suc b) (compare_with parse_float inner fuel left)
    unfolding compare_with
    compare_with-Keeps left ts lt = elim (Option-cases (comparison_operator ts)) [
      | inl e ↦ rw (e, compare_with) (consumed (omega arith))
      | inr ((op, rest), e) ↦
          let shorter = comparison_operator-Takes ts op rest e in
          rw (e, compare_with)
            (Leaves-onward (parse_additive-Reads rest (omega arith))
              λ right rest' le. consumed (omega arith))
    ]

    parse_comparison-Reads : Reads (suc b) (parse_comparison parse_float inner fuel)
    unfolding parse_comparison
    parse_comparison-Reads = Reads-then (suc b) parse_additive-Reads compare_with-Keeps

    parse_not-Reads : Reads (suc b) (parse_not parse_float inner fuel)
    unfolding parse_not
    parse_not-Reads (keyword kw_not ∷ ts) lt =
        Leaves-onward (parse_not-Reads ts (omega arith)) λ e rest le. consumed (omega arith)
    parse_not-Reads ts lt = parse_comparison-Reads ts lt

    parse_and-Reads : Reads (suc b) (parse_and parse_float inner fuel)
    unfolding parse_and
    parse_and-Reads =
        parse_level-Reads and_operator and_operator-Takes (parse_not parse_float inner fuel) (suc b)
          fuel (omega arith) parse_not-Reads

    parse_or-Reads : Reads (suc b) (parse_or parse_float inner fuel)
    unfolding parse_or
    parse_or-Reads =
        parse_level-Reads or_operator or_operator-Takes (parse_and parse_float inner fuel) (suc b)
          fuel (omega arith) parse_and-Reads

-- On an input of fewer tokens than its fuel, parseExpr reads an expression of one token at least or
-- fails with an error of the program.
pub parse_expr-Reads :
    (parse_float : Bytes → Option ℕ) (fuel : ℕ) → Reads fuel (parse_expr parse_float fuel)
unfolding parse_expr
parse_expr-Reads parse_float zero ts lt = absurd (omega arith)
parse_expr-Reads parse_float (suc fuel) ts lt =
    parse_or-Reads parse_float (parse_expr parse_float fuel) fuel
      (parse_expr-Reads parse_float fuel) (suc fuel) (omega arith) ts lt
