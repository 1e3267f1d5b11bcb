-- ===== src/Sql/Printing/Heads.antt =====
-- internal/sqlparser/parser.go: which printed expressions start with NOT and with a minus.
use eleone_sql.Common.{
  ℕ, ◌≤◌, ◌≡◌, ◌≢◌, refl, ◌∙◌, ap, Bool, true, false, [], ◌∷◌, ltb, arith, Bool-cases, inl, inr,
  ltb→le, Option,
}
use eleone_sql.Bytes.{Bytes}
use eleone_sql.Sql.{kw_not, minus, keyword, punct, Tokens}
use eleone_sql.Sql.Parser.{Parser, parse_not, parse_comparison, parse_unary, parse_primary}
use eleone_sql.Engine.Expr.{
  Expr, literal_expr, column_ref, binary_expr, unary_expr, count_star_expr, BinaryOp, op_not,
  op_neg, op_unary_other, Literal, lit_bool,
}
use eleone_sql.Sql.Printing.{
  print_expr, wrap, bare, level, op_level, left_level, literal_token, column_tokens,
}
use eleone_sql.Sql.Printing.Levels.{print_expr-suc}

unfoldable starts_not : Tokens → Bool
starts_not (keyword kw_not ∷ ts) = true
starts_not _ = false

unfoldable starts_minus : Tokens → Bool
starts_minus (punct minus ∷ ts) = true
starts_minus _ = false

wrap-starts_not :
    (n m : ℕ) (body : Tokens → Tokens) (rest : Tokens)
    → (n ≤ m → starts_not (body rest) ≡ false)
    → starts_not (wrap n m body rest) ≡ false
unfolding wrap starts_not
wrap-starts_not n m body rest h = elim (Bool-cases (ltb m n)) [
  | inl lower ↦ rw (lower, wrap) refl
  | inr higher ↦ rw (higher, wrap) (h (ltb→le m n higher))
]

left_level-high : (op : BinaryOp) → 4 ≤ op_level op → 4 ≤ left_level op
unfolding left_level op_level
left_level-high op h = ground arith

literal-starts_not : (l : Literal) (rest : Tokens) → starts_not (literal_token l ∷ rest) ≡ false
unfolding starts_not literal_token
literal-starts_not (lit_bool true) rest = refl
literal-starts_not (lit_bool false) rest = refl
literal-starts_not l rest = refl

literal-starts_minus : (l : Literal) (rest : Tokens) → starts_minus (literal_token l ∷ rest) ≡ false
unfolding starts_minus literal_token
literal-starts_minus (lit_bool true) rest = refl
literal-starts_minus (lit_bool false) rest = refl
literal-starts_minus l rest = refl

bare-starts_not : (e : Expr) (rest : Tokens) → 4 ≤ level e → starts_not (bare e rest) ≡ false
unfolding bare level starts_not literal_token column_tokens
bare-starts_not (literal_expr l) rest h = literal-starts_not l rest
bare-starts_not (column_ref [] name) rest h = refl
bare-starts_not (column_ref (c ∷ s) name) rest h = refl
bare-starts_not (binary_expr op l r) rest h =
    wrap-starts_not (left_level op) (level l) (bare l) _
      λ le. bare-starts_not l _ (omega (arith, left_level-high op h))
bare-starts_not (unary_expr op_not e) rest h = absurd (omega arith)
bare-starts_not (unary_expr op_neg e) rest h = refl
bare-starts_not (unary_expr (op_unary_other s) e) rest h = refl
bare-starts_not count_star_expr rest h = refl

bare-starts_minus : (e : Expr) (rest : Tokens) → 8 ≤ level e → starts_minus (bare e rest) ≡ false
unfolding bare level starts_minus op_level column_tokens
bare-starts_minus (literal_expr l) rest h = literal-starts_minus l rest
bare-starts_minus (column_ref [] name) rest h = refl
bare-starts_minus (column_ref (c ∷ s) name) rest h = refl
bare-starts_minus (binary_expr op l r) rest h = ground arith
bare-starts_minus (unary_expr op_not e) rest h = absurd (omega arith)
bare-starts_minus (unary_expr op_neg e) rest h = absurd (omega arith)
bare-starts_minus (unary_expr (op_unary_other s) e) rest h = absurd (omega arith)
bare-starts_minus count_star_expr rest h = refl

print_expr-starts_not : (e : Expr) (rest : Tokens) → starts_not (print_expr 4 e rest) ≡ false
unfolding print_expr
print_expr-starts_not e rest = wrap-starts_not 4 (level e) (bare e) rest (bare-starts_not e rest)

print_expr-starts_minus : (e : Expr) (rest : Tokens) → starts_minus (print_expr 8 e rest) ≡ false
unfolding print_expr wrap starts_minus
print_expr-starts_minus e rest = elim (Bool-cases (ltb (level e) 8)) [
  | inl lower ↦ rw (lower, print_expr) refl
  | inr higher ↦ rw (higher, print_expr) (bare-starts_minus e rest (ltb→le (level e) 8 higher))
]

module _ (parse_float : Bytes → Option ℕ) (inner : Parser Expr) where
  parse_unary-primary :
      (ts : Tokens)
      → starts_minus ts ≡ false
      → parse_unary parse_float inner ts ≡ parse_primary parse_float inner ts
  unfolding parse_unary starts_minus
  parse_unary-primary (punct minus ∷ ts) h = cc
  parse_unary-primary ts h = refl

  parse_not-comparison :
      (fuel : ℕ) (ts : Tokens)
      → starts_not ts ≡ false
      → parse_not parse_float inner fuel ts ≡ parse_comparison parse_float inner fuel ts
  unfolding parse_not starts_not
  parse_not-comparison fuel (keyword kw_not ∷ ts) h = cc
  parse_not-comparison fuel ts h = refl

  -- At the level of the sign and of NOT, an expression of a level above is read by that level.
  pub parse_unary-print :
      (e : Expr) (rest : Tokens)
      → level e ≢ 7
      → parse_unary parse_float inner (print_expr 7 e rest)
        ≡ parse_primary parse_float inner (print_expr 8 e rest)
  parse_unary-print e rest h =
      ap (parse_unary parse_float inner) (print_expr-suc 7 e rest h)
      ∙ parse_unary-primary (print_expr 8 e rest) (print_expr-starts_minus e rest)

  pub parse_not-print :
      (fuel : ℕ) (e : Expr) (rest : Tokens)
      → level e ≢ 3
      → parse_not parse_float inner fuel (print_expr 3 e rest)
        ≡ parse_comparison parse_float inner fuel (print_expr 4 e rest)
  parse_not-print fuel e rest h =
      ap (parse_not parse_float inner fuel) (print_expr-suc 3 e rest h)
      ∙ parse_not-comparison fuel (print_expr 4 e rest) (print_expr-starts_not e rest)
