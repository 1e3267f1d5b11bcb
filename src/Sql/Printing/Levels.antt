-- ===== src/Sql/Printing/Levels.antt =====
-- internal/sqlparser/parser.go: what each level of the grammar makes of a printed expression.
use eleone_sql.Common.{
  ℕ, suc, ◌≤◌, ◌<◌, ◌≡◌, ◌≢◌, refl, false, ◌∷◌, ltb, arith, Option, none, some, ok, Bool-cases, inl,
  inr, lt→ltb, le→ltb, ltb→lt, ltb→le,
}
use eleone_sql.Bytes.{Bytes}
use eleone_sql.Sql.{
  rparen, lparen, kw_and, kw_or, keyword, punct, dot, eq, ne, bang_eq, lt, le, gt, ge, plus, minus,
  star, slash, Tokens,
}
use eleone_sql.Sql.Parser.{
  Parser, is_punct, or_operator, and_operator, comparison_operator, additive_operator,
  multiplicative_operator,
}
use eleone_sql.Engine.Expr.{Expr, BinaryOp, op_other}
use eleone_sql.Sql.Printing.{print_expr, wrap, bare, level, op_level, op_token, size}

-- The level of an operator in front of the tokens, 9 for a dot and 0 where there is none.
unfoldable pub front : Tokens → ℕ
front (keyword kw_or ∷ ts) = 1
front (keyword kw_and ∷ ts) = 2
front (punct eq ∷ ts) = 4
front (punct ne ∷ ts) = 4
front (punct bang_eq ∷ ts) = 4
front (punct lt ∷ ts) = 4
front (punct le ∷ ts) = 4
front (punct gt ∷ ts) = 4
front (punct ge ∷ ts) = 4
front (punct plus ∷ ts) = 5
front (punct minus ∷ ts) = 5
front (punct star ∷ ts) = 6
front (punct slash ∷ ts) = 6
front (punct dot ∷ ts) = 9
front _ = 0

pub front-op_token :
    (op : BinaryOp) (ts : Tokens)
    → ((s : Bytes) → op ≢ op_other s)
    → front (op_token op ∷ ts) ≡ op_level op
unfolding front op_token op_level
front-op_token (op_other s) ts h = absurd (h s refl)
front-op_token op ts h = refl

-- The operators of one level: nothing of a lower level is one, and the tokens of its own are.
pub record IsLevel (n : ℕ) (operator : Tokens → Option (BinaryOp × Tokens)) : Type 0 where
  pub stops : (ts : Tokens) → front ts < n → operator ts ≡ none
  pub takes :
      (op : BinaryOp) (ts : Tokens)
      → ((s : Bytes) → op ≢ op_other s)
      → op_level op ≡ n
      → operator (op_token op ∷ ts) ≡ some (op, ts)

pub or_operator-IsLevel : IsLevel 1 or_operator
unfolding or_operator front op_level op_token
or_operator-IsLevel = record { stops = λ ts h. ground arith; takes = λ op ts g h. ground arith }

pub and_operator-IsLevel : IsLevel 2 and_operator
unfolding and_operator front op_level op_token
and_operator-IsLevel = record { stops = λ ts h. ground arith; takes = λ op ts g h. ground arith }

pub comparison_operator-IsLevel : IsLevel 4 comparison_operator
unfolding comparison_operator front op_level op_token
comparison_operator-IsLevel = record { stops = λ ts h. ground arith; takes = takes_comparison }
  where
    takes_comparison :
        (op : BinaryOp) (ts : Tokens)
        → ((s : Bytes) → op ≢ op_other s)
        → op_level op ≡ 4
        → comparison_operator (op_token op ∷ ts) ≡ some (op, ts)
    takes_comparison (op_other s) ts g h = absurd (g s refl)
    takes_comparison op ts g h = ground arith

pub additive_operator-IsLevel : IsLevel 5 additive_operator
unfolding additive_operator front op_level op_token
additive_operator-IsLevel = record {
  stops = λ ts h. ground arith;
  takes = λ op ts g h. ground arith;
}

pub multiplicative_operator-IsLevel : IsLevel 6 multiplicative_operator
unfolding multiplicative_operator front op_level op_token
multiplicative_operator-IsLevel = record {
  stops = λ ts h. ground arith;
  takes = λ op ts g h. ground arith;
}

pub is_punct-dot : (ts : Tokens) → front ts < 9 → is_punct dot ts ≡ false
unfolding is_punct front
is_punct-dot ts h = ground arith

pub print_expr-suc :
    (n : ℕ) (e : Expr) (rest : Tokens)
    → level e ≢ n
    → print_expr n e rest ≡ print_expr (suc n) e rest
unfolding print_expr wrap
print_expr-suc n e rest h = elim (Bool-cases (ltb (level e) n)) [
  | inl lower ↦
      rw (lower, lt→ltb (level e) (suc n) (omega (arith, ltb→lt (level e) n lower)), print_expr)
        refl
  | inr higher ↦
      rw
        (higher, le→ltb (level e) (suc n) (omega (arith, ltb→le (level e) n higher, h)), print_expr)
        refl
]

pub print_expr-bare :
    (n : ℕ) (e : Expr) (rest : Tokens) → n ≤ level e → print_expr n e rest ≡ bare e rest
unfolding print_expr wrap
print_expr-bare n e rest h = rw (le→ltb (level e) n h, print_expr) refl

pub print_expr-parens :
    (n : ℕ) (e : Expr) (rest : Tokens)
    → level e < n
    → print_expr n e rest ≡ punct lparen ∷ bare e (punct rparen ∷ rest)
unfolding print_expr wrap
print_expr-parens n e rest h = rw (lt→ltb (level e) n h, print_expr) refl

-- The parser `p` of level `n` reads the expression, if no operator of this level or above comes behind
-- it. Only what stands in parentheses has to be of the size `b`.
abbrev pub Parses : ℕ → Parser Expr → ℕ → Expr → Type 0
Parses b p n e =
    (level e < n → size e ≤ b)
    → (rest : Tokens) → front rest < n
    → p (print_expr n e rest) ≡ ok (e, rest)
