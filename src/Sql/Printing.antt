-- ===== src/Sql/Printing.antt =====
-- How an expression is written: the tokens from which internal/sqlparser/parser.go reads it, with
-- parentheses only where the grammar asks for them.
pub mod Numbers
pub mod Strings
pub mod Levels
pub mod Heads
pub mod Primaries
pub mod Shapes
pub mod Chains
pub mod RoundTrip
pub mod Deletes
use eleone_sql.Common.{
  ℕ, zero, suc, ◌+◌, ◌*◌, ◌/◌, ◌%◌, ◌^◌, ◌<◌, Bool, true, false, [], ◌∷◌, ltb, if◌then◌else◌,
}
use eleone_sql.Bytes.{Bytes}
use eleone_sql.Engine.Expr.{
  Expr, literal_expr, column_ref, binary_expr, unary_expr, count_star_expr, BinaryOp, op_eq, op_ne,
  op_lt, op_le, op_gt, op_ge, op_and, op_or, op_add, op_sub, op_mul, op_div, op_other, UnaryOp,
  op_not, op_neg, op_unary_other, Literal, lit_int, lit_float, lit_string, lit_bool, lit_null,
  lit_other,
}
use eleone_sql.Sql.{
  kw_and, kw_or, kw_not, kw_null, kw_true, kw_false, lparen, rparen, dot, eq, ne, lt, le, gt, ge,
  plus, minus, star, slash, Token, ident, number, string_text, keyword, punct, Tokens,
}

-- The decimal digits of a number, in front of a text.
unfoldable pub digits_onto : ℕ → ℕ → Bytes → Bytes
digits_onto zero n s = s
digits_onto (suc fuel) n s =
    if ltb n 10 then (b'0' + n) ∷ s else digits_onto fuel (n / 10) ((b'0' + n % 10) ∷ s)

unfoldable pub decimal : ℕ → Bytes
unfolding digits_onto
decimal n = digits_onto (suc n) n []

-- The levels of the grammar, from 1 for OR to 7 for the sign; 8 is for what needs no parentheses.
unfoldable pub op_level : BinaryOp → ℕ
op_level op_or = 1
op_level op_and = 2
op_level op_add = 5
op_level op_sub = 5
op_level op_mul = 6
op_level op_div = 6
op_level _ = 4

unfoldable pub level : Expr → ℕ
unfolding op_level
level (binary_expr op l r) = op_level op
level (unary_expr op_not e) = 3
level (unary_expr _ e) = 7
level _ = 8

-- The level that the left operand is read at: comparisons do not chain.
unfoldable pub left_level : BinaryOp → ℕ
left_level op_or = 1
left_level op_and = 2
left_level op_add = 5
left_level op_sub = 5
left_level op_mul = 6
left_level op_div = 6
left_level _ = 5

unfoldable pub op_token : BinaryOp → Token
op_token op_eq = punct eq
op_token op_ne = punct ne
op_token op_lt = punct lt
op_token op_le = punct le
op_token op_gt = punct gt
op_token op_ge = punct ge
op_token op_and = keyword kw_and
op_token op_or = keyword kw_or
op_token op_add = punct plus
op_token op_sub = punct minus
op_token op_mul = punct star
op_token op_div = punct slash
op_token (op_other s) = ident s

unfoldable pub literal_token : Literal → Token
unfolding decimal
literal_token (lit_int n) = number (decimal n)
literal_token (lit_float f) = number []
literal_token (lit_string s) = string_text s
literal_token (lit_bool true) = keyword kw_true
literal_token (lit_bool false) = keyword kw_false
literal_token lit_null = keyword kw_null
literal_token (lit_other s) = ident s

unfoldable pub column_tokens : Bytes → Bytes → Tokens → Tokens
column_tokens [] name rest = ident name ∷ rest
column_tokens (c ∷ s) name rest = ident (c ∷ s) ∷ (punct dot ∷ (ident name ∷ rest))

-- `body` in parentheses where its level is below the wanted one.
unfoldable pub wrap : ℕ → ℕ → (Tokens → Tokens) → Tokens → Tokens
wrap wanted has body rest =
    if ltb has wanted then punct lparen ∷ body (punct rparen ∷ rest) else body rest

-- The tokens of an expression without parentheses around it, in front of `rest`.
unfoldable pub bare : Expr → Tokens → Tokens
unfolding literal_token column_tokens wrap level left_level op_token op_level
bare (literal_expr l) rest = literal_token l ∷ rest
bare (column_ref table name) rest = column_tokens table name rest
bare (binary_expr op l r) rest =
    wrap (left_level op) (level l) (bare l)
      (op_token op ∷ wrap (suc (op_level op)) (level r) (bare r) rest)
bare (unary_expr op_not e) rest = keyword kw_not ∷ wrap 3 (level e) (bare e) rest
bare (unary_expr _ e) rest = punct minus ∷ wrap 7 (level e) (bare e) rest
bare count_star_expr rest = punct star ∷ rest

-- The same for where an expression of level `n` at least is expected.
unfoldable pub print_expr : ℕ → Expr → Tokens → Tokens
unfolding wrap bare level
print_expr n e rest = wrap n (level e) (bare e) rest

-- The expressions that the grammar has: integers of 64 bits, and no float literals.
unfoldable pub IsPrintable : Expr → Type 0
IsPrintable (literal_expr (lit_int n)) = n < 2 ^ 63
IsPrintable (literal_expr (lit_float f)) = ⊥
IsPrintable (literal_expr (lit_other s)) = ⊥
IsPrintable (literal_expr _) = Unit
IsPrintable (column_ref table name) = Unit
IsPrintable (binary_expr (op_other s) l r) = ⊥
IsPrintable (binary_expr _ l r) = IsPrintable l × IsPrintable r
IsPrintable (unary_expr (op_unary_other s) e) = ⊥
IsPrintable (unary_expr _ e) = IsPrintable e
IsPrintable count_star_expr = ⊥

-- Enough fuel to read an expression.
unfoldable pub size : Expr → ℕ
size (binary_expr op l r) = suc (size l + size r)
size (unary_expr op e) = suc (size e)
size _ = 1
