-- ===== src/Sql/Printing/Shapes.antt =====
-- internal/sqlparser/parser.go: the shapes of printed expressions.
use eleone_sql.Common.{◌≤◌, ◌≡◌, ◌≢◌, refl, ◌∙◌, ◌∷◌, arith}
use eleone_sql.Sql.{minus, kw_not, keyword, punct, Tokens}
use eleone_sql.Engine.Expr.{Expr, binary_expr, unary_expr, BinaryOp, op_not, op_neg}
use eleone_sql.Sql.Printing.{print_expr, bare, level, op_level, left_level, op_token, size}
use eleone_sql.Sql.Printing.Levels.{print_expr-bare}

pub size-pos : (e : Expr) → 1 ≤ size e
unfolding size
size-pos (binary_expr op l r) = omega arith
size-pos (unary_expr op e) = omega arith
size-pos e = omega arith

pub left_level-chain : (op : BinaryOp) → op_level op ≢ 4 → left_level op ≡ op_level op
unfolding left_level op_level
left_level-chain op h = ground arith

pub left_level-comparison : (op : BinaryOp) → op_level op ≡ 4 → left_level op ≡ 5
unfolding left_level op_level
left_level-comparison op h = ground arith

pub op_level_binary : (op : BinaryOp) → (op_level op ≢ 3) × (op_level op ≤ 6)
unfolding op_level
op_level_binary op = ground arith

pub print_expr-comparison :
    (op : BinaryOp) (l r : Expr) (rest : Tokens)
    → op_level op ≡ 4
    → print_expr 4 (binary_expr op l r) rest ≡ print_expr 5 l (op_token op ∷ print_expr 5 r rest)
unfolding bare level print_expr
print_expr-comparison op l r rest h =
    print_expr-bare 4 (binary_expr op l r) rest (omega (arith, h))
    ∙ rw (left_level-comparison op h, h) refl

pub print_expr-neg :
    (e : Expr) (rest : Tokens)
    → print_expr 7 (unary_expr op_neg e) rest ≡ punct minus ∷ print_expr 7 e rest
unfolding bare level print_expr
print_expr-neg e rest = print_expr-bare 7 (unary_expr op_neg e) rest (omega arith)

pub print_expr-not :
    (e : Expr) (rest : Tokens)
    → print_expr 3 (unary_expr op_not e) rest ≡ keyword kw_not ∷ print_expr 3 e rest
unfolding bare level print_expr
print_expr-not e rest = print_expr-bare 3 (unary_expr op_not e) rest (omega arith)
