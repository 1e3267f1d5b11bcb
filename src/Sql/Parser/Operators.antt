-- ===== src/Sql/Parser/Operators.antt =====
-- internal/sqlparser/parser.go: numbers, and the operators of each level of the grammar.
use eleone_sql.Common.{
  ℕ, ◌+◌, ◌-◌, ◌*◌, ◌^◌, Bool, true, false, ◌&&◌, [], ◌∷◌, ltb, leb, ◌==◌, if◌then◌else◌, Option,
  none, some,
}
use eleone_sql.Bytes.{Bytes}
use eleone_sql.Engine.Expr.{
  BinaryOp, op_eq, op_ne, op_lt, op_le, op_gt, op_ge, op_and, op_or, op_add, op_sub, op_mul, op_div,
}
use eleone_sql.Sql.{
  kw_and, kw_or, eq, ne, bang_eq, lt, le, gt, ge, plus, minus, star, slash, keyword, punct, Tokens,
}

-- `strconv.ParseInt` in base 10 at 64 bits, on a text without a sign: none is its error. `acc` is the
-- value of the digits before.
unfoldable pub digits_value : ℕ → Bytes → Option ℕ
digits_value acc [] = some acc
digits_value acc (c ∷ s) =
    let rest = digits_value (acc * 10 + (c - b'0')) s in
    if leb b'0' c && leb c b'9' then rest else none

unfoldable pub parse_int : Bytes → Option ℕ
unfolding digits_value
parse_int [] = none
parse_int (c ∷ s) = elim (digits_value 0 (c ∷ s)) [
  | none ↦ none
  | some n ↦ if ltb n (2 ^ 63) then some n else none
]

-- `strings.Contains(text, ".")`.
unfoldable pub has_dot : Bytes → Bool
has_dot [] = false
has_dot (c ∷ s) = let rest = has_dot s in if c == b'.' then true else rest

-- The operators that each level of the grammar takes, with the tokens behind them.
unfoldable pub or_operator : Tokens → Option (BinaryOp × Tokens)
or_operator (keyword kw_or ∷ ts) = some (op_or, ts)
or_operator _ = none

unfoldable pub and_operator : Tokens → Option (BinaryOp × Tokens)
and_operator (keyword kw_and ∷ ts) = some (op_and, ts)
and_operator _ = none

-- `cmpOps`, with "!=" read as "<>".
unfoldable pub comparison_operator : Tokens → Option (BinaryOp × Tokens)
comparison_operator (punct eq ∷ ts) = some (op_eq, ts)
comparison_operator (punct ne ∷ ts) = some (op_ne, ts)
comparison_operator (punct bang_eq ∷ ts) = some (op_ne, ts)
comparison_operator (punct lt ∷ ts) = some (op_lt, ts)
comparison_operator (punct le ∷ ts) = some (op_le, ts)
comparison_operator (punct gt ∷ ts) = some (op_gt, ts)
comparison_operator (punct ge ∷ ts) = some (op_ge, ts)
comparison_operator _ = none

unfoldable pub additive_operator : Tokens → Option (BinaryOp × Tokens)
additive_operator (punct plus ∷ ts) = some (op_add, ts)
additive_operator (punct minus ∷ ts) = some (op_sub, ts)
additive_operator _ = none

unfoldable pub multiplicative_operator : Tokens → Option (BinaryOp × Tokens)
multiplicative_operator (punct star ∷ ts) = some (op_mul, ts)
multiplicative_operator (punct slash ∷ ts) = some (op_div, ts)
multiplicative_operator _ = none
