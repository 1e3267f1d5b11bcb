-- ===== src/Sql/Parser.antt =====
-- internal/sqlparser/parser.go: the parser's steps, and expressions. `cur` is the first token that is
-- left and `advance` drops it.
mod Operators
unfoldable pub use Operators.*
use eleone_sql.Common.{
  ℕ, zero, suc, ◌+◌, ◌-◌, ◌*◌, ◌^◌, Bool, true, false, ◌&&◌, [], ◌∷◌, ltb, leb, ◌==◌, if◌then◌else◌,
  Option, none, some, Result, ok, err,
}
use eleone_sql.Bytes.{Bytes}
use eleone_sql.Engine.Expr.{
  Expr, literal_expr, column_ref, binary_expr, unary_expr, BinaryOp, op_eq, op_ne, op_lt, op_le,
  op_gt, op_ge, op_and, op_or, op_add, op_sub, op_mul, op_div, op_not, op_neg, lit_int, lit_float,
  lit_string, lit_bool, lit_null,
}
use eleone_sql.Sql.{
  Keyword, kw_and, kw_or, kw_not, kw_null, kw_true, kw_false, Punct, lparen, rparen, dot, eq, ne,
  bang_eq, lt, le, gt, ge, plus, minus, star, slash, ident, number, string_text, keyword, punct,
  Tokens, keyword_text, bytes_eq,
}
use eleone_sql.Sql.Lexer.{LexError}

-- `out_of_fuel` has no counterpart in the program.
pub data ParseError : Type 0 where
  expected_keyword : Keyword → ParseError
  expected_punct : Punct → ParseError
  expected_ident expected_type expected_number bad_number trailing_input out_of_fuel : ParseError
  unexpected_token : Tokens → ParseError
  lexical : LexError → ParseError

-- A parser reads from the tokens that are left and leaves some of them.
abbrev pub Parser {ℓ} : Type ℓ → Type ℓ
Parser A = Tokens → Result ParseError (A × Tokens)

abbrev pub pure {ℓ} : {A : Type ℓ} → A → Parser A
pure a ts = ok (a, ts)

abbrev pub fail {ℓ} : {A : Type ℓ} → ParseError → Parser A
fail e ts = err e

module _ {ℓ κ} {A : Type ℓ} {B : Type κ} where
  abbrev pub onward :
      Result ParseError (A × Tokens) → (A → Parser B) → Result ParseError (B × Tokens)
  onward (err e) f = err e
  onward (ok (a, rest)) f = f a rest

  infixl 1 ◌>>=◌ ◌>>◌
  abbrev pub ◌>>=◌ : Parser A → (A → Parser B) → Parser B
  (p >>= f) ts = onward (p ts) f

  abbrev pub ◌>>◌ : Parser A → Parser B → Parser B
  (p >> q) ts = onward (p ts) (λ _. q)

abbrev pub parse_on {ℓ} : {A : Type ℓ} → Tokens → Parser A → Result ParseError (A × Tokens)
parse_on ts p = p ts

-- Every text of a keyword is another, so keywords are compared by their texts.
unfoldable pub is_keyword : Keyword → Tokens → Bool
unfolding keyword_text
is_keyword k (keyword j ∷ ts) = bytes_eq (keyword_text j) (keyword_text k)
is_keyword k _ = false

-- A number for each text of a punctuation token.
unfoldable pub punct_code : Punct → ℕ
punct_code Punct.comma = 0
punct_code lparen = 1
punct_code rparen = 2
punct_code Punct.semicolon = 3
punct_code dot = 4
punct_code eq = 5
punct_code Punct.eq_eq = 6
punct_code ne = 7
punct_code bang_eq = 8
punct_code Punct.bang = 9
punct_code lt = 10
punct_code le = 11
punct_code gt = 12
punct_code ge = 13
punct_code plus = 14
punct_code minus = 15
punct_code star = 16
punct_code slash = 17
punct_code Punct.percent = 18

unfoldable pub is_punct : Punct → Tokens → Bool
unfolding punct_code
is_punct p (punct q ∷ ts) = punct_code q == punct_code p
is_punct p _ = false

abbrev pub advance : Tokens → Tokens
advance [] = []
advance (t ∷ ts) = ts

unfoldable pub expect_keyword : Keyword → Parser (Unit {0})
unfolding is_keyword
expect_keyword k ts = if is_keyword k ts then ok (tt, advance ts) else err (expected_keyword k)

unfoldable pub expect_punct : Punct → Parser (Unit {0})
unfolding is_punct
expect_punct p ts = if is_punct p ts then ok (tt, advance ts) else err (expected_punct p)

unfoldable pub expect_ident : Parser Bytes
expect_ident (ident s ∷ ts) = ok (s, ts)
expect_ident _ = err expected_ident

unfoldable pub skip_punct : Punct → Tokens → Tokens
unfolding is_punct
skip_punct p ts = if is_punct p ts then advance ts else ts

-- The loop of parseOr, parseAnd, parseAdditive and parseMultiplicative: operands of the level below,
-- collected to the left.
unfoldable pub operator_loop :
    (Tokens → Option (BinaryOp × Tokens)) → Parser Expr → ℕ → Expr → Parser Expr
operator_loop operator operand zero left ts = err out_of_fuel
operator_loop operator operand (suc fuel) left ts = elim (operator ts) [
  | none ↦ ok (left, ts)
  | some (op, rest) ↦
      onward (operand rest) λ right. operator_loop operator operand fuel (binary_expr op left right)
]

unfoldable pub parse_level : (Tokens → Option (BinaryOp × Tokens)) → Parser Expr → ℕ → Parser Expr
unfolding operator_loop
parse_level operator operand fuel = operand >>= operator_loop operator operand fuel

-- The identifier of parsePrimary is there; a dot makes it the table's name.
unfoldable pub parse_column : Bytes → Parser Expr
unfolding is_punct expect_ident
parse_column name ts = elim (is_punct dot ts) [
  | true ↦ parse_on (advance ts) (do col ← expect_ident; pure (column_ref name col))
  | false ↦ ok (column_ref [] name, ts)
]

abbrev pub literal_or_fail : Option Expr → Parser Expr
literal_or_fail none ts = err bad_number
literal_or_fail (some e) ts = ok (e, ts)

-- `parse_float` is `strconv.ParseFloat` at 64 bits, none where it gives an error.
module _ (parse_float : Bytes → Option ℕ) where
  unfoldable pub number_literal : Bytes → Option Expr
  unfolding parse_int has_dot
  number_literal text =
      if has_dot text
      then (elim (parse_float text) [ none ↦ none | some f ↦ some (literal_expr (lit_float f)) ])
      else (elim (parse_int text) [ none ↦ none | some n ↦ some (literal_expr (lit_int n)) ])

  -- `inner` parses what stands in parentheses.
  module _ (inner : Parser Expr) where
    unfoldable pub parse_primary : Parser Expr
    unfolding number_literal parse_column expect_punct
    parse_primary (number text ∷ ts) = literal_or_fail (number_literal text) ts
    parse_primary (string_text s ∷ ts) = ok (literal_expr (lit_string s), ts)
    parse_primary (keyword kw_null ∷ ts) = ok (literal_expr lit_null, ts)
    parse_primary (keyword kw_true ∷ ts) = ok (literal_expr (lit_bool true), ts)
    parse_primary (keyword kw_false ∷ ts) = ok (literal_expr (lit_bool false), ts)
    parse_primary (punct lparen ∷ ts) = parse_on ts (do e ← inner; expect_punct rparen; pure e)
    parse_primary (ident name ∷ ts) = parse_column name ts
    parse_primary ts = err (unexpected_token ts)

    unfoldable pub parse_unary : Parser Expr
    unfolding parse_primary
    parse_unary (punct minus ∷ ts) = onward (parse_unary ts) λ e. pure (unary_expr op_neg e)
    parse_unary ts = parse_primary ts

    -- `fuel` is for the loops.
    module _ (fuel : ℕ) where
      unfoldable pub parse_multiplicative : Parser Expr
      unfolding parse_unary parse_level multiplicative_operator
      parse_multiplicative = parse_level multiplicative_operator parse_unary fuel

      unfoldable pub parse_additive : Parser Expr
      unfolding parse_multiplicative additive_operator
      parse_additive = parse_level additive_operator parse_multiplicative fuel

      unfoldable pub compare_with : Expr → Parser Expr
      unfolding parse_additive comparison_operator
      compare_with left ts = elim (comparison_operator ts) [
        | none ↦ ok (left, ts)
        | some (op, rest) ↦ onward (parse_additive rest) λ right. pure (binary_expr op left right)
      ]

      unfoldable pub parse_comparison : Parser Expr
      unfolding compare_with
      parse_comparison = parse_additive >>= compare_with

      unfoldable pub parse_not : Parser Expr
      unfolding parse_comparison
      parse_not (keyword kw_not ∷ ts) = onward (parse_not ts) λ e. pure (unary_expr op_not e)
      parse_not ts = parse_comparison ts

      unfoldable pub parse_and : Parser Expr
      unfolding parse_not and_operator
      parse_and = parse_level and_operator parse_not fuel

      unfoldable pub parse_or : Parser Expr
      unfolding parse_and or_operator
      parse_or = parse_level or_operator parse_and fuel

  -- The fuel is for the parentheses and the loops.
  unfoldable pub parse_expr : ℕ → Parser Expr
  unfolding parse_or
  parse_expr zero ts = err out_of_fuel
  parse_expr (suc fuel) ts = parse_or (parse_expr fuel) (suc fuel) ts
