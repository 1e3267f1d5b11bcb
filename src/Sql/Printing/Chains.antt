-- ===== src/Sql/Printing/Chains.antt =====
-- internal/sqlparser/parser.go: the loops of parseOr, parseAnd, parseAdditive and parseMultiplicative
-- on a printed expression.
use eleone_sql.Common.{
  ℕ, suc, ◌+◌, ◌-◌, ◌≤◌, ◌<◌, ◌≡◌, ◌≢◌, refl, ◌∙◌, ap, ◌∷◌, ◌==◌, if◌then◌else◌, arith, Option,
}
use eleone_sql.Bytes.{Bytes}
use eleone_sql.Sql.{Tokens}
use eleone_sql.Sql.Parser.{Parser, operator_loop, parse_level}
use eleone_sql.Engine.Expr.{Expr, BinaryOp, binary_expr, op_other}
use eleone_sql.Sql.Printing.{print_expr, bare, level, op_level, left_level, op_token, size}
use eleone_sql.Sql.Printing.Levels.{
  front, front-op_token, IsLevel, Parses, print_expr-suc, print_expr-bare,
}

-- `operand` is one level up. `b` is the fuel of what is in parentheses.
module _ {n : ℕ} {operator : Tokens → Option (BinaryOp × Tokens)} (L : IsLevel n operator)
    (operand : Parser Expr) where
  -- How many operators of this level stand at the left edge of the expression.
  unfoldable pub spine : Expr → ℕ
  spine (binary_expr op l r) = let k = spine l in if op_level op == n then suc k else 0
  spine _ = 0

  spine-size : (e : Expr) → spine e < size e
  unfolding spine size
  spine-size (binary_expr op l r) = ground (arith, spine-size l)
  spine-size e = omega arith

  spine-other : (e : Expr) → level e ≢ n → spine e ≡ 0
  unfolding spine level
  spine-other e h = ground arith

  spine-binary :
      (op : BinaryOp) (l r : Expr) → op_level op ≡ n → spine (binary_expr op l r) ≡ suc (spine l)
  unfolding spine
  spine-binary op l r h = ground arith

  module _ (b : ℕ) where
    -- The loop has read the operators at the left edge, in front of an operator of this level at most.
    abbrev pub Chains : Expr → Type 0
    Chains e =
        (level e < n → size e ≤ b)
        → (k : ℕ) (rest : Tokens) → front rest ≤ n
        → parse_level operator operand (spine e + k) (print_expr n e rest)
          ≡ operator_loop operator operand k e rest

    pub Chains-other : (e : Expr) → level e ≢ n → Parses b operand (suc n) e → Chains e
    unfolding parse_level
    Chains-other e other h small k rest le =
        ap (λ m. parse_level operator operand m (print_expr n e rest))
          (omega (arith, spine-other e other))
        ∙ ap (parse_level operator operand k) (print_expr-suc n e rest other)
        ∙ rw (h (λ lt. small (omega (arith, other))) rest (omega arith)) refl

    print_expr-left :
        (op : BinaryOp) (l r : Expr) (rest : Tokens)
        → op_level op ≡ n
        → left_level op ≡ n
        → print_expr n (binary_expr op l r) rest
          ≡ print_expr n l (op_token op ∷ print_expr (suc n) r rest)
    unfolding bare print_expr level
    print_expr-left op l r rest h hl =
        print_expr-bare n (binary_expr op l r) rest (omega (arith, h)) ∙ rw (h, hl) refl

    pub Chains-binary :
        (op : BinaryOp) (l r : Expr)
        → ((s : Bytes) → op ≢ op_other s)
        → op_level op ≡ n
        → left_level op ≡ n
        → size l ≤ b
        → size r ≤ b
        → Chains l
        → Parses b operand (suc n) r
        → Chains (binary_expr op l r)
    unfolding operator_loop
    Chains-binary op l r g h hl sl sr cl pr small k rest le =
        ap (λ m. parse_level operator operand m (print_expr n (binary_expr op l r) rest))
          (omega (arith, spine-binary op l r h))
        ∙ ap (parse_level operator operand (spine l + suc k)) (print_expr-left op l r rest h hl)
        ∙ cl (λ lt. sl) (suc k) (op_token op ∷ print_expr (suc n) r rest)
            (omega (arith, front-op_token op (print_expr (suc n) r rest) g))
        ∙ rw (L.takes op (print_expr (suc n) r rest) g h, operator_loop)
            (rw (pr (λ lt. sr) rest (omega arith)) refl)

    pub chains_lem :
        (e : Expr) → size e ≤ suc b → Chains e → Parses b (parse_level operator operand (suc b)) n e
    unfolding operator_loop
    chains_lem e se c small rest lt =
        let s = spine-size e in
        ap (λ m. parse_level operator operand m (print_expr n e rest)) (omega arith)
        ∙ c small (suc (b - spine e)) rest (omega arith)
        ∙ rw (L.stops rest lt, operator_loop) refl
