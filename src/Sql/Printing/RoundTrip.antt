-- ===== src/Sql/Printing/RoundTrip.antt =====
-- internal/sqlparser/parser.go: parseExpr reads every printed expression back.
use eleone_sql.Common.{
  ◌⊎◌, ℕ, zero, suc, ◌≤◌, ◌<◌, ◌≡◌, ◌≢◌, refl, ◌∙◌, ap, ◌∷◌, arith, Option, ok, inl, inr,
  Bool-cases, ◌==◌,
}
use eleone_sql.Bytes.{Bytes}
use eleone_sql.Sql.{Tokens}
use eleone_sql.Sql.Parser.{
  Parser, parse_unary, parse_multiplicative, parse_additive, compare_with, parse_comparison,
  parse_not, parse_and, parse_or, parse_expr,
}
use eleone_sql.Engine.Expr.{
  Expr, literal_expr, column_ref, binary_expr, unary_expr, count_star_expr, BinaryOp, op_other,
  op_not, op_neg, op_unary_other,
}
use eleone_sql.Sql.Printing.{print_expr, level, op_level, op_token, IsPrintable, size}
use eleone_sql.Sql.Printing.Levels.{
  front, front-op_token, Parses, print_expr-suc, or_operator-IsLevel, and_operator-IsLevel,
  comparison_operator-IsLevel, additive_operator-IsLevel, multiplicative_operator-IsLevel,
}
use eleone_sql.Sql.Printing.Chains.{Chains, Chains-other, Chains-binary, chains_lem}
use eleone_sql.Sql.Printing.Heads.{parse_unary-print, parse_not-print}
use eleone_sql.Sql.Printing.Primaries.{level-bounds, ReadsInner, parse_primary-Parses}
use eleone_sql.Sql.Printing.Shapes.{
  size-pos, left_level-chain, op_level_binary, print_expr-comparison, print_expr-neg,
  print_expr-not,
}

module _ (parse_float : Bytes → Option ℕ) (inner : Parser Expr) (b : ℕ)
    (reads : ReadsInner b inner) where
  -- The levels of the parser, with fuel for one operator more than `b`.
  abbrev unary_level : Parser Expr
  unary_level = parse_unary parse_float inner

  abbrev multiplicative_level : Parser Expr
  multiplicative_level = parse_multiplicative parse_float inner (suc b)

  abbrev additive_level : Parser Expr
  additive_level = parse_additive parse_float inner (suc b)

  abbrev comparison_level : Parser Expr
  comparison_level = parse_comparison parse_float inner (suc b)

  abbrev negation_level : Parser Expr
  negation_level = parse_not parse_float inner (suc b)

  abbrev conjunction_level : Parser Expr
  conjunction_level = parse_and parse_float inner (suc b)

  -- What the levels make of an expression.
  record Parsed (e : Expr) : Type 0 where
    unary_lem : Parses b unary_level 7 e
    multiplicative_chain : Chains multiplicative_operator-IsLevel unary_level b e
    multiplicative_lem : Parses b multiplicative_level 6 e
    additive_chain : Chains additive_operator-IsLevel multiplicative_level b e
    additive_lem : Parses b additive_level 5 e
    comparison_lem : Parses b comparison_level 4 e
    negation_lem : Parses b negation_level 3 e
    and_chain : Chains and_operator-IsLevel negation_level b e
    and_lem : Parses b conjunction_level 2 e
    or_chain : Chains or_operator-IsLevel conjunction_level b e

  -- What the level of the expression itself makes of it.
  record Own (e : Expr) : Type 0 where
    own_unary : level e ≡ 7 → Parses b unary_level 7 e
    own_multiplicative : level e ≡ 6 → Chains multiplicative_operator-IsLevel unary_level b e
    own_additive : level e ≡ 5 → Chains additive_operator-IsLevel multiplicative_level b e
    own_comparison : level e ≡ 4 → Parses b comparison_level 4 e
    own_negation : level e ≡ 3 → Parses b negation_level 3 e
    own_and : level e ≡ 2 → Chains and_operator-IsLevel negation_level b e
    own_or : level e ≡ 1 → Chains or_operator-IsLevel conjunction_level b e

  at_level {ℓ} : {P : Type ℓ} (e : Expr) (n : ℕ) → (level e ≡ n → P) → (level e ≢ n → P) → P
  at_level e n own other = elim (Bool-cases (level e == n)) [
    | inl h ↦ own (ground arith)
    | inr h ↦ other (ground arith)
  ]

  compare_none :
      (left : Expr) (rest : Tokens)
      → front rest < 4
      → compare_with parse_float inner (suc b) left rest ≡ ok (left, rest)
  unfolding compare_with
  compare_none left rest h = rw (comparison_operator-IsLevel.stops rest h, compare_with) refl

  comparison_raise :
      (e : Expr) → level e ≢ 4 → Parses b additive_level 5 e → Parses b comparison_level 4 e
  unfolding parse_comparison
  comparison_raise e other h small rest lt =
      ap (parse_comparison parse_float inner (suc b)) (print_expr-suc 4 e rest other)
      ∙ rw (h (λ l. small (omega (arith, other))) rest (omega arith)) (compare_none e rest lt)

  unary_raise : (e : Expr) → IsPrintable e → level e ≢ 7 → Parses b unary_level 7 e
  unary_raise e pr other small rest lt =
      parse_unary-print parse_float inner e rest other
      ∙ parse_primary-Parses parse_float inner b reads e pr (λ l. small (omega (arith, other))) rest
          (omega arith)

  negation_raise :
      (e : Expr) → level e ≢ 3 → Parses b comparison_level 4 e → Parses b negation_level 3 e
  negation_raise e other h small rest lt =
      parse_not-print parse_float inner (suc b) e rest other
      ∙ h (λ l. small (omega (arith, other))) rest (omega arith)

  Parsed-from_Own : (e : Expr) → IsPrintable e → size e ≤ suc b → Own e → Parsed e
  unfolding parse_multiplicative parse_additive parse_and
  Parsed-from_Own e pr se own =
      let u = at_level e 7 own.own_unary (λ h. unary_raise e pr h) in
      let mc =
        at_level e 6 own.own_multiplicative
          (λ h. Chains-other multiplicative_operator-IsLevel unary_level b e h u) in
      let m = chains_lem multiplicative_operator-IsLevel unary_level b e se mc in
      let ac =
        at_level e 5 own.own_additive
          (λ h. Chains-other additive_operator-IsLevel multiplicative_level b e h m) in
      let a = chains_lem additive_operator-IsLevel multiplicative_level b e se ac in
      let c = at_level e 4 own.own_comparison (λ h. comparison_raise e h a) in
      let n = at_level e 3 own.own_negation (λ h. negation_raise e h c) in
      let dc =
        at_level e 2 own.own_and (λ h. Chains-other and_operator-IsLevel negation_level b e h n) in
      let d = chains_lem and_operator-IsLevel negation_level b e se dc in
      let oc =
        at_level e 1 own.own_or (λ h. Chains-other or_operator-IsLevel conjunction_level b e h d) in
      record {
        unary_lem = u;
        multiplicative_chain = mc;
        multiplicative_lem = m;
        additive_chain = ac;
        additive_lem = a;
        comparison_lem = c;
        negation_lem = n;
        and_chain = dc;
        and_lem = d;
        or_chain = oc;
      }

  -- The operands of an operator.
  comparison_binary :
      (op : BinaryOp) (l r : Expr)
      → ((s : Bytes) → op ≢ op_other s)
      → op_level op ≡ 4
      → size l ≤ b
      → size r ≤ b
      → Parsed l
      → Parsed r
      → Parses b comparison_level 4 (binary_expr op l r)
  unfolding parse_comparison compare_with
  comparison_binary op l r g h sl sr pl pr small rest lt =
      let ts = op_token op ∷ print_expr 5 r rest in
      ap comparison_level (print_expr-comparison op l r rest h)
      ∙ rw (pl.additive_lem (λ x. sl) ts (omega (arith, front-op_token op (print_expr 5 r rest) g)))
          (rw (comparison_operator-IsLevel.takes op (print_expr 5 r rest) g h, compare_with)
            (rw (pr.additive_lem (λ x. sr) rest (omega arith)) refl))

  unary_neg : (e : Expr) → size e ≤ b → Parsed e → Parses b unary_level 7 (unary_expr op_neg e)
  unfolding parse_unary
  unary_neg e se p small rest lt =
      ap unary_level (print_expr-neg e rest) ∙ rw (p.unary_lem (λ x. se) rest lt) refl

  negation_not :
      (e : Expr) → size e ≤ b → Parsed e → Parses b negation_level 3 (unary_expr op_not e)
  unfolding parse_not
  negation_not e se p small rest lt =
      ap negation_level (print_expr-not e rest) ∙ rw (p.negation_lem (λ x. se) rest lt) refl

  Own-binary :
      (op : BinaryOp) (l r : Expr)
      → ((s : Bytes) → op ≢ op_other s)
      → size l ≤ b
      → size r ≤ b
      → Parsed l
      → Parsed r
      → Own (binary_expr op l r)
  unfolding level
  Own-binary op l r g sl sr pl pr = record {
    own_unary = λ h. absurd (omega (arith, h, op_level_binary op));
    own_multiplicative = λ h.
        Chains-binary multiplicative_operator-IsLevel unary_level b op l r g h
          (left_level-chain op (omega (arith, h)) ∙ h) sl sr pl.multiplicative_chain pr.unary_lem;
    own_additive = λ h.
        Chains-binary additive_operator-IsLevel multiplicative_level b op l r g h
          (left_level-chain op (omega (arith, h)) ∙ h) sl sr pl.additive_chain
          pr.multiplicative_lem;
    own_comparison = λ h. comparison_binary op l r g h sl sr pl pr;
    own_negation = λ h. absurd (omega (arith, h, op_level_binary op));
    own_and = λ h.
        Chains-binary and_operator-IsLevel negation_level b op l r g h
          (left_level-chain op (omega (arith, h)) ∙ h) sl sr pl.and_chain pr.negation_lem;
    own_or = λ h.
        Chains-binary or_operator-IsLevel conjunction_level b op l r g h
          (left_level-chain op (omega (arith, h)) ∙ h) sl sr pl.or_chain pr.and_lem;
  }

  -- An expression without an operator between two operands in front.
  Own-prefix :
      (e : Expr)
      → (level e ≡ 3) ⊎ (7 ≤ level e)
      → (level e ≡ 3 → Parses b negation_level 3 e)
      → (level e ≡ 7 → Parses b unary_level 7 e)
      → Own e
  Own-prefix e place not_lem neg_lem = record {
    own_unary = neg_lem;
    own_multiplicative = λ h. absurd (ground arith);
    own_additive = λ h. absurd (ground arith);
    own_comparison = λ h. absurd (ground arith);
    own_negation = not_lem;
    own_and = λ h. absurd (ground arith);
    own_or = λ h. absurd (ground arith);
  }

  Own-neg : (e : Expr) → size e ≤ b → Parsed e → Own (unary_expr op_neg e)
  unfolding level
  Own-neg e se p =
      Own-prefix _ (inr (omega arith)) (λ h. absurd (omega arith)) (λ h. unary_neg e se p)

  Own-not : (e : Expr) → size e ≤ b → Parsed e → Own (unary_expr op_not e)
  unfolding level
  Own-not e se p = Own-prefix _ (inl refl) (λ h. negation_not e se p) (λ h. absurd (omega arith))

  -- What needs no parentheses anywhere has no level of its own.
  Own-primary : (e : Expr) → level e ≡ 8 → Own e
  Own-primary e high =
      Own-prefix e (inr (omega arith)) (λ h. absurd (omega arith)) (λ h. absurd (omega arith))

  IsPrintable-operands :
      (op : BinaryOp) (l r : Expr)
      → IsPrintable (binary_expr op l r)
      → ((s : Bytes) → op ≢ op_other s) × IsPrintable l × IsPrintable r
  unfolding IsPrintable
  IsPrintable-operands (op_other s) l r h = absurd h
  IsPrintable-operands op l r h = (λ s e. cc, h.0, h.1)

  parsed : (e : Expr) → IsPrintable e → size e ≤ suc b → Parsed e
  unfolding size level IsPrintable
  parsed (literal_expr l) pr se = Parsed-from_Own _ pr se (Own-primary _ refl)
  parsed (column_ref t n) pr se = Parsed-from_Own _ pr se (Own-primary _ refl)
  parsed (binary_expr op l r) pr se =
      let (g, pl, pr') = IsPrintable-operands op l r pr in
      Parsed-from_Own _ pr se (
        Own-binary op l r g (omega arith) (omega arith) (parsed l pl (omega arith))
          (parsed r pr' (omega arith)))
  parsed (unary_expr op_not e) pr se =
      Parsed-from_Own _ pr se (Own-not e (omega arith) (parsed e pr (omega arith)))
  parsed (unary_expr op_neg e) pr se =
      Parsed-from_Own _ pr se (Own-neg e (omega arith) (parsed e pr (omega arith)))
  parsed (unary_expr (op_unary_other s) e) pr se = absurd pr
  parsed count_star_expr pr se = absurd pr

  parse_or-print :
      (e : Expr)
      → IsPrintable e
      → size e ≤ suc b
      → (rest : Tokens) → front rest < 1
      → parse_or parse_float inner (suc b) (print_expr 1 e rest) ≡ ok (e, rest)
  unfolding parse_or
  parse_or-print e pr se rest lt =
      chains_lem or_operator-IsLevel conjunction_level b e se (parsed e pr se).or_chain
        (λ l. absurd (omega (arith, level-bounds e))) rest lt

-- parseExpr reads back an expression that is printed with only the parentheses that the grammar's
-- levels ask for, and leaves what follows, if no operator comes next, the expression has no float
-- literal and no COUNT, its integers are below 2^63, and the fuel is not below the number of its
-- nodes.
pub parse_expr-print :
    (parse_float : Bytes → Option ℕ) (fuel : ℕ) (e : Expr) (rest : Tokens)
    → IsPrintable e
    → size e ≤ fuel
    → front rest < 1
    → parse_expr parse_float fuel (print_expr 1 e rest) ≡ ok (e, rest)
unfolding parse_expr
parse_expr-print parse_float zero e rest pr se lt = absurd (omega (arith, size-pos e))
parse_expr-print parse_float (suc fuel) e rest pr se lt =
    parse_or-print parse_float (parse_expr parse_float fuel) fuel
      (λ e' pr' se' rest' lt'. parse_expr-print parse_float fuel e' rest' pr' se' lt') e pr se rest
      lt
