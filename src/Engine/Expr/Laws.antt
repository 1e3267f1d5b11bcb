-- ===== src/Engine/Expr/Laws.antt =====
-- internal/engine/expr.go: which equations between expressions hold, errors included.
use eleone_sql.Common.{
  ◌≡◌, refl, ap, sym, ◌||◌, if◌then◌else◌, Bool, true, false, not, Ordering, Result, ok, err,
  Bool-cases, inl, inr,
}
use eleone_sql.Catalog.Value.{boolean, null_value, Value, truthy, bool_value, compare_values}
use eleone_sql.Engine.{FloatOps, EngineError, Tuple}
use eleone_sql.Engine.Expr.{
  decide_or, decide_and, BinaryOp, op_eq, op_ne, op_lt, op_le, op_gt, op_ge, op_and, op_or, op_not,
  Expr, binary_expr, unary_expr, evaluate, eval_binary, eval_unary, comparison, holds, apply_op,
}

-- The six comparison operators, and for each the one that says the opposite.
pub data Comparator : Type 0 where
  c_eq c_ne c_lt c_le c_gt c_ge : Comparator

abbrev pub operator : Comparator → BinaryOp
operator c_eq = op_eq
operator c_ne = op_ne
operator c_lt = op_lt
operator c_le = op_le
operator c_gt = op_gt
operator c_ge = op_ge

abbrev pub negate : Comparator → Comparator
negate c_eq = c_ne
negate c_ne = c_eq
negate c_lt = c_ge
negate c_le = c_gt
negate c_gt = c_le
negate c_ge = c_lt

module _ (F : FloatOps) where
  not_decide :
      (c : Bool) (r : Result EngineError Value)
      → eval_unary F op_not (decide_and c r) ≡ decide_or (not c) (eval_unary F op_not r)
  unfolding eval_unary truthy
  not_decide false r = refl
  not_decide true (ok b) = refl
  not_decide true (err x) = refl

  not_and :
      (l r : Result EngineError Value)
      → eval_unary F op_not (eval_binary F op_and l r)
        ≡ eval_binary F op_or (eval_unary F op_not l) (eval_unary F op_not r)
  unfolding eval_unary eval_binary truthy
  not_and (err e) r = refl
  not_and (ok a) r = not_decide (truthy a) r

  -- NOT over AND is OR over the NOTs, for all operands, those whose evaluation fails included: the
  -- same value or the same error.
  pub de_morgan :
      (tp : Tuple) (l r : Expr)
      → evaluate F tp (unary_expr op_not (binary_expr op_and l r))
        ≡ evaluate F tp (binary_expr op_or (unary_expr op_not l) (unary_expr op_not r))
  unfolding evaluate
  de_morgan tp l r = not_and (evaluate F tp l) (evaluate F tp r)

  -- The operator that holds of an order exactly when the given one does not.
  negated :
      (op : Comparator) (o : Ordering)
      → holds (operator (negate op)) o ≡ not (holds (operator op) o)
  unfolding holds
  negated c_eq Ordering.lt = refl
  negated c_eq Ordering.eq = refl
  negated c_eq Ordering.gt = refl
  negated c_ne Ordering.lt = refl
  negated c_ne Ordering.eq = refl
  negated c_ne Ordering.gt = refl
  negated c_lt Ordering.lt = refl
  negated c_lt Ordering.eq = refl
  negated c_lt Ordering.gt = refl
  negated c_le Ordering.lt = refl
  negated c_le Ordering.eq = refl
  negated c_le Ordering.gt = refl
  negated c_gt Ordering.lt = refl
  negated c_gt Ordering.eq = refl
  negated c_gt Ordering.gt = refl
  negated c_ge Ordering.lt = refl
  negated c_ge Ordering.eq = refl
  negated c_ge Ordering.gt = refl

  compares :
      (op : Comparator) (a b : Value)
      → eval_binary F (operator op) (ok a) (ok b) ≡ comparison F (operator op) a b
  unfolding eval_binary apply_op
  compares c_eq a b = refl
  compares c_ne a b = refl
  compares c_lt a b = refl
  compares c_le a b = refl
  compares c_gt a b = refl
  compares c_ge a b = refl

  comparison_null :
      (op : BinaryOp) (a b : Value)
      → (a.null || b.null) ≡ true
      → comparison F op a b ≡ ok (null_value boolean)
  unfolding comparison
  comparison_null op a b h = rw (h, comparison) refl

  comparison_known :
      (op : BinaryOp) (a b : Value)
      → (a.null || b.null) ≡ false
      → comparison F op a b ≡ ok (bool_value (holds op (compare_values F.of_int a b)))
  unfolding comparison
  comparison_known op a b h = rw (h, comparison) refl

  not_comparison :
      (op : Comparator) (a b : Value)
      → eval_unary F op_not (comparison F (operator op) a b) ≡ (
          if a.null || b.null
          then ok (bool_value true)
          else comparison F (operator (negate op)) a b)
  unfolding eval_unary truthy
  not_comparison op a b = elim (Bool-cases (a.null || b.null)) [
    | inl h ↦ rw (comparison_null (operator op) a b h, h) refl
    | inr h ↦
        rw (comparison_known (operator op) a b h, comparison_known (operator (negate op)) a b h, h)
          (ap (λ c. ok (bool_value c)) (sym (negated op (compare_values F.of_int a b))))
  ]

  -- For operands that evaluate to `a` and `b`: NOT over a comparison is the opposite comparison when
  -- neither is NULL. When one is NULL it is TRUE, although the opposite comparison is then NULL.
  pub not-compare :
      (tp : Tuple) (op : Comparator) (l r : Expr) (a b : Value)
      → evaluate F tp l ≡ ok a
      → evaluate F tp r ≡ ok b
      → evaluate F tp (unary_expr op_not (binary_expr (operator op) l r)) ≡ (
          if a.null || b.null
          then ok (bool_value true)
          else evaluate F tp (binary_expr (operator (negate op)) l r))
  unfolding evaluate
  not-compare tp op l r a b el er =
      rw (el, er, compares op a b, compares (negate op) a b) (not_comparison op a b)
