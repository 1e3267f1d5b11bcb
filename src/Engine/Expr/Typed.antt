-- ===== src/Engine/Expr/Typed.antt =====
-- internal/engine/expr.go: the types of what expressions give.
use eleone_sql.Common.{
  suc, ℕ, zero, suc, ◌<◌, ◌^◌, ◌≡◌, refl, ◌||◌, arith, if◌then◌else◌, Bool, true, false, List, [],
  ◌∷◌, length, get_elem?, Option, some, none, Option-cases, Result, ok, err, Bool-cases, ◌>>=◌, inl,
  inr, All,
}
use mathlib.Core.Path.{subst}
use eleone_sql.Bytes.{Bytes}
use eleone_sql.Encoding.{IsU64}
use eleone_sql.Catalog.Value.{
  Value, SqlType, float, text, boolean, truthy, bool_value, int_value, float_value, null_value,
  IsOfType,
}
use eleone_sql.Engine.{FloatOps, EngineError, Tuple, int_div}
use eleone_sql.Engine.Expr.{
  op_unary_other, to_float, lit_other, op_and, UnaryOp, op_other, position_in, lit_bool, op_or,
  is_float, op_neg, resolve, apply_op, decide_and, decide_or, eval_unary, arith_values, float_arith,
  int_arith, resolve_from, literal_value, evaluate, comparison, eval_binary, unary_expr, lit_string,
  binary_expr, lit_float, column_ref, literal_expr, lit_int, Expr, Literal, BinaryOp, lit_null,
  count_star_expr, op_eq, op_ne, op_lt, op_le, op_gt, op_ge, op_add, op_sub, op_mul, op_div, op_not,
}

-- What every evaluation keeps: the value is NULL or made by the constructor of its type.
abbrev pub IsTyped : Value → Type 0
IsTyped v = IsOfType v.type v

-- The literals that a statement can hold: 64-bit numbers and strings below 4 GiB.
abbrev pub IsLiteral : Literal → Type 0
IsLiteral (lit_int i) = IsU64 i
IsLiteral (lit_float f) = IsU64 f
IsLiteral (lit_string s) = length s < 2 ^ 32
IsLiteral _ = Unit

abbrev pub IsSource : Expr → Type 0
IsSource (literal_expr l) = IsLiteral l
IsSource (column_ref table name) = Unit
IsSource (binary_expr op l r) = IsSource l × IsSource r
IsSource (unary_expr op e) = IsSource e
IsSource count_star_expr = Unit

abbrev pub IsTypedTuple : Tuple → Type 0
IsTypedTuple tp = All (λ b. All IsTyped b.values) tp

abbrev Gives : Result EngineError Value → Type 0
Gives r = (v : Value) → r ≡ ok v → IsTyped v

gives : (w : Value) → IsTyped w → Gives (ok w)
gives w h v e = let p : w ≡ v = cc in subst IsTyped p h

fails : (x : EngineError) → Gives (err x)
fails x v e = cc

bool-IsTyped : (b : Bool) → IsTyped (bool_value b)
bool-IsTyped b = inr (b, refl)

int-IsTyped : (n : ℕ) → IsU64 n → IsTyped (int_value n)
int-IsTyped n h = inr (n, h, refl)

float-IsTyped : (n : ℕ) → IsU64 n → IsTyped (float_value n)
float-IsTyped n h = inr (n, h, refl)

null-IsTyped : (t : SqlType) → IsTyped (null_value t)
null-IsTyped t = inl refl

int_div-IsU64 : (a b : ℕ) → IsU64 (int_div a b)
unfolding int_div
int_div-IsU64 a b = ground arith

literal-typed : (l : Literal) → IsLiteral l → Gives (literal_value l)
unfolding literal_value
literal-typed (lit_int i) h = gives _ (int-IsTyped i h)
literal-typed (lit_float f) h = gives _ (float-IsTyped f h)
literal-typed (lit_string s) h = gives _ (inr (s, h, refl))
literal-typed (lit_bool b) h = gives _ (bool-IsTyped b)
literal-typed lit_null h = gives _ (null-IsTyped text)
literal-typed (lit_other kind) h = fails _

element-IsTyped :
    (vs : List Value) (i : ℕ) → All IsTyped vs → (v : Value) → get_elem? vs i ≡ some v → IsTyped v
element-IsTyped [] i h v e = cc
element-IsTyped (x ∷ vs) zero h v e = let p : x ≡ v = cc in subst IsTyped p h.0
element-IsTyped (x ∷ vs) (suc i) h v e = element-IsTyped vs i h.1 v e

FoundTyped : Option Value → Type 0
FoundTyped none = Unit
FoundTyped (some v) = IsTyped v

resolve-typed :
    (table name : Bytes) (found : Option Value) (tp : Tuple)
    → FoundTyped found
    → IsTypedTuple tp
    → Gives (resolve_from table name found tp)
unfolding resolve_from FoundTyped
resolve-typed table name none [] f h = fails _
resolve-typed table name (some v) [] f h = gives v f
resolve-typed table name none (b ∷ tp) f h = elim (Option-cases (position_in table name b)) [
  | inl e ↦ rw (e, resolve_from) (resolve-typed table name none tp f h.1)
  | inr (i, e) ↦ elim (Option-cases (get_elem? b.values i)) [
    | inl g ↦ rw (e, g, resolve_from) (fails _)
    | inr (v, g) ↦
        rw (e, g, resolve_from)
          (resolve-typed table name (some v) tp (element-IsTyped b.values i h.0 v g) h.1)
  ]
]
resolve-typed table name (some w) (b ∷ tp) f h = elim (Option-cases (position_in table name b)) [
  | inl e ↦ rw (e, resolve_from) (resolve-typed table name (some w) tp f h.1)
  | inr (i, e) ↦ rw (e, resolve_from) (fails _)
]

module _ (F : FloatOps) where
  if_typed :
      (c : Bool) (r s : Result EngineError Value) → Gives r → Gives s → Gives (if c then r else s)
  if_typed true r s hr hs = hr
  if_typed false r s hr hs = hs

  float_arith-typed : (op : BinaryOp) (a b : ℕ) → Gives (float_arith F op a b)
  unfolding float_arith
  float_arith-typed op_add a b = gives _ (float-IsTyped _ (F.add-IsU64 a b))
  float_arith-typed op_sub a b = gives _ (float-IsTyped _ (F.sub-IsU64 a b))
  float_arith-typed op_mul a b = gives _ (float-IsTyped _ (F.mul-IsU64 a b))
  float_arith-typed op_div a b =
      if_typed _ _ _ (fails _) (gives _ (float-IsTyped _ (F.div-IsU64 a b)))
  float_arith-typed _ a b = fails _

  int_arith-typed : (op : BinaryOp) (a b : ℕ) → Gives (int_arith F op a b)
  unfolding int_arith
  int_arith-typed op_add a b = gives _ (int-IsTyped _ (omega arith))
  int_arith-typed op_sub a b = gives _ (int-IsTyped _ (omega arith))
  int_arith-typed op_mul a b = gives _ (int-IsTyped _ (omega arith))
  int_arith-typed op_div a b =
      if_typed _ _ _ (fails _) (gives _ (int-IsTyped _ (int_div-IsU64 a b)))
  int_arith-typed _ a b = fails _

  arith_values-typed : (op : BinaryOp) (l r : Value) → Gives (arith_values F op l r)
  unfolding arith_values
  arith_values-typed op l r = elim (Bool-cases (l.null || r.null)) [
    | inl h ↦ rw (h, arith_values) (gives _ (null-IsTyped float))
    | inr h ↦ elim (Bool-cases (is_float l || is_float r)) [
      | inl k ↦ rw (h, k, arith_values) (float_arith-typed op (to_float F l) (to_float F r))
      | inr k ↦ rw (h, k, arith_values) (int_arith-typed op l.i r.i)
    ]
  ]

  comparison-typed : (op : BinaryOp) (l r : Value) → Gives (comparison F op l r)
  unfolding comparison
  comparison-typed op l r = elim (Bool-cases (l.null || r.null)) [
    | inl h ↦ rw (h, comparison) (gives _ (null-IsTyped boolean))
    | inr h ↦ rw (h, comparison) (gives _ (bool-IsTyped _))
  ]

  apply_op-typed : (op : BinaryOp) (l r : Value) → Gives (apply_op F op l r)
  unfolding apply_op
  apply_op-typed op_add l r = arith_values-typed op_add l r
  apply_op-typed op_sub l r = arith_values-typed op_sub l r
  apply_op-typed op_mul l r = arith_values-typed op_mul l r
  apply_op-typed op_div l r = arith_values-typed op_div l r
  apply_op-typed (op_other s) l r = fails _
  apply_op-typed op_eq l r = comparison-typed op_eq l r
  apply_op-typed op_ne l r = comparison-typed op_ne l r
  apply_op-typed op_lt l r = comparison-typed op_lt l r
  apply_op-typed op_le l r = comparison-typed op_le l r
  apply_op-typed op_gt l r = comparison-typed op_gt l r
  apply_op-typed op_ge l r = comparison-typed op_ge l r
  apply_op-typed op_and l r = comparison-typed op_and l r
  apply_op-typed op_or l r = comparison-typed op_or l r

  truth_typed : (r : Result EngineError Value) → Gives (r >>= λ b. ok (bool_value (truthy b)))
  truth_typed (ok b) = gives _ (bool-IsTyped _)
  truth_typed (err x) = fails x

  decide_and-typed : (c : Bool) (r : Result EngineError Value) → Gives (decide_and c r)
  decide_and-typed true r = truth_typed r
  decide_and-typed false r = gives _ (bool-IsTyped false)

  decide_or-typed : (c : Bool) (r : Result EngineError Value) → Gives (decide_or c r)
  decide_or-typed true r = gives _ (bool-IsTyped true)
  decide_or-typed false r = truth_typed r

  both_typed :
      (op : BinaryOp) (l r : Result EngineError Value)
      → Gives (l >>= λ a. r >>= λ b. apply_op F op a b)
  both_typed op (ok a) (ok b) = apply_op-typed op a b
  both_typed op (ok a) (err x) = fails x
  both_typed op (err x) r = fails x

  and_typed : (l r : Result EngineError Value) → Gives (eval_binary F op_and l r)
  unfolding eval_binary
  and_typed (ok a) r = decide_and-typed (truthy a) r
  and_typed (err x) r = fails x

  or_typed : (l r : Result EngineError Value) → Gives (eval_binary F op_or l r)
  unfolding eval_binary
  or_typed (ok a) r = decide_or-typed (truthy a) r
  or_typed (err x) r = fails x

  eval_binary-typed :
      (op : BinaryOp) (l r : Result EngineError Value) → Gives (eval_binary F op l r)
  unfolding eval_binary
  eval_binary-typed op_and l r = and_typed l r
  eval_binary-typed op_or l r = or_typed l r
  eval_binary-typed op_add l r = both_typed op_add l r
  eval_binary-typed op_sub l r = both_typed op_sub l r
  eval_binary-typed op_mul l r = both_typed op_mul l r
  eval_binary-typed op_div l r = both_typed op_div l r
  eval_binary-typed (op_other s) l r = both_typed (op_other s) l r
  eval_binary-typed op_eq l r = both_typed op_eq l r
  eval_binary-typed op_ne l r = both_typed op_ne l r
  eval_binary-typed op_lt l r = both_typed op_lt l r
  eval_binary-typed op_le l r = both_typed op_le l r
  eval_binary-typed op_gt l r = both_typed op_gt l r
  eval_binary-typed op_ge l r = both_typed op_ge l r

  negative_typed : (v : Value) → Gives (eval_unary F op_neg (ok v))
  unfolding eval_unary
  negative_typed v =
      if_typed _ _ _ (gives _ (float-IsTyped _ (F.neg-IsU64 v.f)))
        (gives _ (int-IsTyped _ (omega arith)))

  eval_unary-typed : (op : UnaryOp) (r : Result EngineError Value) → Gives (eval_unary F op r)
  unfolding eval_unary
  eval_unary-typed op_not (ok v) = gives _ (bool-IsTyped _)
  eval_unary-typed op_neg (ok v) = negative_typed v
  eval_unary-typed (op_unary_other s) (ok v) = fails _
  eval_unary-typed op_not (err x) = fails x
  eval_unary-typed op_neg (err x) = fails x
  eval_unary-typed (op_unary_other s) (err x) = fails x

  -- Over a tuple of well-typed values, whatever an expression gives is well-typed: NULL of its type,
  -- a 64-bit number, a string below 4 GiB or a boolean, and nothing in the fields of other types.
  pub evaluate-IsTyped :
      (tp : Tuple) (e : Expr) (v : Value)
      → IsTypedTuple tp
      → IsSource e
      → evaluate F tp e ≡ ok v
      → IsTyped v
  unfolding evaluate resolve FoundTyped
  evaluate-IsTyped tp (literal_expr l) v ht hs e = literal-typed l hs v e
  evaluate-IsTyped tp (column_ref table name) v ht hs e = resolve-typed table name none tp tt ht v e
  evaluate-IsTyped tp (unary_expr op a) v ht hs e = eval_unary-typed op (evaluate F tp a) v e
  evaluate-IsTyped tp (binary_expr op l r) v ht hs e =
      eval_binary-typed op (evaluate F tp l) (evaluate F tp r) v e
  evaluate-IsTyped tp count_star_expr v ht hs e = fails _ v e
