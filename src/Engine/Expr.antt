-- ===== src/Engine/Expr.antt =====
-- internal/sqlparser/ast.go and internal/engine/expr.go: expressions and what they evaluate to.
pub mod Laws
pub mod Typed
use eleone_sql.Common.{
  ℕ, Bool, true, false, not, ◌&&◌, ◌||◌, List, [], ◌∷◌, ◌==◌, if◌then◌else◌, length, get_elem?,
  Option, none, some, Ordering, Result, ok, err, ◌>>=◌,
}
use eleone_sql.Bytes.{Bytes, bytes_eq}
use eleone_sql.Encoding.{float_eq}
use eleone_sql.Catalog.Value.{
  SqlType, integer, float, text, boolean, unknown, Value, null_value, int_value, float_value,
  text_value, bool_value, compare_values, truthy,
}
use eleone_sql.Catalog.TableDef.{TableDef, column_index}
use eleone_sql.Engine.{
  FloatOps, int_add, int_sub, int_mul, int_div, int_neg, EngineError, ambiguous_column,
  unknown_column, bad_literal, unknown_unary, unknown_operator, misplaced_count, division_by_zero,
  index_out_of_range, cannot_use, Binding, Tuple,
}

-- The strings of `BinaryExpr.Op`, `UnaryExpr.Op` and `LiteralExpr.Kind`.
pub data BinaryOp : Type 0 where
  op_eq op_ne op_lt op_le op_gt op_ge op_and op_or op_add op_sub op_mul op_div : BinaryOp
  op_other : Bytes → BinaryOp

pub data UnaryOp : Type 0 where
  op_not op_neg : UnaryOp
  op_unary_other : Bytes → UnaryOp

pub data Literal : Type 0 where
  lit_int lit_float : ℕ → Literal
  lit_string : Bytes → Literal
  lit_bool : Bool → Literal
  lit_null : Literal
  lit_other : Bytes → Literal

pub data Expr : Type 0 where
  literal_expr : Literal → Expr
  -- The table's alias, empty for none, and the column's name.
  column_ref : Bytes → Bytes → Expr
  binary_expr : BinaryOp → Expr → Expr → Expr
  unary_expr : UnaryOp → Expr → Expr
  count_star_expr : Expr

-- Where binding `b` has the column: the two tests of the loop of `resolve`.
unfoldable pub position_in : Bytes → Bytes → Binding → Option ℕ
position_in table name b = elim (not (length table == 0) && not (bytes_eq table b.alias)) [
  | true ↦ none
  | false ↦ column_index b.table name
]

-- The loop of `resolve` with what was found before.
unfoldable pub resolve_from : Bytes → Bytes → Option Value → Tuple → Result EngineError Value
resolve_from table name none [] = err (unknown_column name)
resolve_from table name (some v) [] = ok v
resolve_from table name found (b ∷ tp) = elim (position_in table name b) [
  | none ↦ resolve_from table name found tp
  | some idx ↦ elim found [
    | some v ↦ err (ambiguous_column name)
    | none ↦ elim (get_elem? b.values idx) [
      | none ↦ err index_out_of_range
      | some v ↦ resolve_from table name (some v) tp
    ]
  ]
]

unfoldable pub resolve : Tuple → Bytes → Bytes → Result EngineError Value
unfolding resolve_from
resolve tp table name = resolve_from table name none tp

unfoldable pub literal_value : Literal → Result EngineError Value
literal_value (lit_int i) = ok (int_value i)
literal_value (lit_float f) = ok (float_value f)
literal_value (lit_string s) = ok (text_value s)
literal_value (lit_bool b) = ok (bool_value b)
literal_value lit_null = ok (null_value text)
literal_value (lit_other kind) = err (bad_literal kind)

-- What `Compare`'s result says to a comparison; the other operators do not ask.
unfoldable pub holds : BinaryOp → Ordering → Bool
holds op_eq o = elim o [ Ordering.eq ↦ true | _ ↦ false ]
holds op_ne o = elim o [ Ordering.eq ↦ false | _ ↦ true ]
holds op_lt o = elim o [ Ordering.lt ↦ true | _ ↦ false ]
holds op_le o = elim o [ Ordering.gt ↦ false | _ ↦ true ]
holds op_gt o = elim o [ Ordering.gt ↦ true | _ ↦ false ]
holds op_ge o = elim o [ Ordering.lt ↦ false | _ ↦ true ]
holds _ o = false

unfoldable pub is_float : Value → Bool
is_float v = elim v.type [ float ↦ true | _ ↦ false ]

-- `==` on types.
unfoldable pub same_type : SqlType → SqlType → Bool
same_type integer t = elim t [ integer ↦ true | _ ↦ false ]
same_type float t = elim t [ float ↦ true | _ ↦ false ]
same_type text t = elim t [ text ↦ true | _ ↦ false ]
same_type boolean t = elim t [ boolean ↦ true | _ ↦ false ]
same_type (unknown n) t = elim t [ unknown m ↦ n == m | _ ↦ false ]

-- AND and OR, once it is known whether the left operand holds.
abbrev pub decide_and : Bool → Result EngineError Value → Result EngineError Value
decide_and false r = ok (bool_value false)
decide_and true r = r >>= λ b. ok (bool_value (truthy b))

abbrev pub decide_or : Bool → Result EngineError Value → Result EngineError Value
decide_or true r = ok (bool_value true)
decide_or false r = r >>= λ b. ok (bool_value (truthy b))

module _ (F : FloatOps) where
  unfoldable pub to_float : Value → ℕ
  to_float v = elim v.type [ float ↦ v.f | _ ↦ F.of_int v.i ]

  -- The switches of `arith`, by the operands' common type.
  unfoldable pub float_arith : BinaryOp → ℕ → ℕ → Result EngineError Value
  float_arith op_add a b = ok (float_value (F.add a b))
  float_arith op_sub a b = ok (float_value (F.sub a b))
  float_arith op_mul a b = ok (float_value (F.mul a b))
  float_arith op_div a b =
      if float_eq b 0 then err division_by_zero else ok (float_value (F.div a b))
  float_arith _ a b = err (unknown_operator [])

  unfoldable pub int_arith : BinaryOp → ℕ → ℕ → Result EngineError Value
  int_arith op_add a b = ok (int_value (int_add a b))
  int_arith op_sub a b = ok (int_value (int_sub a b))
  int_arith op_mul a b = ok (int_value (int_mul a b))
  int_arith op_div a b = if b == 0 then err division_by_zero else ok (int_value (int_div a b))
  int_arith _ a b = err (unknown_operator [])

  unfoldable pub arith_values : BinaryOp → Value → Value → Result EngineError Value
  unfolding float_arith int_arith to_float is_float
  arith_values op l r = elim (l.null || r.null) [
    | true ↦ ok (null_value float)
    | false ↦ elim (is_float l || is_float r) [
      | true ↦ float_arith op (to_float l) (to_float r)
      | false ↦ int_arith op l.i r.i
    ]
  ]

  unfoldable pub comparison : BinaryOp → Value → Value → Result EngineError Value
  unfolding holds
  comparison op l r = elim (l.null || r.null) [
    | true ↦ ok (null_value boolean)
    | false ↦ ok (bool_value (holds op (compare_values F.of_int l r)))
  ]

  -- The last switch of `evalBinary`, on the values of both operands.
  unfoldable pub apply_op : BinaryOp → Value → Value → Result EngineError Value
  unfolding comparison arith_values
  apply_op op_add l r = arith_values op_add l r
  apply_op op_sub l r = arith_values op_sub l r
  apply_op op_mul l r = arith_values op_mul l r
  apply_op op_div l r = arith_values op_div l r
  apply_op (op_other s) l r = err (unknown_operator s)
  apply_op op l r = comparison op l r

  -- `evalBinary`, from what the operands evaluate to. AND and OR look at the right one only when the
  -- left one does not decide; an error of the left one comes first.
  unfoldable pub eval_binary :
      BinaryOp → Result EngineError Value → Result EngineError Value → Result EngineError Value
  unfolding apply_op
  eval_binary op_and l r = l >>= λ a. decide_and (truthy a) r
  eval_binary op_or l r = l >>= λ a. decide_or (truthy a) r
  eval_binary op l r = l >>= λ a. r >>= λ b. apply_op op a b

  unfoldable pub eval_unary : UnaryOp → Result EngineError Value → Result EngineError Value
  unfolding is_float
  eval_unary op_not e = e >>= λ v. ok (bool_value (not (truthy v)))
  eval_unary op_neg e =
      e >>= λ v. if is_float v then ok (float_value (F.neg v.f)) else ok (int_value (int_neg v.i))
  eval_unary (op_unary_other s) e = e >>= λ v. err (unknown_unary s)

  unfoldable pub evaluate : Tuple → Expr → Result EngineError Value
  unfolding resolve literal_value eval_unary eval_binary
  evaluate tp (literal_expr l) = literal_value l
  evaluate tp (column_ref table name) = resolve tp table name
  evaluate tp (unary_expr op e) = eval_unary op (evaluate tp e)
  evaluate tp (binary_expr op l r) = eval_binary op (evaluate tp l) (evaluate tp r)
  evaluate tp count_star_expr = err misplaced_count

  unfoldable pub coerce_typed : SqlType → Value → SqlType → Result EngineError Value
  coerce_typed integer v float = ok (float_value (F.of_int v.i))
  coerce_typed t v want = err (cannot_use t want)

  unfoldable pub coerce : Value → SqlType → Result EngineError Value
  unfolding same_type coerce_typed
  coerce v want = elim v.null [
    | true ↦ ok (null_value want)
    | false ↦ elim (same_type v.type want) [ true ↦ ok v | false ↦ coerce_typed v.type v want ]
  ]
