-- ===== src/Engine/Rows/Stored.antt =====
-- internal/engine/insert.go and update.go: the rows that are stored, read back.
use eleone_sql.Catalog.Row.{encode_row, decode_row}
use mathlib.Core.Path.{subst}
use eleone_sql.Common.{
  none, Option, ◌==◌, length, sym, length, ◌++◌, All, Result-cases, err, ◌>>=◌, Result, arith, ℕ,
  zero, suc, ◌≡◌, refl, ap, true, List, [], ◌∷◌, get_elem?, map, some, Option-cases, Bool-cases, ok,
  inl, inr,
}
use eleone_sql.Catalog.Value.{
  float_value, Value, null_value, SqlType, integer, float, text, boolean, unknown, IsOfType,
}
use eleone_sql.Catalog.TableDef.{TableDef, column_types, ColumnDef}
use eleone_sql.Catalog.Row.RoundTrip.{decode_row-encode_row, decode_row-encode_row, IsRow}
use eleone_sql.Engine.{index_out_of_range, Bytes, Tuple, EngineError, FloatOps}
use eleone_sql.Engine.Expr.{evaluate, Expr, coerce, same_type, coerce_typed}
use eleone_sql.Engine.Expr.Typed.{
  evaluate-IsTyped, evaluate-IsTyped, IsSource, IsTypedTuple, IsTyped,
}
use eleone_sql.Engine.Rows.{
  in_range, coerce_at, check_not_null, assign_values, assign_value, insert_values, updated_values,
  set_elem,
}

same_type→eq : (t u : SqlType) → same_type t u ≡ true → t ≡ u
unfolding same_type
same_type→eq integer integer h = refl
same_type→eq float float h = refl
same_type→eq text text h = refl
same_type→eq boolean boolean h = refl
same_type→eq (unknown n) (unknown m) h = ap unknown (ground arith)
same_type→eq t u h = cc

abbrev types_of : List ColumnDef → List SqlType
types_of columns = map (λ c. c.type) columns

set_elem-IsRow :
    (columns : List ColumnDef) (p : ℕ) (col : ColumnDef) (vs ws : List Value) (v : Value)
    → get_elem? columns p ≡ some col
    → IsOfType col.type v
    → IsRow (types_of columns) vs
    → set_elem vs p v ≡ some ws
    → IsRow (types_of columns) ws
unfolding set_elem
set_elem-IsRow [] p col vs ws v g h r e = cc
set_elem-IsRow (c ∷ cs) p col [] ws v g h r e = absurd r
set_elem-IsRow (c ∷ cs) zero col (x ∷ vs) ws v g h r e =
    let q : (v ∷ vs) ≡ ws = cc in
    let same : col ≡ c = cc in
    subst (λ ys. IsRow (types_of (c ∷ cs)) ys) q (subst (λ d. IsOfType d.type v) same h, r.1)
set_elem-IsRow (c ∷ cs) (suc p) col (x ∷ vs) ws v g h r e = elim (Option-cases (set_elem vs p v)) [
  | inl n ↦ cc (rw n at e)
  | inr (ys, n) ↦
      let m : some (x ∷ ys) ≡ some ws = rw n at e in
      let q : (x ∷ ys) ≡ ws = cc in
      subst (λ zs. IsRow (types_of (c ∷ cs)) zs) q (r.0, set_elem-IsRow cs p col vs ys v g h r.1 n)
]

nulls-IsRow :
    (columns : List ColumnDef) → IsRow (types_of columns) (map (λ c. null_value c.type) columns)
nulls-IsRow [] = tt
nulls-IsRow (c ∷ cs) = (inl refl, nulls-IsRow cs)

module _ (F : FloatOps) where
  coerce_typed_lem :
      (t want : SqlType) (v w : Value) → coerce_typed F t v want ≡ ok w → IsOfType want w
  unfolding coerce_typed
  coerce_typed_lem integer float v w e =
      let q : float_value (F.of_int v.i) ≡ w = cc in
      subst (λ x. IsOfType float x) q (inr (_, F.of_int-IsU64 v.i, refl))
  coerce_typed_lem t u v w e = cc

  -- A typed value that `coerce` accepts for a column becomes a value of the column's type.
  coerce-IsOfType :
      (v w : Value) (want : SqlType) → IsTyped v → coerce F v want ≡ ok w → IsOfType want w
  unfolding coerce
  coerce-IsOfType v w want h e = elim (Bool-cases v.null) [
    | inl n ↦
        let q : null_value want ≡ w = cc (rw (n, coerce) at e) in
        subst (λ x. IsOfType want x) q (inl refl)
    | inr n ↦ elim (Bool-cases (same_type v.type want)) [
      | inl s ↦
          let q : v ≡ w = cc (rw (n, s, coerce) at e) in
          subst (λ x. IsOfType want x) q (subst (λ t. IsOfType t v) (same_type→eq v.type want s) h)
      | inr s ↦ coerce_typed_lem v.type want v w (rw (n, s, coerce) at e)
    ]
  ]

  abbrev IsRowResult : List ColumnDef → Result EngineError (List Value) → Type 0
  IsRowResult columns r = (ws : List Value) → r ≡ ok ws → IsRow (types_of columns) ws

  row_ok :
      (columns : List ColumnDef) (vs : List Value)
      → IsRow (types_of columns) vs
      → IsRowResult columns (ok vs)
  row_ok columns vs h ws e = let q : vs ≡ ws = cc in subst (λ x. IsRow (types_of columns) x) q h

  row_err : (columns : List ColumnDef) (x : EngineError) → IsRowResult columns (err x)
  row_err columns x ws e = cc

  in_range-IsRow :
      (columns : List ColumnDef) (p : ℕ) (col : ColumnDef) (vs : List Value) (v : Value)
      → get_elem? columns p ≡ some col
      → IsOfType col.type v
      → IsRow (types_of columns) vs
      → IsRowResult columns (in_range (set_elem vs p v))
  in_range-IsRow columns p col vs v g h r = elim (Option-cases (set_elem vs p v)) [
    | inl n ↦
        subst (λ o. IsRowResult columns (in_range o)) (sym n) (row_err columns index_out_of_range)
    | inr (ws, n) ↦
        subst (λ o. IsRowResult columns (in_range o)) (sym n)
          (row_ok columns ws (set_elem-IsRow columns p col vs ws v g h r n))
  ]

  then_typed :
      (columns : List ColumnDef) (r : Result EngineError Value)
      (f : Value → Result EngineError (List Value))
      → ((v : Value) → r ≡ ok v → IsRowResult columns (f v))
      → IsRowResult columns (r >>= f)
  then_typed columns (ok v) f h = h v refl
  then_typed columns (err x) f h = row_err columns x

  coerce_at-IsRow :
      (columns : List ColumnDef) (o : Option ColumnDef) (p : ℕ) (v : Value) (vs : List Value)
      → get_elem? columns p ≡ o
      → IsTyped v
      → IsRow (types_of columns) vs
      → IsRowResult columns (coerce_at F o p v vs)
  unfolding coerce_at
  coerce_at-IsRow columns none p v vs g h r = row_err columns index_out_of_range
  coerce_at-IsRow columns (some col) p v vs g h r =
      then_typed columns (coerce F v col.type) (λ cv. in_range (set_elem vs p cv))
        (λ cv c. in_range-IsRow columns p col vs cv g (coerce-IsOfType v cv col.type h c) r)

  assign_value-IsRow :
      (tp : Tuple) (columns : List ColumnDef) (p : ℕ) (e : Expr) (vs : List Value)
      → IsTypedTuple tp
      → IsSource e
      → IsRow (types_of columns) vs
      → IsRowResult columns (assign_value F tp columns p e vs)
  unfolding assign_value
  assign_value-IsRow tp columns p e vs ht hs h =
      then_typed columns (evaluate F tp e) (λ v. coerce_at F (get_elem? columns p) p v vs)
        (λ v ev.
          coerce_at-IsRow columns (get_elem? columns p) p v vs refl
            (evaluate-IsTyped F tp e v ht hs ev) h)

  assign_values-IsRow :
      (tp : Tuple) (columns : List ColumnDef) (ps : List ℕ) (es : List Expr) (vs : List Value)
      → IsTypedTuple tp
      → All IsSource es
      → IsRow (types_of columns) vs
      → IsRowResult columns (assign_values F tp columns ps es vs)
  unfolding assign_values
  assign_values-IsRow tp columns [] es vs ht hs h = row_ok columns vs h
  assign_values-IsRow tp columns (p ∷ ps) [] vs ht hs h = row_ok columns vs h
  assign_values-IsRow tp columns (p ∷ ps) (e ∷ es) vs ht hs h =
      elim (Result-cases (assign_value F tp columns p e vs)) [
        | inr (x, a) ↦ rw (a, assign_values) (row_err columns x)
        | inl (ws, a) ↦
            rw (a, assign_values)
              (assign_values-IsRow tp columns ps es ws ht hs.1
                (assign_value-IsRow tp columns p e vs ht hs.0 h ws a))
      ]

  checked-IsRow :
      (columns : List ColumnDef) (r : Result EngineError (List Value))
      → IsRowResult columns r
      → IsRowResult columns (r >>= λ values. check_not_null columns values >>= λ _. ok values)
  checked-IsRow columns (err x) h = row_err columns x
  checked-IsRow columns (ok vs) h = elim (Result-cases (check_not_null columns vs)) [
    | inl (u, c) ↦ rw c (row_ok columns vs (h vs refl))
    | inr (x, c) ↦ rw c (row_err columns x)
  ]

  -- If the literals of an INSERT are 64-bit numbers and strings below 4 GiB and it makes a row of
  -- the expressions for the given columns, DecodeRow with the table's column types reads back
  -- exactly that row from its encoding, whatever follows it.
  pub decode_row-insert_values :
      (td : TableDef) (ps : List ℕ) (es : List Expr) (vs : List Value) (rest : Bytes)
      → All IsSource es
      → insert_values F td ps es ≡ ok vs
      → decode_row (encode_row vs ++ rest) (column_types td) ≡ ok vs
  unfolding insert_values column_types
  decode_row-insert_values td ps es vs rest hs e = elim (Bool-cases (length es == length ps)) [
    | inr n ↦ cc (rw (n, insert_values) at e)
    | inl n ↦ decode_row-encode_row (types_of td.columns) vs rest (
        (checked-IsRow td.columns
            (assign_values F [] td.columns ps es (map (λ c. null_value c.type) td.columns))
            (assign_values-IsRow [] td.columns ps es (map (λ c. null_value c.type) td.columns) tt hs
              (nulls-IsRow td.columns)))
          vs (rw (n, insert_values) at e))
  ]

  -- If an UPDATE, whose literals are 64-bit numbers and strings below 4 GiB, over well-typed
  -- values makes a row from a row of the table's column types, DecodeRow reads back exactly the
  -- new row from its encoding, whatever follows it.
  pub decode_row-updated_values :
      (td : TableDef) (tp : Tuple) (ps : List ℕ) (es : List Expr) (old vs : List Value)
      (rest : Bytes)
      → IsTypedTuple tp
      → All IsSource es
      → IsRow (column_types td) old
      → updated_values F td tp ps es old ≡ ok vs
      → decode_row (encode_row vs ++ rest) (column_types td) ≡ ok vs
  unfolding updated_values column_types
  decode_row-updated_values td tp ps es old vs rest ht hs h e =
      decode_row-encode_row (types_of td.columns) vs rest (
        (checked-IsRow td.columns (assign_values F tp td.columns ps es old)
            (assign_values-IsRow tp td.columns ps es old ht hs h))
          vs e)
