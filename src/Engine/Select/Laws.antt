-- ===== src/Engine/Select/Laws.antt =====
-- SELECT: how many rows come out, and which.
use eleone_sql.Common.{
  ℕ, suc, ◌≤◌, ◌%◌, ◌^◌, ◌≡◌, refl, ap, sym, ◌∙◌, arith, true, false, List, [], ◌∷◌, length,
  length-take, Option, none, some, Option-cases, Bool-cases, Result, ok, err, Result-cases, inl,
  inr,
}
use eleone_sql.Bytes.{Bytes}
use eleone_sql.Catalog.Value.{Value, int_value, truthy}
use eleone_sql.Catalog.TableDef.{TableDef}
use eleone_sql.Engine.{FloatOps, EngineError, Tuple}
use eleone_sql.Engine.Expr.{Expr, count_star_expr, evaluate}
use eleone_sql.Engine.Scan.{Reader}
use eleone_sql.Engine.Select.{
  OrderTerm, SelectStmt, Rows, count_alias, limited, passes, filter_tuples, less, insert_tuple,
  sort_tuples, project_tuple, project_all, select_columns, select_tuples, select_output,
  exec_select, base_where,
}

module _ (F : FloatOps) where
  -- What WHERE makes of the tuples: in their order, those for which the condition has a value that
  -- counts as true; one for which it counts as false, or fails, is dropped.
  pub data IsSelection (e : Expr) : List Tuple → List Tuple → Type 0 where
    done : IsSelection e [] []
    kept :
        {tp : Tuple} {tps sel : List Tuple} (v : Value)
        → evaluate F tp e ≡ ok v
        → truthy v ≡ true
        → IsSelection e tps sel
        → IsSelection e (tp ∷ tps) (tp ∷ sel)
    refused :
        {tp : Tuple} {tps sel : List Tuple} (v : Value)
        → evaluate F tp e ≡ ok v
        → truthy v ≡ false
        → IsSelection e tps sel
        → IsSelection e (tp ∷ tps) sel
    failed :
        {tp : Tuple} {tps sel : List Tuple} (x : EngineError)
        → evaluate F tp e ≡ err x
        → IsSelection e tps sel
        → IsSelection e (tp ∷ tps) sel

  passes_value :
      (e : Expr) (tp : Tuple) (v : Value) → evaluate F tp e ≡ ok v → passes F e tp ≡ truthy v
  unfolding passes
  passes_value e tp v h = rw (h, passes) refl

  passes_error :
      (e : Expr) (tp : Tuple) (x : EngineError) → evaluate F tp e ≡ err x → passes F e tp ≡ false
  unfolding passes
  passes_error e tp x h = rw (h, passes) refl

  -- WHERE keeps, in their order, exactly the tuples for which the condition evaluates to a value
  -- that counts as true; a tuple for which the evaluation fails is dropped without an error.
  pub filter_tuples-IsSelection :
      (e : Expr) (tps : List Tuple) → IsSelection e tps (filter_tuples F e tps)
  unfolding filter_tuples
  filter_tuples-IsSelection e [] = done
  filter_tuples-IsSelection e (tp ∷ tps) = elim (Result-cases (evaluate F tp e)) [
    | inr (x, h) ↦
        rw (passes_error e tp x h, filter_tuples) (failed x h (filter_tuples-IsSelection e tps))
    | inl (v, h) ↦ elim (Bool-cases (truthy v)) [
      | inl p ↦
          rw (passes_value e tp v h ∙ p, filter_tuples)
            (kept v h p (filter_tuples-IsSelection e tps))
      | inr p ↦
          rw (passes_value e tp v h ∙ p, filter_tuples)
            (refused v h p (filter_tuples-IsSelection e tps))
    ]
  ]

  length-insert_tuple :
      (ts : List OrderTerm) (x : Tuple) (ys : List Tuple)
      → length (insert_tuple F ts x ys) ≡ suc (length ys)
  unfolding insert_tuple
  length-insert_tuple ts x [] = refl
  length-insert_tuple ts x (y ∷ ys) = elim (Bool-cases (less F ts y x)) [
    | inl h ↦ rw (h, insert_tuple) (ap suc (length-insert_tuple ts x ys))
    | inr h ↦ rw (h, insert_tuple) refl
  ]

  length-sort_tuples :
      (ts : List OrderTerm) (xs : List Tuple) → length (sort_tuples F ts xs) ≡ length xs
  unfolding sort_tuples
  length-sort_tuples ts [] = refl
  length-sort_tuples ts (x ∷ xs) =
      length-insert_tuple ts x (sort_tuples F ts xs) ∙ ap suc (length-sort_tuples ts xs)

  length-project_all :
      (st : SelectStmt) (tps : List Tuple) (rows : List (List Value))
      → project_all F st tps ≡ ok rows
      → length rows ≡ length tps
  unfolding project_all
  length-project_all st [] rows e = let q : rows ≡ [] = cc in ap length q
  length-project_all st (tp ∷ tps) rows e = elim (Result-cases (project_tuple F st tp)) [
    | inr (x, h) ↦ cc (rw (h, project_all) at e)
    | inl (row, h) ↦ elim (Result-cases (project_all F st tps)) [
      | inr (x, k) ↦ cc (rw (h, k, project_all) at e)
      | inl (rest, k) ↦
          let m : ◌≡◌ {A = Result EngineError (List (List Value))} (ok (row ∷ rest)) (ok rows) =
            rw (h, k, project_all) at e in
          let q : (row ∷ rest) ≡ rows = cc in
          ap length (sym q) ∙ ap suc (length-project_all st tps rest k)
    ]
  ]

  length-limited : (n : ℕ) (tps : List Tuple) → length (limited (some n) tps) ≤ n
  unfolding limited
  length-limited n tps = ground (arith, length-take n tps)

  module _ (r : Reader) (tables : Bytes → Option TableDef) where
    length-select_output :
        (st : SelectStmt) (td : TableDef) (tps : List Tuple) (out : Rows)
        → select_output F r tables st td tps ≡ ok out
        → length out.rows ≡ length (limited st.limit (sort_tuples F st.order_by tps))
    unfolding select_output
    length-select_output st td tps out e = elim (Result-cases (select_columns F r tables st td)) [
      | inr (x, h) ↦ cc (rw (h, select_output) at e)
      | inl (columns, h) ↦
          elim (Result-cases
            (project_all F st (limited st.limit (sort_tuples F st.order_by tps)))) [
              | inr (x, k) ↦ cc (rw (h, k, select_output) at e)
              | inl (rows, k) ↦
                  let m : ◌≡◌ {A = Result EngineError Rows}
                      (ok (record { columns = columns; rows = rows })) (ok out) =
                    rw (h, k, select_output) at e in
                  let q : ◌≡◌ {A = Rows} (record { columns = columns; rows = rows }) out = cc in
                  ap (λ o. length o.rows) (sym q)
                  ∙ length-project_all st (limited st.limit (sort_tuples F st.order_by tps)) rows k
            ]
    ]

    -- What a SELECT does once its table and its tuples are known.
    select_known :
        (st : SelectStmt) (td : TableDef) (tps : List Tuple)
        → tables st.table ≡ some td
        → select_tuples F r tables st td ≡ ok tps
        → count_alias st.items ≡ none
        → exec_select F r tables st ≡ select_output F r tables st td tps
    unfolding exec_select
    select_known st td tps t s c = rw (t, s, c, exec_select) refl

    count_known :
        (st : SelectStmt) (td : TableDef) (tps : List Tuple) (alias : Bytes)
        → tables st.table ≡ some td
        → select_tuples F r tables st td ≡ ok tps
        → count_alias st.items ≡ some alias
        → exec_select F r tables st
          ≡ ok (record { columns = alias ∷ []; rows = (int_value (length tps % 2 ^ 64) ∷ []) ∷ [] })
    unfolding exec_select
    count_known st td tps alias t s c = rw (t, s, c, exec_select) refl

    -- A SELECT that succeeds found its table and its tuples.
    select_found :
        (st : SelectStmt) (out : Rows)
        → exec_select F r tables st ≡ ok out
        → (td : TableDef) × (tps : List Tuple) × (tables st.table ≡ some td)
          × (select_tuples F r tables st td ≡ ok tps)
    unfolding exec_select
    select_found st out e = elim (Option-cases (tables st.table)) [
      | inl t ↦ cc (rw (t, exec_select) at e)
      | inr (td, t) ↦ elim (Result-cases (select_tuples F r tables st td)) [
        | inr (x, s) ↦ cc (rw (t, s, exec_select) at e)
        | inl (tps, s) ↦ (td, tps, t, s)
      ]
    ]

    -- A SELECT with a LIMIT that is no COUNT gives at most that many rows.
    pub exec_select-limit :
        (st : SelectStmt) (n : ℕ) (out : Rows)
        → st.limit ≡ some n
        → count_alias st.items ≡ none
        → exec_select F r tables st ≡ ok out
        → length out.rows ≤ n
    exec_select-limit st n out l c e =
        let (td, tps, t, s) = select_found st out e in
        let m : length out.rows ≡ length (limited st.limit (sort_tuples F st.order_by tps)) =
          length-select_output st td tps out (sym (select_known st td tps t s c) ∙ e) in
        omega (
          arith,
          m,
          ap (λ o. length (limited o (sort_tuples F st.order_by tps))) l,
          length-limited n (sort_tuples F st.order_by tps),
        )

    -- Where SELECT * without a LIMIT succeeds, SELECT COUNT(*) over the same tables, joins and WHERE
    -- gives the number of its rows, as an int64, whatever the order.
    pub exec_select-count :
        (st : SelectStmt) (alias : Bytes) (out : Rows)
        → exec_select F r tables (record st { star = true; items = []; limit = none }) ≡ ok out
        → exec_select F r tables (record st {
          star = false;
          items = record { expr = count_star_expr; alias = alias } ∷ [];
        })
          ≡ ok (record {
            columns = alias ∷ [];
            rows = (int_value (length out.rows % 2 ^ 64) ∷ []) ∷ [];
          })
    unfolding select_tuples base_where count_alias limited
    exec_select-count st alias out e =
        let all : SelectStmt = record st { star = true; items = []; limit = none } in
        let counting : SelectStmt = record st {
          star = false;
          items = record { expr = count_star_expr; alias = alias } ∷ [];
        } in
        let (td, tps, t, s) = select_found all out e in
        let m : length out.rows ≡ length tps =
          length-select_output all td tps out (sym (select_known all td tps t s refl) ∙ e)
          ∙ length-sort_tuples st.order_by tps in
        count_known counting td tps alias t s refl
        ∙ ap (λ n. ok (record { columns = alias ∷ []; rows = (int_value (n % 2 ^ 64) ∷ []) ∷ [] }))
            (sym m)
