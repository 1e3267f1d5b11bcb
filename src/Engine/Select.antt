-- ===== src/Engine/Select.antt =====
-- internal/engine/select.go, and the SELECT statement of internal/sqlparser/ast.go.
pub mod Laws
use eleone_sql.Common.{
  ℕ, zero, suc, ◌+◌, ◌/◌, ◌%◌, ◌^◌, Bool, true, false, not, List, [], ◌∷◌, ◌++◌, ltb, ◌==◌,
  if◌then◌else◌, length, take, map, Option, none, some, Ordering, Result, ok, err, ◌>>=◌,
}
use eleone_sql.Bytes.{Bytes}
use eleone_sql.Catalog.Value.{Value, int_value, compare_values, truthy}
use eleone_sql.Catalog.TableDef.{ColumnDef, TableDef}
use eleone_sql.Engine.{FloatOps, EngineError, table_does_not_exist, Binding, Tuple}
use eleone_sql.Engine.Expr.{Expr, count_star_expr, evaluate}
use eleone_sql.Engine.Scan.{Reader, KeyedRow, fetch_all_rows, load_rows}

pub record OrderTerm : Type 0 where
  pub expr : Expr
  pub desc : Bool

pub record JoinClause : Type 0 where
  pub table : Bytes
  pub alias : Bytes
  pub on : Expr

pub record SelectItem : Type 0 where
  pub expr : Expr
  pub alias : Bytes

-- `limit` is none where `HasLim` is not set.
pub record SelectStmt : Type 0 where
  pub items : List SelectItem
  pub star : Bool
  pub table : Bytes
  pub alias : Bytes
  pub joins : List JoinClause
  pub where_expr : Option Expr
  pub order_by : List OrderTerm
  pub limit : Option ℕ

pub record Rows : Type 0 where
  pub columns : List Bytes
  pub rows : List (List Value)

-- Decimal digits, as `fmt.Sprintf` writes a number with %d.
unfoldable pub decimal_digits : ℕ → ℕ → Bytes
decimal_digits zero n = []
decimal_digits (suc fuel) n =
    let front = decimal_digits fuel (n / 10) in
    if ltb n 10 then (48 + n) ∷ [] else front ++ (48 + n % 10) ∷ []

-- The names of the select list from item `i` on; "col" and the number where there is no alias.
unfoldable pub item_names : ℕ → List SelectItem → List Bytes
unfolding decimal_digits
item_names i [] = []
item_names i (x ∷ xs) =
    (if length x.alias == 0 then 99 ∷ 111 ∷ 108 ∷ decimal_digits (suc (suc i)) (suc i) else x.alias)
    ∷ item_names (suc i) xs

-- `alias + "." + column`.
unfoldable pub dotted : Bytes → ColumnDef → Bytes
dotted alias c = alias ++ (46 ∷ c.name)

unfoldable pub one_binding : Bytes → TableDef → List Value → Binding
one_binding alias td vs = record { alias = alias; table = td; values = vs }

unfoldable pub star_row : Tuple → List Value
star_row [] = []
star_row (b ∷ tp) = b.values ++ star_row tp

unfoldable pub base_where : SelectStmt → Option Expr
base_where st = elim st.joins [ [] ↦ st.where_expr | _ ∷ _ ↦ none ]

-- Whether the select list is COUNT(*) alone, and then its alias.
unfoldable pub count_alias : List SelectItem → Option Bytes
count_alias (x ∷ []) = elim x.expr [ count_star_expr ↦ some x.alias | _ ↦ none ]
count_alias _ = none

unfoldable pub limited : Option ℕ → List Tuple → List Tuple
limited none tuples = tuples
limited (some n) tuples = if ltb n (length tuples) then take n tuples else tuples

module _ (F : FloatOps) where
  -- The inner loop of a join: the rows that the condition lets pass.
  unfoldable pub join_row :
      JoinClause → TableDef → Tuple → List KeyedRow → Result EngineError (List Tuple)
  join_row j td left [] = ok []
  join_row j td left ((k, vs) ∷ rows) = do
    v ← evaluate F (left ++ one_binding j.alias td vs ∷ []) j.on
    rest ← join_row j td left rows
    ok (if truthy v then (left ++ one_binding j.alias td vs ∷ []) ∷ rest else rest)

  unfoldable pub join_tuples :
      JoinClause → TableDef → List Tuple → List KeyedRow → Result EngineError (List Tuple)
  unfolding join_row
  join_tuples j td [] rows = ok []
  join_tuples j td (left ∷ lefts) rows = do
    here ← join_row j td left rows
    rest ← join_tuples j td lefts rows
    ok (here ++ rest)

  unfoldable pub passes : Expr → Tuple → Bool
  passes e tp = elim (evaluate F tp e) [ ok v ↦ truthy v | err x ↦ false ]

  unfoldable pub filter_tuples : Expr → List Tuple → List Tuple
  unfolding passes
  filter_tuples e [] = []
  filter_tuples e (tp ∷ tps) =
      let rest = filter_tuples e tps in if passes e tp then tp ∷ rest else rest

  -- The function that `sort.SliceStable` gets.
  unfoldable pub less : List OrderTerm → Tuple → Tuple → Bool
  less [] a b = false
  less (t ∷ ts) a b = elim (evaluate F a t.expr) [
    | err x ↦ less ts a b
    | ok v ↦ elim (evaluate F b t.expr) [
      | err x ↦ less ts a b
      | ok w ↦ elim (compare_values F.of_int v w) [
        | Ordering.eq ↦ less ts a b
        | Ordering.lt ↦ not t.desc
        | Ordering.gt ↦ t.desc
      ]
    ]
  ]

  -- A stable sort: a tuple goes before the first one that is not less than it. Go's result is this
  -- one wherever `less` is a strict weak order; where an error makes it none, Go's is unspecified.
  unfoldable pub insert_tuple : List OrderTerm → Tuple → List Tuple → List Tuple
  insert_tuple ts x [] = x ∷ []
  insert_tuple ts x (y ∷ ys) =
      let rest = insert_tuple ts x ys in if less ts y x then y ∷ rest else x ∷ (y ∷ ys)

  unfoldable pub sort_tuples : List OrderTerm → List Tuple → List Tuple
  unfolding insert_tuple
  sort_tuples ts [] = []
  sort_tuples ts (x ∷ xs) = insert_tuple ts x (sort_tuples ts xs)

  unfoldable pub project_items : List SelectItem → Tuple → Result EngineError (List Value)
  project_items [] tp = ok []
  project_items (x ∷ xs) tp = do v ← evaluate F tp x.expr; rest ← project_items xs tp; ok (v ∷ rest)

  unfoldable pub project_tuple : SelectStmt → Tuple → Result EngineError (List Value)
  unfolding project_items star_row
  project_tuple st tp = if st.star then ok (star_row tp) else project_items st.items tp

  unfoldable pub project_all : SelectStmt → List Tuple → Result EngineError (List (List Value))
  unfolding project_tuple
  project_all st [] = ok []
  project_all st (tp ∷ tps) = do
    row ← project_tuple st tp
    rest ← project_all st tps
    ok (row ∷ rest)

  -- `tables` is the catalog's `Table`.
  module _ (r : Reader) (tables : Bytes → Option TableDef) where
    unfoldable pub join_all : List JoinClause → List Tuple → Result EngineError (List Tuple)
    unfolding join_tuples
    join_all [] tuples = ok tuples
    join_all (j ∷ js) tuples = elim (tables j.table) [
      | none ↦ err (table_does_not_exist j.table)
      | some td ↦
          fetch_all_rows r td >>= λ rows. join_tuples j td tuples rows >>= λ next. join_all js next
    ]

    unfoldable pub join_columns : List JoinClause → Result EngineError (List Bytes)
    join_columns [] = ok []
    join_columns (j ∷ js) = elim (tables j.table) [
      | none ↦ err (table_does_not_exist j.table)
      | some td ↦ join_columns js >>= λ rest. ok (map (dotted j.alias) td.columns ++ rest)
    ]

    unfoldable pub select_columns : SelectStmt → TableDef → Result EngineError (List Bytes)
    unfolding join_columns item_names
    select_columns st td =
        if st.star
        then (join_columns st.joins >>= λ rest. ok (
            (elim st.joins [
              | [] ↦ map (λ c. c.name) td.columns
              | _ ∷ _ ↦ map (dotted st.alias) td.columns
            ])
            ++ rest))
        else ok (item_names 0 st.items)

    -- The part of `execSelect` up to the filter: the tuples that WHERE lets pass.
    unfoldable pub select_tuples : SelectStmt → TableDef → Result EngineError (List Tuple)
    unfolding join_all filter_tuples base_where one_binding
    select_tuples st td = do
      rows ← load_rows F r td (base_where st) st.alias
      tuples ← join_all st.joins (map (λ k. one_binding st.alias td k.1 ∷ []) rows)
      ok (elim st.where_expr [ none ↦ tuples | some e ↦ filter_tuples e tuples ])

    -- The rest: order, limit and projection.
    unfoldable pub select_output : SelectStmt → TableDef → List Tuple → Result EngineError Rows
    unfolding select_columns project_all sort_tuples limited
    select_output st td tuples = do
      columns ← select_columns st td
      rows ← project_all st (limited st.limit (sort_tuples st.order_by tuples))
      ok (record { columns = columns; rows = rows })

    unfoldable pub exec_select : SelectStmt → Result EngineError Rows
    unfolding select_tuples select_output count_alias
    exec_select st = elim (tables st.table) [
      | none ↦ err (table_does_not_exist st.table)
      | some td ↦ select_tuples st td >>= λ tuples. elim (count_alias st.items) [
        | some alias ↦
            ok (record {
              columns = alias ∷ [];
              rows = (int_value (length tuples % 2 ^ 64) ∷ []) ∷ [];
            })
        | none ↦ select_output st td tuples
      ]
    ]
