-- ===== src/Sql/Queries.antt =====
-- internal/sqlparser/parser.go: SELECT and its clauses. All helpers take one fuel, which is for their
-- loops and for expressions.
use eleone_sql.Common.{ℕ, zero, suc, Bool, true, false, List, [], ◌∷◌, Option, none, some, ok, err}
use eleone_sql.Bytes.{Bytes}
use eleone_sql.Engine.Expr.{Expr, column_ref, count_star_expr}
use eleone_sql.Engine.Select.{OrderTerm, JoinClause, SelectItem}
use eleone_sql.Sql.{
  codes, kw_from, kw_where, kw_on, kw_order, kw_by, kw_asc, kw_desc, kw_limit, kw_join, kw_inner,
  kw_left, kw_as, kw_count, star, ident, number, keyword, Tokens,
}
use eleone_sql.Sql.Parser.{
  expected_number, bad_number, out_of_fuel, Parser, pure, onward, ◌>>=◌, ◌>>◌, parse_on, is_keyword,
  is_punct, advance, expect_keyword, expect_ident, parse_int, parse_expr,
}
use eleone_sql.Sql.Schema.{Statement, comma_list, in_parens, select}

-- An alias behind a table, `name` where there is none.
unfoldable pub parse_alias : Bytes → Parser Bytes
unfolding expect_ident
parse_alias name (ident s ∷ ts) = ok (s, ts)
parse_alias name (keyword kw_as ∷ ts) = expect_ident ts
parse_alias name ts = ok (name, ts)

-- INNER and LEFT are read over.
unfoldable pub join_start : Tokens → Option Tokens
join_start (keyword kw_join ∷ ts) = some (keyword kw_join ∷ ts)
join_start (keyword kw_inner ∷ ts) = some ts
join_start (keyword kw_left ∷ ts) = some ts
join_start _ = none

unfoldable pub direction : Parser Bool
direction (keyword kw_asc ∷ ts) = ok (false, ts)
direction (keyword kw_desc ∷ ts) = ok (true, ts)
direction ts = ok (false, ts)

abbrev pub limit_or_fail : Option ℕ → Parser (Option ℕ)
limit_or_fail none ts = err bad_number
limit_or_fail (some n) ts = ok (some n, ts)

unfoldable pub parse_limit : Parser (Option ℕ)
unfolding parse_int
parse_limit (keyword kw_limit ∷ (number text ∷ ts)) = limit_or_fail (parse_int text) ts
parse_limit (keyword kw_limit ∷ ts) = err expected_number
parse_limit ts = ok (none, ts)

abbrev pub column_alias : Expr → Bytes
column_alias (column_ref table name) = name
column_alias _ = []

module _ (parse_float : Bytes → Option ℕ) where
  module _ (fuel : ℕ) where
    unfoldable pub parse_where : Parser (Option Expr)
    unfolding is_keyword
    parse_where ts = elim (is_keyword kw_where ts) [
      | true ↦ onward (parse_expr parse_float fuel (advance ts)) λ e. pure (some e)
      | false ↦ ok (none, ts)
    ]

    -- COUNT's argument is a star or any expression, which is dropped.
    unfoldable pub count_argument : Parser (Unit {0})
    unfolding is_punct
    count_argument ts = elim (is_punct star ts) [
      | true ↦ ok (tt, advance ts)
      | false ↦ onward (parse_expr parse_float fuel ts) λ e. pure tt
    ]

    -- AS and a name behind COUNT; behind another item the AS may be left out.
    unfoldable pub count_alias_of : Parser Bytes
    unfolding expect_ident
    count_alias_of (keyword kw_as ∷ ts) = expect_ident ts
    count_alias_of ts = ok (codes "count", ts)

    unfoldable pub parse_select_item : Parser SelectItem
    unfolding is_keyword in_parens count_argument count_alias_of parse_alias
    parse_select_item ts = elim (is_keyword kw_count ts) [
      | true ↦ parse_on (advance ts) (do
        in_parens count_argument
        alias ← count_alias_of
        pure (record { expr = count_star_expr; alias = alias }))
      | false ↦ parse_on ts (do
        e ← parse_expr parse_float fuel
        alias ← parse_alias (column_alias e)
        pure (record { expr = e; alias = alias }))
    ]

    -- Whether the list is a star, and the items of the list that is none.
    unfoldable pub select_list : Parser (Bool × List SelectItem)
    unfolding is_punct comma_list parse_select_item
    select_list ts = elim (is_punct star ts) [
      | true ↦ ok ((true, []), advance ts)
      | false ↦ onward (comma_list parse_select_item fuel ts) λ items. pure (false, items)
    ]

    unfoldable pub parse_join : Parser JoinClause
    unfolding expect_keyword expect_ident parse_alias
    parse_join = do
      expect_keyword kw_join
      table ← expect_ident
      alias ← parse_alias table
      expect_keyword kw_on
      on ← parse_expr parse_float fuel
      pure (record { table = table; alias = alias; on = on })

    -- The loop over the joins; `n` is its own fuel.
    unfoldable pub parse_joins : ℕ → Parser (List JoinClause)
    unfolding join_start parse_join
    parse_joins zero ts = err out_of_fuel
    parse_joins (suc n) ts = elim (join_start ts) [
      | none ↦ ok ([], ts)
      | some rest ↦
          onward (parse_join rest) λ j rest'. onward (parse_joins n rest') λ js. pure (j ∷ js)
    ]

    unfoldable pub order_term : Parser OrderTerm
    unfolding direction
    order_term = do
      e ← parse_expr parse_float fuel
      desc ← direction
      pure (record { expr = e; desc = desc })

    unfoldable pub parse_order_by : Parser (List OrderTerm)
    unfolding is_keyword expect_keyword comma_list order_term
    parse_order_by ts = elim (is_keyword kw_order ts) [
      | true ↦ parse_on (advance ts) (do expect_keyword kw_by; comma_list order_term fuel)
      | false ↦ ok ([], ts)
    ]

    unfoldable pub parse_select : Parser Statement
    unfolding select_list expect_keyword expect_ident parse_alias parse_joins parse_where
        parse_order_by parse_limit
    parse_select = do
      (all, items) ← select_list
      expect_keyword kw_from
      table ← expect_ident
      alias ← parse_alias table
      joins ← parse_joins fuel
      cond ← parse_where
      order ← parse_order_by
      limit ← parse_limit
      pure (
          select (record {
            items = items;
            star = all;
            table = table;
            alias = alias;
            joins = joins;
            where_expr = cond;
            order_by = order;
            limit = limit;
          }))
