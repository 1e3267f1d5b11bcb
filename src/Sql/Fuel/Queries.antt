-- ===== src/Sql/Fuel/Queries.antt =====
-- internal/sqlparser/parser.go: the fuel of SELECT.
use eleone_sql.Common.{
  ℕ, zero, suc, ◌<◌, ◌≤◌, ◌≡◌, arith, true, false, [], ◌∷◌, length, Option, none, some,
  Option-cases, Bool-cases, inl, inr,
}
use eleone_sql.Bytes.{Bytes}
use eleone_sql.Sql.{
  Keyword, kw_on, kw_by, kw_from, kw_where, kw_count, kw_order, kw_join, keyword, ident, number,
  Punct, Tokens, star,
}
use eleone_sql.Sql.Parser.{Parser, is_keyword, is_punct, advance, parse_int, parse_expr}
use eleone_sql.Sql.Queries.{
  parse_alias, join_start, direction, limit_or_fail, parse_limit, parse_where, count_argument,
  count_alias_of, parse_select_item, select_list, parse_join, parse_joins, order_term,
  parse_order_by, parse_select,
}
use eleone_sql.Sql.Fuel.{
  Leaves, consumed, Reads, Keeps, Leaves-le, Leaves-onward, Reads-then, Keeps-then, Reads→Keeps,
  pure-Keeps, advance_punct, advance_keyword, expect_keyword-Reads,
}
use eleone_sql.Sql.Fuel.Expressions.{parse_expr-Reads}
use eleone_sql.Sql.Fuel.Schema.{rejects, items-Keeps, in_parens-Reads, ident-Keeps}

-- A keyword in front of a part that may be absent.
module _ {ℓ} {A : Type ℓ} (b : ℕ) where
  behind_keyword :
      (k : Keyword) (p : Parser A) (ts : Tokens)
      → Keeps b p
      → length ts < b
      → is_keyword k ts ≡ true
      → Leaves (suc (length ts)) (p (advance ts))
  behind_keyword k p ts h lt e =
      let shorter = advance_keyword k ts e in Leaves-le (h (advance ts) (omega arith)) (omega arith)

  behind_punct :
      (k : Punct) (p : Parser A) (ts : Tokens)
      → Keeps b p
      → length ts < b
      → is_punct k ts ≡ true
      → Leaves (suc (length ts)) (p (advance ts))
  behind_punct k p ts h lt e =
      let shorter = advance_punct k ts e in Leaves-le (h (advance ts) (omega arith)) (omega arith)

join_start-shorter : (ts rest : Tokens) → join_start ts ≡ some rest → length rest ≤ length ts
unfolding join_start
join_start-shorter ts rest e = ground arith

module _ (b : ℕ) where
  alias-Keeps : (name : Bytes) → Keeps b (parse_alias name)
  unfolding parse_alias
  alias-Keeps name (ident s ∷ ts) lt = consumed (omega arith)
  alias-Keeps name (keyword Keyword.kw_as ∷ ts) lt =
      Leaves-le (ident-Keeps b ts (omega arith)) (omega arith)
  alias-Keeps name ts lt = consumed (omega arith)

  direction-Keeps : Keeps b direction
  unfolding direction
  direction-Keeps (keyword Keyword.kw_asc ∷ ts) lt = consumed (omega arith)
  direction-Keeps (keyword Keyword.kw_desc ∷ ts) lt = consumed (omega arith)
  direction-Keeps ts lt = consumed (omega arith)

  limit_or_fail-Keeps : (o : Option ℕ) → Keeps b (limit_or_fail o)
  limit_or_fail-Keeps none ts lt = rejects (λ e. cc)
  limit_or_fail-Keeps (some n) ts lt = consumed (omega arith)

  limit-Keeps : Keeps b parse_limit
  unfolding parse_limit
  limit-Keeps (keyword Keyword.kw_limit ∷ (number text ∷ ts)) lt =
      Leaves-le (limit_or_fail-Keeps (parse_int text) ts (omega arith)) (omega arith)
  limit-Keeps (keyword Keyword.kw_limit ∷ ts) lt = rejects (λ e. cc)
  limit-Keeps ts lt = consumed (omega arith)

  count_alias-Keeps : (parse_float : Bytes → Option ℕ) → Keeps b (count_alias_of parse_float b)
  unfolding count_alias_of
  count_alias-Keeps parse_float (keyword Keyword.kw_as ∷ ts) lt =
      Leaves-le (ident-Keeps b ts (omega arith)) (omega arith)
  count_alias-Keeps parse_float ts lt = consumed (omega arith)

module _ (parse_float : Bytes → Option ℕ) (b : ℕ) where
  pub expr-Keeps : Keeps b (parse_expr parse_float b)
  expr-Keeps = Reads→Keeps b _ (parse_expr-Reads parse_float b)

  pub where-Keeps : Keeps b (parse_where parse_float b)
  unfolding parse_where
  where-Keeps ts lt = elim (Bool-cases (is_keyword kw_where ts)) [
    | inr h ↦ rw (h, parse_where) (consumed (omega arith))
    | inl h ↦
        rw (h, parse_where)
          (behind_keyword b kw_where _ ts (Keeps-then b expr-Keeps λ e. pure-Keeps b (some e)) lt h)
  ]

  count_argument-Keeps : Keeps b (count_argument parse_float b)
  unfolding count_argument
  count_argument-Keeps ts lt = elim (Bool-cases (is_punct star ts)) [
    | inl h ↦ rw (h, count_argument) (behind_punct b star _ ts (pure-Keeps b tt) lt h)
    | inr h ↦ rw (h, count_argument) (Keeps-then b expr-Keeps (λ e. pure-Keeps b tt) ts lt)
  ]

  select_item-Keeps : Keeps b (parse_select_item parse_float b)
  unfolding parse_select_item
  select_item-Keeps ts lt = elim (Bool-cases (is_keyword kw_count ts)) [
    | inl h ↦
        rw (h, parse_select_item)
          (behind_keyword b kw_count _ ts
            (Keeps-then b (Reads→Keeps b _ (in_parens-Reads b _ count_argument-Keeps))
              λ u. Keeps-then b (count_alias-Keeps b parse_float) λ alias. pure-Keeps b _)
            lt h)
    | inr h ↦
        rw (h, parse_select_item)
          (Keeps-then b expr-Keeps (λ e. Keeps-then b (alias-Keeps b _) λ alias. pure-Keeps b _) ts
            lt)
  ]

  select_list-Keeps : Keeps b (select_list parse_float b)
  unfolding select_list
  select_list-Keeps ts lt = elim (Bool-cases (is_punct star ts)) [
    | inl h ↦ rw (h, select_list) (behind_punct b star _ ts (pure-Keeps b (true, [])) lt h)
    | inr h ↦
        rw (h, select_list)
          (Keeps-then b (items-Keeps b _ select_item-Keeps) (λ items. pure-Keeps b (false, items))
            ts lt)
  ]

  join-Reads : Reads b (parse_join parse_float b)
  unfolding parse_join
  join-Reads = Reads-then b (expect_keyword-Reads b kw_join) λ u.
      Keeps-then b (ident-Keeps b) λ table. Keeps-then b (alias-Keeps b table) λ alias.
        Keeps-then b (Reads→Keeps b _ (expect_keyword-Reads b kw_on))
          λ u'. Keeps-then b expr-Keeps λ on. pure-Keeps b _

  joins-Leaves :
      (n : ℕ) (ts : Tokens)
      → length ts < b
      → length ts < n
      → Leaves (suc (length ts)) (parse_joins parse_float b n ts)
  unfolding parse_joins
  joins-Leaves zero ts lt ln = absurd (omega arith)
  joins-Leaves (suc n) ts lt ln = elim (Option-cases (join_start ts)) [
    | inl e ↦ rw (e, parse_joins) (consumed (omega arith))
    | inr (rest, e) ↦
        let shorter = join_start-shorter ts rest e in
        rw (e, parse_joins)
          (Leaves-onward (join-Reads rest (omega arith)) λ j rest' le.
            Leaves-onward (joins-Leaves n rest' (omega arith) (omega arith))
              λ js rest'' le'. consumed (omega arith))
  ]

  joins-Keeps : Keeps b (parse_joins parse_float b b)
  joins-Keeps ts lt = joins-Leaves b ts lt lt

  order_by-Keeps : Keeps b (parse_order_by parse_float b)
  unfolding parse_order_by order_term
  order_by-Keeps ts lt = elim (Bool-cases (is_keyword kw_order ts)) [
    | inr h ↦ rw (h, parse_order_by) (consumed (omega arith))
    | inl h ↦
        rw (h, parse_order_by)
          (behind_keyword b kw_order _ ts
            (Keeps-then b (Reads→Keeps b _ (expect_keyword-Reads b kw_by)) λ u.
              items-Keeps b (order_term parse_float b) (
                Keeps-then b expr-Keeps
                  λ e. Keeps-then b (direction-Keeps b) λ desc. pure-Keeps b _))
            lt h)
  ]

  pub select-Keeps : Keeps b (parse_select parse_float b)
  unfolding parse_select
  select-Keeps = Keeps-then b select_list-Keeps λ list.
      Keeps-then b (Reads→Keeps b _ (expect_keyword-Reads b kw_from)) λ u.
        Keeps-then b (ident-Keeps b) λ table. Keeps-then b (alias-Keeps b table) λ alias.
          Keeps-then b joins-Keeps λ joins. Keeps-then b where-Keeps λ cond.
            Keeps-then b order_by-Keeps
              λ order. Keeps-then b (limit-Keeps b) λ limit. pure-Keeps b _
