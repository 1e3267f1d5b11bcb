-- ===== src/Sql/Statements.antt =====
-- internal/sqlparser/parser.go: INSERT, UPDATE and DELETE, and whole statements.
use eleone_sql.Common.{
  ℕ, suc, true, false, List, [], ◌∷◌, if◌then◌else◌, length, Option, Result, ok, err,
}
use eleone_sql.Bytes.{Bytes}
use eleone_sql.Sql.{
  kw_select, kw_from, kw_insert, kw_into, kw_values, kw_update, kw_set, kw_delete, kw_create,
  kw_drop, kw_begin, kw_commit, kw_rollback, kw_transaction, kw_show, kw_tables, lparen, semicolon,
  eq, keyword, Tokens,
}
use eleone_sql.Sql.Lexer.{Unicode, tokenize}
use eleone_sql.Sql.Parser.{
  ParseError, trailing_input, unexpected_token, lexical, Parser, pure, onward, ◌>>=◌, ◌>>◌,
  is_keyword, is_punct, advance, expect_keyword, expect_punct, expect_ident, skip_punct, parse_expr,
}
use eleone_sql.Sql.Schema.{
  Assignment, Statement, comma_list, in_parens, parse_create, parse_drop, insert, update, delete,
  begin, commit, rollback, show_tables,
}
use eleone_sql.Sql.Queries.{parse_where, parse_select}

-- The columns that INSERT names, none where there are no parentheses.
unfoldable pub insert_columns : ℕ → Parser (List Bytes)
unfolding in_parens comma_list expect_ident
insert_columns fuel ts = elim (is_punct lparen ts) [
  | true ↦ in_parens (comma_list expect_ident fuel) ts
  | false ↦ ok ([], ts)
]

module _ (parse_float : Bytes → Option ℕ) where
  module _ (fuel : ℕ) where
    unfoldable pub parse_insert : Parser Statement
    unfolding expect_keyword expect_ident insert_columns comma_list in_parens
    parse_insert = do
      expect_keyword kw_into
      table ← expect_ident
      cols ← insert_columns fuel
      expect_keyword kw_values
      rows ← comma_list (in_parens (comma_list (parse_expr parse_float fuel) fuel)) fuel
      pure (insert table cols rows)

    unfoldable pub parse_assignment : Parser Assignment
    unfolding expect_ident expect_punct
    parse_assignment = do
      col ← expect_ident
      expect_punct eq
      e ← parse_expr parse_float fuel
      pure (record { column = col; value = e })

    unfoldable pub parse_update : Parser Statement
    unfolding expect_ident expect_keyword comma_list parse_assignment parse_where
    parse_update = do
      table ← expect_ident
      expect_keyword kw_set
      assigns ← comma_list parse_assignment fuel
      cond ← parse_where parse_float fuel
      pure (update table assigns cond)

    unfoldable pub parse_delete : Parser Statement
    unfolding expect_keyword expect_ident parse_where
    parse_delete = do
      expect_keyword kw_from
      table ← expect_ident
      cond ← parse_where parse_float fuel
      pure (delete table cond)

    -- BEGIN may be followed by a semicolon and then by TRANSACTION.
    unfoldable pub begin_tail : Tokens → Tokens
    unfolding is_keyword skip_punct
    begin_tail ts =
        let rest = skip_punct semicolon ts in
        if is_keyword kw_transaction rest then advance rest else rest

    unfoldable pub parse_statement : Parser Statement
    unfolding parse_create parse_drop parse_insert parse_select parse_update parse_delete begin_tail
        expect_keyword
    parse_statement (keyword kw_create ∷ ts) = parse_create fuel ts
    parse_statement (keyword kw_drop ∷ ts) = parse_drop ts
    parse_statement (keyword kw_insert ∷ ts) = parse_insert ts
    parse_statement (keyword kw_select ∷ ts) = parse_select parse_float fuel ts
    parse_statement (keyword kw_update ∷ ts) = parse_update ts
    parse_statement (keyword kw_delete ∷ ts) = parse_delete ts
    parse_statement (keyword kw_begin ∷ ts) = ok (begin, begin_tail ts)
    parse_statement (keyword kw_commit ∷ ts) = ok (commit, ts)
    parse_statement (keyword kw_rollback ∷ ts) = ok (rollback, ts)
    parse_statement (keyword kw_show ∷ ts) =
        onward (expect_keyword kw_tables ts) λ _. pure show_tables
    parse_statement ts = err (unexpected_token ts)

  -- What is left behind a statement and its semicolon is an error.
  abbrev pub whole : Tokens → Statement → Result ParseError Statement
  whole [] st = ok st
  whole (t ∷ ts) st = err trailing_input

  unfoldable pub parse_tokens : Tokens → Result ParseError Statement
  unfolding parse_statement skip_punct
  parse_tokens ts = elim (parse_statement (suc (length ts)) ts) [
    | err e ↦ err e
    | ok (st, rest) ↦ whole (skip_punct semicolon rest) st
  ]

  unfoldable pub parse : Unicode → Bytes → Result ParseError Statement
  unfolding tokenize parse_tokens
  parse U src = elim (tokenize U src) [ err e ↦ err (lexical e) | ok ts ↦ parse_tokens ts ]
