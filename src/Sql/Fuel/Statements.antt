-- ===== src/Sql/Fuel/Statements.antt =====
-- internal/sqlparser/parser.go: the fuel of the other statements, and of Parse.
use eleone_sql.Common.{
  ◌<◌, ℕ, suc, ◌≢◌, arith, [], ◌∷◌, length, Option, Result, ok, err, Bool-cases, inl, inr, ◌≤◌,
}
use eleone_sql.Bytes.{Bytes}
use eleone_sql.Sql.{
  Keyword, kw_into, kw_values, kw_set, kw_from, kw_tables, kw_transaction, keyword, Tokens, lparen,
  eq, semicolon,
}
use eleone_sql.Sql.Parser.{
  ParseError, lexical, out_of_fuel, Parser, pure, ◌>>=◌, expect_keyword, is_keyword, is_punct,
  skip_punct, expect_ident,
}
use eleone_sql.Sql.Schema.{Statement, show_tables}
use eleone_sql.Sql.Statements.{
  insert_columns, parse_insert, parse_assignment, parse_update, parse_delete, begin_tail,
  parse_statement, whole, parse_tokens, parse,
}
use eleone_sql.Sql.Lexer.{Unicode, LexError, tokenize}
use eleone_sql.Sql.Fuel.Text.{tokenize-fuel}
use eleone_sql.Sql.Fuel.{
  Leaves, consumed, rejected, Keeps, Leaves-le, Keeps-then, Reads→Keeps, pure-Keeps,
  advance_keyword, expect_keyword-Reads, expect_punct-Reads, length-skip_punct,
}
use eleone_sql.Sql.Fuel.Schema.{
  rejects, items-Keeps, in_parens-Reads, ident-Keeps, parse_create-Keeps, parse_drop-Keeps,
}
use eleone_sql.Sql.Fuel.Queries.{expr-Keeps, where-Keeps, select-Keeps}

length-begin_tail :
    (parse_float : Bytes → Option ℕ) (fuel : ℕ) (ts : Tokens)
    → length (begin_tail parse_float fuel ts) ≤ length ts
unfolding begin_tail
length-begin_tail parse_float fuel ts =
    let le = length-skip_punct semicolon ts in
    elim (Bool-cases (is_keyword kw_transaction (skip_punct semicolon ts))) [
      | inl h ↦
          rw (h, begin_tail)
            (omega (arith, advance_keyword kw_transaction (skip_punct semicolon ts) h))
      | inr h ↦ rw (h, begin_tail) (omega arith)
    ]

insert_columns-Keeps : (b : ℕ) → Keeps b (insert_columns b)
unfolding insert_columns
insert_columns-Keeps b ts lt = elim (Bool-cases (is_punct lparen ts)) [
  | inr h ↦ rw (h, insert_columns) (consumed (omega arith))
  | inl h ↦
      rw (h, insert_columns)
        (Reads→Keeps b _ (in_parens-Reads b _ (items-Keeps b expect_ident (ident-Keeps b))) ts lt)
]

module _ (parse_float : Bytes → Option ℕ) where
  module _ (b : ℕ) where
    insert-Keeps : Keeps b (parse_insert parse_float b)
    unfolding parse_insert
    insert-Keeps = Keeps-then b (Reads→Keeps b _ (expect_keyword-Reads b kw_into)) λ u.
        Keeps-then b (ident-Keeps b) λ table. Keeps-then b (insert_columns-Keeps b) λ cols.
          Keeps-then b (Reads→Keeps b _ (expect_keyword-Reads b kw_values)) λ u'.
            Keeps-then b
              (items-Keeps b _ (
                Reads→Keeps b _ (in_parens-Reads b _ (items-Keeps b _ (expr-Keeps parse_float b)))))
              λ rows. pure-Keeps b _

    assignment-Keeps : Keeps b (parse_assignment parse_float b)
    unfolding parse_assignment
    assignment-Keeps = Keeps-then b (ident-Keeps b) λ col.
        Keeps-then b (Reads→Keeps b _ (expect_punct-Reads b eq))
          λ u. Keeps-then b (expr-Keeps parse_float b) λ e. pure-Keeps b _

    update-Keeps : Keeps b (parse_update parse_float b)
    unfolding parse_update
    update-Keeps = Keeps-then b (ident-Keeps b) λ table.
        Keeps-then b (Reads→Keeps b _ (expect_keyword-Reads b kw_set)) λ u.
          Keeps-then b (items-Keeps b _ assignment-Keeps)
            λ assigns. Keeps-then b (where-Keeps parse_float b) λ cond. pure-Keeps b _

    delete-Keeps : Keeps b (parse_delete parse_float b)
    unfolding parse_delete
    delete-Keeps = Keeps-then b (Reads→Keeps b _ (expect_keyword-Reads b kw_from)) λ u.
        Keeps-then b (ident-Keeps b)
          λ table. Keeps-then b (where-Keeps parse_float b) λ cond. pure-Keeps b _

    show-Keeps : Keeps b (expect_keyword kw_tables >>= λ u. pure show_tables)
    show-Keeps =
        Keeps-then b (Reads→Keeps b _ (expect_keyword-Reads b kw_tables))
          λ u. pure-Keeps b show_tables

    -- A parser behind the first keyword of a statement.
    behind {ℓ} :
        {A : Type ℓ} (p : Parser A) (ts : Tokens)
        → Keeps b p
        → suc (length ts) < b
        → Leaves (suc (suc (length ts))) (p ts)
    behind p ts h lt = Leaves-le (h ts (omega arith)) (omega arith)

    parse_statement-Keeps : Keeps b (parse_statement parse_float b)
    unfolding parse_statement
    parse_statement-Keeps (keyword Keyword.kw_create ∷ ts) lt =
        behind _ ts (parse_create-Keeps b) lt
    parse_statement-Keeps (keyword Keyword.kw_drop ∷ ts) lt = behind _ ts (parse_drop-Keeps b) lt
    parse_statement-Keeps (keyword Keyword.kw_insert ∷ ts) lt = behind _ ts insert-Keeps lt
    parse_statement-Keeps (keyword Keyword.kw_select ∷ ts) lt =
        behind _ ts (select-Keeps parse_float b) lt
    parse_statement-Keeps (keyword Keyword.kw_update ∷ ts) lt = behind _ ts update-Keeps lt
    parse_statement-Keeps (keyword Keyword.kw_delete ∷ ts) lt = behind _ ts delete-Keeps lt
    parse_statement-Keeps (keyword Keyword.kw_begin ∷ ts) lt =
        consumed (omega (arith, length-begin_tail parse_float b ts))
    parse_statement-Keeps (keyword Keyword.kw_commit ∷ ts) lt = consumed (omega arith)
    parse_statement-Keeps (keyword Keyword.kw_rollback ∷ ts) lt = consumed (omega arith)
    parse_statement-Keeps (keyword Keyword.kw_show ∷ ts) lt = behind _ ts show-Keeps lt
    parse_statement-Keeps ts lt = rejects (λ e. cc)

  whole-fuel : (ts : Tokens) (st : Statement) → whole parse_float ts st ≢ err out_of_fuel
  whole-fuel [] st e = cc
  whole-fuel (t ∷ ts) st e = cc

  -- The outcome of a statement, and what is left behind it.
  close :
      (n : ℕ) (r : Result ParseError (Statement × Tokens))
      → Leaves n r
      → (elim r [
        | err e ↦ err e
        | ok (st, rest) ↦ whole parse_float (skip_punct semicolon rest) st
      ])
        ≢ err out_of_fuel
  close n _ (consumed {a = st} {rest = rest} h) e = whole-fuel (skip_punct semicolon rest) st e
  close n _ (rejected h) e = h (cc)

  parse_tokens-fuel : (ts : Tokens) → parse_tokens parse_float ts ≢ err out_of_fuel
  unfolding parse_tokens
  parse_tokens-fuel ts = close _ _ (parse_statement-Keeps (suc (length ts)) ts (omega arith))

  -- On every text, whatever the unicode tables and ParseFloat say: Tokenize and Parse come to a
  -- result before their fuel is used up.
  pub parse-ends :
      (U : Unicode) (src : Bytes)
      → (tokenize U src ≢ err LexError.out_of_fuel) × (parse parse_float U src ≢ err out_of_fuel)
  unfolding parse
  parse-ends U src = (tokenize-fuel U src, parsed (tokenize U src))
    where
      parsed :
          (r : Result LexError Tokens)
          → (elim r [ err e ↦ err (lexical e) | ok ts ↦ parse_tokens parse_float ts ])
            ≢ err out_of_fuel
      parsed (err e) e' = cc
      parsed (ok ts) e' = parse_tokens-fuel ts e'
