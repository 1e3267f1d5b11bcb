-- ===== src/Sql/Fuel/Schema.antt =====
-- internal/sqlparser/parser.go: the fuel of statements on tables and indexes.
use eleone_sql.Common.{Bool, ℕ, ◌≢◌, arith, true, false, ◌∷◌, err}
use eleone_sql.Sql.{Keyword, kw_on, kw_table, keyword, ident, lparen, rparen}
use eleone_sql.Sql.Parser.{ParseError, out_of_fuel, Parser, expect_ident}
use eleone_sql.Sql.Schema.{
  comma_list, type_name, ColumnSpec, column_constraints, parse_column_spec, in_parens,
  parse_create_table, parse_create_index, create_object, parse_create, parse_drop,
}
use eleone_sql.Sql.Fuel.{
  Leaves, consumed, rejected, Reads, Keeps, Leaves-le, Reads-then, Keeps-then, Reads→Keeps,
  pure-Keeps, expect_punct-Reads, expect_keyword-Reads, expect_ident-Reads, comma_list-Keeps,
}

pub rejects {ℓ} : {A : Type ℓ} {n : ℕ} {e : ParseError} → e ≢ out_of_fuel → Leaves {A = A} n (err e)
rejects h = rejected h

module _ {ℓ} {A : Type ℓ} (b : ℕ) (p : Parser A) where
  -- A list with commas whose fuel is the bound.
  pub items-Keeps : Keeps b p → Keeps b (comma_list p b)
  items-Keeps h ts lt = comma_list-Keeps b p b h ts lt lt

  pub in_parens-Reads : Keeps b p → Reads b (in_parens p)
  unfolding in_parens
  in_parens-Reads h = Reads-then b (expect_punct-Reads b lparen) λ u.
      Keeps-then b h
        λ x. Reads→Keeps b _ (Reads-then b (expect_punct-Reads b rparen) λ u'. pure-Keeps b x)

module _ (b : ℕ) where
  pub ident-Keeps : Keeps b expect_ident
  ident-Keeps = Reads→Keeps b expect_ident (expect_ident-Reads b)

  type_name-Keeps : Keeps b type_name
  unfolding type_name
  type_name-Keeps (ident s ∷ ts) lt = consumed (omega arith)
  type_name-Keeps (keyword k ∷ ts) lt = consumed (omega arith)
  type_name-Keeps ts lt = rejects (λ e. cc)

  column_constraints-Keeps : (spec : ColumnSpec) → Keeps b (column_constraints spec)
  unfolding column_constraints
  column_constraints-Keeps spec (keyword Keyword.kw_primary ∷ (keyword Keyword.kw_key ∷ ts)) lt =
      Leaves-le (column_constraints-Keeps _ ts (omega arith)) (omega arith)
  column_constraints-Keeps spec (keyword Keyword.kw_primary ∷ ts) lt = rejects (λ e. cc)
  column_constraints-Keeps spec (keyword Keyword.kw_unique ∷ ts) lt =
      Leaves-le (column_constraints-Keeps _ ts (omega arith)) (omega arith)
  column_constraints-Keeps spec (keyword Keyword.kw_not ∷ (keyword Keyword.kw_null ∷ ts)) lt =
      Leaves-le (column_constraints-Keeps _ ts (omega arith)) (omega arith)
  column_constraints-Keeps spec (keyword Keyword.kw_not ∷ ts) lt = rejects (λ e. cc)
  column_constraints-Keeps spec ts lt = consumed (omega arith)

  parse_column_spec-Keeps : Keeps b parse_column_spec
  unfolding parse_column_spec
  parse_column_spec-Keeps =
      Keeps-then b ident-Keeps
        λ name. Keeps-then b type_name-Keeps λ typ. column_constraints-Keeps _

  parse_create_table-Keeps : Keeps b (parse_create_table b)
  unfolding parse_create_table
  parse_create_table-Keeps = Keeps-then b ident-Keeps λ name.
      Keeps-then b
        (Reads→Keeps b _
          (in_parens-Reads b _ (items-Keeps b parse_column_spec parse_column_spec-Keeps)))
        λ cols. pure-Keeps b _

  parse_create_index-Keeps : (unique : Bool) → Keeps b (parse_create_index unique)
  unfolding parse_create_index
  parse_create_index-Keeps unique = Keeps-then b ident-Keeps λ name.
      Keeps-then b (Reads→Keeps b _ (expect_keyword-Reads b kw_on)) λ u.
        Keeps-then b ident-Keeps λ table.
          Keeps-then b (Reads→Keeps b _ (in_parens-Reads b _ ident-Keeps)) λ col. pure-Keeps b _

  create_object-Keeps : (unique : Bool) → Keeps b (create_object b unique)
  unfolding create_object
  create_object-Keeps unique (keyword Keyword.kw_table ∷ ts) lt =
      Leaves-le (parse_create_table-Keeps ts (omega arith)) (omega arith)
  create_object-Keeps unique (keyword Keyword.kw_index ∷ ts) lt =
      Leaves-le (parse_create_index-Keeps unique ts (omega arith)) (omega arith)
  create_object-Keeps unique ts lt = rejects (λ e. cc)

  pub parse_create-Keeps : Keeps b (parse_create b)
  unfolding parse_create
  parse_create-Keeps (keyword Keyword.kw_unique ∷ ts) lt =
      Leaves-le (create_object-Keeps true ts (omega arith)) (omega arith)
  parse_create-Keeps ts lt = create_object-Keeps false ts lt

  pub parse_drop-Keeps : Keeps b parse_drop
  unfolding parse_drop
  parse_drop-Keeps = Reads→Keeps b _ (
      Reads-then b (expect_keyword-Reads b kw_table)
        λ u. Keeps-then b ident-Keeps λ name. pure-Keeps b _)
