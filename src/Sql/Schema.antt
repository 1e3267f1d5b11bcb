-- ===== src/Sql/Schema.antt =====
-- internal/sqlparser/parser.go and ast.go: statements as data, and those that define tables and indexes.
-- A helper stands for each part of a statement; the fuel is for its loops.
use eleone_sql.Common.{ℕ, zero, suc, Bool, true, false, List, [], ◌∷◌, Option, ok, err}
use eleone_sql.Bytes.{Bytes}
use eleone_sql.Engine.Expr.{Expr}
use eleone_sql.Engine.Select.{SelectStmt}
use eleone_sql.Sql.{
  kw_table, kw_index, kw_on, kw_unique, kw_primary, kw_key, kw_not, kw_null, keyword_text, comma,
  lparen, rparen, ident, keyword,
}
use eleone_sql.Sql.Parser.{
  expected_keyword, expected_type, out_of_fuel, unexpected_token, Parser, pure, onward, ◌>>=◌, ◌>>◌,
  is_punct, advance, expect_keyword, expect_punct, expect_ident,
}

pub record ColumnSpec : Type 0 where
  pub name : Bytes
  pub type_name : Bytes
  pub primary_key : Bool
  pub unique : Bool
  pub not_null : Bool

pub record Assignment : Type 0 where
  pub column : Bytes
  pub value : Expr

pub data Statement : Type 0 where
  create_table : Bytes → List ColumnSpec → Statement
  drop_table : Bytes → Statement
  -- Its name, its table, its column, and whether it is unique.
  create_index : Bytes → Bytes → Bytes → Bool → Statement
  insert : Bytes → List Bytes → List (List Expr) → Statement
  select : SelectStmt → Statement
  update : Bytes → List Assignment → Option Expr → Statement
  delete : Bytes → Option Expr → Statement
  begin commit rollback show_tables : Statement

-- The loops that go on at a comma.
unfoldable pub comma_list {ℓ} : {A : Type ℓ} → Parser A → ℕ → Parser (List A)
comma_list p zero ts = err out_of_fuel
comma_list p (suc fuel) ts = onward (p ts) λ x rest. elim (is_punct comma rest) [
  | false ↦ ok (x ∷ [], rest)
  | true ↦ onward (comma_list p fuel (advance rest)) λ xs. pure (x ∷ xs)
]

-- The type of a column may be spelled like a keyword.
unfoldable pub type_name : Parser Bytes
unfolding keyword_text
type_name (ident s ∷ ts) = ok (s, ts)
type_name (keyword k ∷ ts) = ok (keyword_text k, ts)
type_name _ = err expected_type

-- The loop of parseColumnSpec.
unfoldable pub column_constraints : ColumnSpec → Parser ColumnSpec
column_constraints spec (keyword kw_primary ∷ (keyword kw_key ∷ ts)) =
    column_constraints (record spec { primary_key = true; not_null = true }) ts
column_constraints spec (keyword kw_primary ∷ ts) = err (expected_keyword kw_key)
column_constraints spec (keyword kw_unique ∷ ts) =
    column_constraints (record spec { unique = true }) ts
column_constraints spec (keyword kw_not ∷ (keyword kw_null ∷ ts)) =
    column_constraints (record spec { not_null = true }) ts
column_constraints spec (keyword kw_not ∷ ts) = err (expected_keyword kw_null)
column_constraints spec ts = ok (spec, ts)

unfoldable pub parse_column_spec : Parser ColumnSpec
unfolding expect_ident type_name column_constraints
parse_column_spec = do
  name ← expect_ident
  typ ← type_name
  column_constraints (record {
    name = name;
    type_name = typ;
    primary_key = false;
    unique = false;
    not_null = false;
  })

unfoldable pub in_parens {ℓ} : {A : Type ℓ} → Parser A → Parser A
unfolding expect_punct
in_parens p = do expect_punct lparen; x ← p; expect_punct rparen; pure x

-- parseCreate behind TABLE, and behind INDEX.
unfoldable pub parse_create_table : ℕ → Parser Statement
unfolding expect_ident in_parens comma_list parse_column_spec
parse_create_table fuel = do
  name ← expect_ident
  cols ← in_parens (comma_list parse_column_spec fuel)
  pure (create_table name cols)

unfoldable pub parse_create_index : Bool → Parser Statement
unfolding expect_ident expect_keyword in_parens
parse_create_index unique = do
  name ← expect_ident
  expect_keyword kw_on
  table ← expect_ident
  col ← in_parens expect_ident
  pure (create_index name table col unique)

unfoldable pub create_object : ℕ → Bool → Parser Statement
unfolding parse_create_table parse_create_index
create_object fuel unique (keyword kw_table ∷ ts) = parse_create_table fuel ts
create_object fuel unique (keyword kw_index ∷ ts) = parse_create_index unique ts
create_object fuel unique ts = err (unexpected_token ts)

unfoldable pub parse_create : ℕ → Parser Statement
unfolding create_object
parse_create fuel (keyword kw_unique ∷ ts) = create_object fuel true ts
parse_create fuel ts = create_object fuel false ts

unfoldable pub parse_drop : Parser Statement
unfolding expect_keyword expect_ident
parse_drop = do expect_keyword kw_table; name ← expect_ident; pure (drop_table name)
