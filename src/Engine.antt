-- ===== src/Engine.antt =====
-- internal/engine: what runs statements against a transaction. Bindings, tuples and errors.
pub mod Expr
pub mod Rows
pub mod Index
pub mod Scan
pub mod Select
pub mod Writes
pub mod Session
use eleone_sql.Common.{
  ℕ, ◌+◌, ◌-◌, ◌*◌, ◌/◌, ◌%◌, ◌^◌, Bool, true, false, ltb, ◌==◌, if◌then◌else◌, List,
}
use eleone_sql.Bytes.{Bytes}
use eleone_sql.Encoding.{IsU64, sign_bit}
use eleone_sql.Catalog.Value.{SqlType, Value}
use eleone_sql.Catalog.Row.{RowError}
use eleone_sql.Catalog.TableDef.{TableDef}
use eleone_sql.Txn.Interface.{TreeError}

-- The arithmetic of float64 and its conversion from int64, on bit patterns: the hardware's, which
-- stays open here. What it gives is a pattern again.
pub record FloatOps : Type 0 where
  pub add : ℕ → ℕ → ℕ
  pub sub : ℕ → ℕ → ℕ
  pub mul : ℕ → ℕ → ℕ
  pub div : ℕ → ℕ → ℕ
  pub neg : ℕ → ℕ
  pub of_int : ℕ → ℕ
  pub add-IsU64 : (a b : ℕ) → IsU64 (add a b)
  pub sub-IsU64 : (a b : ℕ) → IsU64 (sub a b)
  pub mul-IsU64 : (a b : ℕ) → IsU64 (mul a b)
  pub div-IsU64 : (a b : ℕ) → IsU64 (div a b)
  pub neg-IsU64 : (a : ℕ) → IsU64 (neg a)
  pub of_int-IsU64 : (a : ℕ) → IsU64 (of_int a)

-- The int64 operations, which wrap around, on bit patterns.
abbrev pub int_add : ℕ → ℕ → ℕ
int_add a b = (a + b) % 2 ^ 64

abbrev pub int_sub : ℕ → ℕ → ℕ
int_sub a b = (a + (2 ^ 64 - b)) % 2 ^ 64

abbrev pub int_mul : ℕ → ℕ → ℕ
int_mul a b = (a * b) % 2 ^ 64

abbrev pub int_neg : ℕ → ℕ
int_neg a = (2 ^ 64 - a) % 2 ^ 64

abbrev pub int_abs : ℕ → ℕ
int_abs a = if ltb a sign_bit then a else 2 ^ 64 - a

-- Go's division truncates toward zero, and -2^63 / -1 is -2^63.
unfoldable pub int_div : ℕ → ℕ → ℕ
int_div a b =
    let q = int_abs a / int_abs b in
    elim (ltb a sign_bit) [
      | true ↦ if ltb b sign_bit then q % 2 ^ 64 else int_neg q
      | false ↦ if ltb b sign_bit then int_neg q else q % 2 ^ 64
    ]

-- `index_out_of_range` is Go's panic.
pub data EngineError : Type 0 where
  ambiguous_column unknown_column column_does_not_exist may_not_be_null : Bytes → EngineError
  bad_literal unknown_unary unknown_operator : Bytes → EngineError
  misplaced_count division_by_zero index_out_of_range duplicate_value : EngineError
  expected_values : ℕ → ℕ → EngineError
  cannot_use : SqlType → SqlType → EngineError
  bad_row : RowError → EngineError
  table_does_not_exist unknown_target : Bytes → EngineError
  key_not_found : EngineError
  tree_failed : TreeError → EngineError

-- `Binding`, less its row key, which nothing reads. A `Tuple` is a list of them.
pub record Binding : Type 0 where
  pub alias : Bytes
  pub table : TableDef
  pub values : List Value

abbrev pub Tuple : Type 0
Tuple = List Binding
