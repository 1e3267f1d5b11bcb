-- ===== src/Engine/Writes/Unique.antt =====
-- internal/engine/insert.go: what checkUniqueViaTxn refuses.
use eleone_sql.Common.{refl, ◌≡◌, List, ◌∷◌, ◌++◌, ok, err}
use eleone_sql.Bytes.{Bytes}
use eleone_sql.Catalog.Value.{text_value, sort_key}
use eleone_sql.Catalog.TableDef.{IndexDef, TableDef}
use eleone_sql.Txn.Targets.{index_target}
use eleone_sql.Engine.{duplicate_value}
use eleone_sql.Engine.Index.{index_key, entry_of_extension}
use eleone_sql.Engine.Writes.{Database, check_unique, engine_result}

-- The unique check refuses a text `a` if the first entry that the cursor finds from the sort key of
-- `a` on is the entry of a longer text `a ++ b`, whether `a` itself is in the index or not.
pub check_unique-extension :
    (D : Database) (td : TableDef) (ix : IndexDef) (s : D.trees.State) (a b row_key row : Bytes)
    (later : List (Bytes × Bytes))
    → D.cursor (index_target td.name ix.name) (sort_key (text_value a)) s
      ≡ ok ((index_key (text_value (a ++ b)) row_key, row) ∷ later)
    → check_unique D td ix (text_value a) s ≡ err duplicate_value
unfolding check_unique engine_result
check_unique-extension D td ix s a b row_key row later h =
    rw (h, check_unique) (rw (entry_of_extension a b row_key) refl)
