-- ===== src/Txn/Interface.antt =====
-- What a transaction asks of the b-trees: the calls of internal/storage/btree.go that txn.go makes
-- on the tree of a target, and the function that `resolve` gives to save a moved root. Nothing is
-- assumed of them.
use eleone_sql.Common.{ℕ, Bool, Option, Result}
use eleone_sql.Bytes.{Bytes}

-- The errors: `storage.ErrKeyNotFound`, `storage.ErrKeyTooLarge`, and a target that the catalog lacks.
pub data TreeError : Type 0 where
  key_not_found key_too_large unknown_target : TreeError

-- `known` is whether `resolve` finds the target; where it does not, nothing else is called. `get`,
-- `put` and `delete` are those of the tree of the target; the last two give its root if they have
-- moved it, and `save` writes a moved root into the catalog, which can fail.
pub record Trees : Type 1 where
  pub State : Type 0
  pub known : Bytes → State → Bool
  pub get : Bytes → Bytes → State → Result TreeError Bytes
  pub put : Bytes → Bytes → Bytes → State → Result TreeError (Option ℕ) × State
  pub delete : Bytes → Bytes → State → Result TreeError (Option ℕ) × State
  pub save : Bytes → ℕ → State → Result TreeError (Unit {0}) × State
