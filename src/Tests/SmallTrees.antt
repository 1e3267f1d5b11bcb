-- ===== src/Tests/SmallTrees.antt =====
-- Trees to run the examples on: each target holds an optional value under every key, and no root
-- ever moves.
use eleone_sql.Common.{Bool, ◌&&◌, if◌then◌else◌, Option, none, some, ok, err}
use eleone_sql.Bytes.{Bytes, bytes_eq}
use eleone_sql.Txn.Interface.{Trees, key_not_found}

abbrev pub Cells : Type 0
Cells = Bytes → Bytes → Option Bytes

abbrev pub with_cell : Bytes → Bytes → Option Bytes → Cells → Cells
with_cell t k r s u j = if bytes_eq t u && bytes_eq k j then r else s u j

abbrev pub small_trees : (Bytes → Bool) → Trees
small_trees targets = record {
  State = Cells;
  known = λ t s. targets t;
  get = λ t k s. elim (s t k) [ none ↦ err key_not_found | some v ↦ ok v ];
  put = λ t k v s. (ok none, with_cell t k (some v) s);
  delete = λ t k s. elim (s t k) [
    | none ↦ (err key_not_found, s)
    | some v ↦ (ok none, with_cell t k none s)
  ];
  save = λ t root s. (ok tt, s);
}
