-- ===== src/Txn/Targets.antt =====
-- internal/txn/txn.go: the names of targets, and what `resolve` makes of them.
use eleone_sql.Common.{
  ℕ, ◌≡◌, ◌≢◌, refl, List, [], ◌∷◌, ◌++◌, ◌==◌, ==_iff, if◌then◌else◌, drop, Option, none, some,
  All, Bool-cases, inl, inr, ap,
}
use eleone_sql.Bytes.{Bytes, bytes_eq, has_prefix}
use eleone_sql.Bytes.Compare.{bytes_eq→eq, bytes_eq_refl}
use eleone_sql.Catalog.TableDef.{IndexDef, TableDef}

-- `TableTarget` and `IndexTarget`: "T:" and the table, "I:" and the table, ":" and the index.
unfoldable pub table_target : Bytes → Bytes
table_target table = 84 ∷ 58 ∷ table

unfoldable pub index_target : Bytes → Bytes → Bytes
index_target table index = 73 ∷ 58 ∷ (table ++ (58 ∷ index))

-- The parts before and after the first ':'; none where there is no ':'.
unfoldable pub split_colon : Bytes → Option (Bytes × Bytes)
split_colon [] = none
split_colon (b ∷ bs) =
    let rest = split_colon bs in
    if b == 58
    then some ([], bs)
    else elim rest [ none ↦ none | some (front, back) ↦ some (b ∷ front, back) ]

-- The root of the first index of the name.
unfoldable pub index_root : Bytes → List IndexDef → Option ℕ
index_root name [] = none
index_root name (x ∷ xs) =
    let rest = index_root name xs in if bytes_eq x.name name then some x.root else rest

abbrev pub table_root : Option TableDef → Option ℕ
table_root none = none
table_root (some td) = some td.root

abbrev pub table_index_root : Bytes → Option TableDef → Option ℕ
table_index_root index none = none
table_index_root index (some td) = index_root index td.indexes

-- `tables` is the catalog's `Table`. The function that saves a moved root is left out.
unfoldable pub resolve_target : (Bytes → Option TableDef) → Bytes → Option ℕ
unfolding split_colon
resolve_target tables target =
    if has_prefix target (84 ∷ 58 ∷ [])
    then table_root (tables (drop 2 target))
    else if has_prefix target (73 ∷ 58 ∷ [])
    then (elim (split_colon (drop 2 target)) [
      | none ↦ none
      | some (table, index) ↦ table_index_root index (tables table)
    ])
    else none

split_colon-append : (t i : Bytes) → All (λ b. b ≢ 58) t → split_colon (t ++ (58 ∷ i)) ≡ some (t, i)
unfolding split_colon
split_colon-append [] i h = refl
split_colon-append (b ∷ bs) i h = elim (Bool-cases (b == 58)) [
  | inl e ↦ absurd (h.0 ((==_iff b 58).0 e))
  | inr e ↦ rw (e, split_colon-append bs i h.1) refl
]

-- The root of the first index of the name, if there is one.
pub data IsFirstNamed (name : Bytes) : List IndexDef → Option ℕ → Type 0 where
  absent : IsFirstNamed name [] none
  here :
      {ix : IndexDef} {ixs : List IndexDef}
      → ix.name ≡ name
      → IsFirstNamed name (ix ∷ ixs) (some ix.root)
  later :
      {ix : IndexDef} {ixs : List IndexDef} {root : Option ℕ}
      → ix.name ≢ name
      → IsFirstNamed name ixs root
      → IsFirstNamed name (ix ∷ ixs) root

-- What the names of a table and of an index of it stand for.
pub data IsResolved (index : Bytes) : Option TableDef → Option ℕ → Option ℕ → Type 0 where
  unknown : IsResolved index none none none
  known :
      {td : TableDef} {root : Option ℕ}
      → IsFirstNamed index td.indexes root
      → IsResolved index (some td) (some td.root) root

index_root-IsFirstNamed :
    (name : Bytes) (ixs : List IndexDef) → IsFirstNamed name ixs (index_root name ixs)
unfolding index_root
index_root-IsFirstNamed name [] = absent
index_root-IsFirstNamed name (x ∷ xs) = elim (Bool-cases (bytes_eq x.name name)) [
  | inl e ↦ rw (e, index_root) (here (bytes_eq→eq x.name name e))
  | inr e ↦
      rw (e, index_root)
        (later (λ q. cc (e, ap (bytes_eq x.name) q, bytes_eq_refl x.name))
          (index_root-IsFirstNamed name xs))
]

roots-IsResolved :
    (index : Bytes) (o : Option TableDef)
    → IsResolved index o (table_root o) (table_index_root index o)
roots-IsResolved index none = unknown
roots-IsResolved index (some td) = known (index_root-IsFirstNamed index td.indexes)

-- If a table's name has no ':', `resolve` gives for the target of the table the root of the table,
-- and for the target of an index the root of the first index of the table that has the index's name;
-- it finds nothing where the table or such an index does not exist.
pub resolve_target-IsResolved :
    (tables : Bytes → Option TableDef) (t i : Bytes)
    → All (λ b. b ≢ 58) t
    → IsResolved i
        (tables t)
        (resolve_target tables (table_target t))
        (resolve_target tables (index_target t i))
unfolding resolve_target table_target index_target has_prefix
resolve_target-IsResolved tables t i h =
    rw (split_colon-append t i h) (roots-IsResolved i (tables t))
