-- ===== src/Catalog.antt =====
-- internal/catalog: values, rows, and the table definitions of the system catalog.
pub mod Value
pub mod Row
pub mod TableDef
