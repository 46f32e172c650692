-- ===== src/Diff.antt =====
-- src/internal/diff: the comparison of two scans of a schema. `Column` holds the comparison of two
-- columns, `Key` the keys of tables.
pub mod Column
pub mod Key
pub mod Named
pub mod Index
pub mod ForeignKey
pub mod Table
pub mod Universe
