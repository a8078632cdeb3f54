-- ===== src/Types.antt =====
-- The types of result columns: typeparser.go, columntype.go, binary.go.
pub mod TypeDesc
pub mod Binary
pub mod ColumnType
