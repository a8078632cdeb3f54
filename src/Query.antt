-- ===== src/Query.antt =====
-- The results of a query: query.go, result_rows.go and rows.go.
pub mod Response
pub mod Materialize
pub mod Rows
pub mod Sync
pub mod Calls
