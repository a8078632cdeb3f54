-- ===== src/Sql.antt =====
-- Building the text of a statement: helpers.go, encoder.go, interpolate.go.
pub mod Escape
pub mod Scanner
pub mod Encoder
pub mod Valuer
pub mod Splice
