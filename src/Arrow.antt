-- ===== src/Arrow.antt =====
-- arrow.go: results in the Arrow format.
pub mod Schema
pub mod Timestamps
pub mod Values
pub mod Records
pub mod Host
