-- ===== src/Tests.antt =====
-- Runs of the model on concrete inputs, and the theorems at inputs that meet their hypotheses.
pub mod Sql
pub mod Types
pub mod Arrow
pub mod Query
pub mod Client
pub mod Calls
pub mod Values
pub mod Dsn
pub mod Saved
pub mod Conn
pub mod Batch
pub mod Opened
pub mod Headers
