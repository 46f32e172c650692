-- ===== src/Policy.antt =====
-- policy
pub mod Glob
pub mod Columns
pub mod Config
pub mod Redact
pub mod Mask
pub mod Sql
pub mod Extract
pub mod Scan
pub mod Check
pub mod PromQl
pub mod Native
