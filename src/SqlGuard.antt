-- ===== src/SqlGuard.antt =====
-- src/internal/sqlguard/sqlguard.go: the guard that lets only reading statements through.
pub mod Words
pub mod Explain
pub mod Cte
pub mod Into
pub mod Validate
pub mod Limit
