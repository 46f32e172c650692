-- ===== src/Examples.antt =====
-- The theorems at concrete inputs, and tests.
mod Policy
mod SqlGuard
mod FileQuery
mod Query
mod Graph
mod Native
mod Diff
mod Executor
mod SqlAst
mod Dsn
