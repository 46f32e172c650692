-- ===== src/FileQuery.antt =====
-- src/internal/connector/filequery: the in-memory query engine for CSV and XLSX files.
pub mod Like
