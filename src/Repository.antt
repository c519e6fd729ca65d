-- ===== src/Repository.antt =====
-- The storage backends (repository/).
pub mod Redis
pub mod Sql
