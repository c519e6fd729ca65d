-- ===== src/Examples.antt =====
-- Runs of the definitions on small inputs, and the theorems applied to them.
pub mod Fixtures
pub mod Queries
pub mod Tables
pub mod Servers
pub mod Services
pub mod SqlTables
pub mod RedisLogs
pub mod RedisStores
pub mod Storages
pub mod Commands
pub mod Deletions
pub mod Requests
pub mod Settings
pub mod Runs
pub mod Overlaps
pub mod Builders
pub mod Configs
pub mod Globs
