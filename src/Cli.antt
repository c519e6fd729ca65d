-- ===== src/Cli.antt =====
-- internal/cli: the commands, as far as they hold logic of their own.
pub mod Import
pub mod Records
pub mod Migrate
pub mod Serve
