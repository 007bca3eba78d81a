-- ===== src/Commands.antt =====
-- The commands cmd/createuser and cmd/migrate.
pub mod Createuser
pub mod Migrate
mod Examples
