-- ===== src/Database.antt =====
-- The database subsystem (src/database): the per-request contexts and their global table.
pub mod Postgres
pub mod Context
pub mod Requests
