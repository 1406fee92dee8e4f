-- ===== src/Migrations.antt =====
-- The runner of an extension's schema migrations
-- (src/engrava/infrastructure/sqlite/extension_migrations.py).
pub mod Defs
pub mod Recorded
pub mod Runs
pub mod Again
pub mod Atomic
pub mod Script
mod Tests
