-- ===== src/Updates.antt =====
-- The revision-guarded writes of the store (src/engrava/infrastructure/sqlite/engrava_core.py).
pub mod Defs
pub mod Rows
pub mod Guarded
mod Tests
