-- ===== src/Locks.antt =====
-- The store's two locks (src/engrava/infrastructure/sqlite/engrava_core.py).
pub mod Defs
pub mod Exclusion
mod Tests
