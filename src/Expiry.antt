-- ===== src/Expiry.antt =====
-- The choice of the rows that time-to-live expires (src/engrava/infrastructure/sqlite/engrava_core.py).
pub mod Defs
pub mod Split
mod Tests
