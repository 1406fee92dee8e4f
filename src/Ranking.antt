-- ===== src/Ranking.antt =====
-- The ranked list of a search and its retention by unit
-- (src/engrava/infrastructure/sqlite/engrava_core.py).
pub mod Defs
pub mod Retain
pub mod Order
mod Tests
