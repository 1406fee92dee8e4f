-- ===== src/Hygiene.antt =====
-- The Memory Hygiene forgetting loop: scoring (src/engrava/infrastructure/sqlite/hygiene.py and
-- src/engrava/domain/dreaming.py), selection, archival and the choice of what to collect
-- (src/engrava/infrastructure/sqlite/engrava_core.py).
pub mod Signals
pub mod Select
pub mod Selection
pub mod Stability
pub mod Archive
pub mod Archival
pub mod Rows
pub mod OneUpdate
pub mod Gc
pub mod Run
mod Tests
