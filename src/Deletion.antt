-- ===== src/Deletion.antt =====
-- The deletion of thoughts, and the two that delete many: time-to-live and the second stage of hygiene
-- (src/engrava/infrastructure/sqlite/engrava_core.py).
pub mod Tables
pub mod Defs
pub mod Effects
pub mod Integrity
pub mod Delete
pub mod Expire
pub mod Due
pub mod Rows
pub mod Rounds
pub mod Cleanup
pub mod Gc
pub mod Gone
pub mod Reaped
mod Tests
